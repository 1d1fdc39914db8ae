-- ===== src/Security.antt =====
-- Inspection, of include/fastly/security.h and src/cpp/security.cpp, over the bridge.
pub mod Laws
use compute_sdk_cpp.Prelude.{
  ℕ, Bool, Option, none, some, Bytes, List, [], ◌∷◌, ◌++◌, length, replicate,
}
use compute_sdk_cpp.Prelude.Int.{ℤ}
use compute_sdk_cpp.Prelude.Effects.{M, pure, ◌>>=◌}
use compute_sdk_cpp.Host.Calls.{read, optional}
use compute_sdk_cpp.Host.Inspection.{InspectionHost, InspectVerdict}
use compute_sdk_cpp.Http.Request.{Request}
use compute_sdk_cpp.Http.Response.{Response}

pub record InspectConfig : Type 0 where
  pub client_ip : Option Bytes
  pub corp : Option Bytes
  pub workspace : Option Bytes
  pub buffer_size : Option ℕ

-- `InspectConfig()`
unfoldable pub new_config : InspectConfig
new_config = record { client_ip = none; corp = none; workspace = none; buffer_size = none }

unfoldable pub with_client_ip : Bytes → InspectConfig → InspectConfig
with_client_ip ip c = record c { client_ip = some ip }

unfoldable pub with_corp : Bytes → InspectConfig → InspectConfig
with_corp name c = record c { corp = some name }

unfoldable pub with_workspace : Bytes → InspectConfig → InspectConfig
with_workspace name c = record c { workspace = some name }

unfoldable pub with_buffer_size : ℕ → InspectConfig → InspectConfig
with_buffer_size size c = record c { buffer_size = some size }

pub record InspectResponse : Type 0 where
  pub ir : ℕ

-- `std::vector::resize` to a larger size: default strings are appended.
unfoldable pub resize : ℕ → List Bytes → List Bytes
resize n ret = ret ++ replicate n []

-- `std::transform` with `std::back_inserter(ret)`
unfoldable pub back_insert : List Bytes → List Bytes → List Bytes
back_insert ret [] = ret
back_insert ret (tag ∷ tags) = back_insert (ret ++ tag ∷ []) tags

module _ {S Err : Type 0} (host : InspectionHost S Err) where
  unfoldable pub status : {E : Type 0} → InspectResponse → M S E ℤ
  status r = read (host.status r.ir)

  unfoldable pub redirect_url : {E : Type 0} → InspectResponse → M S E (Option Bytes)
  redirect_url r = optional (host.redirect_url r.ir)

  unfoldable pub tags : {E : Type 0} → InspectResponse → M S E (List Bytes)
  unfolding resize back_insert
  tags r = do names ← read (host.tags r.ir); pure (back_insert (resize (length names) []) names)

  unfoldable pub verdict : {E : Type 0} → InspectResponse → M S E InspectVerdict
  verdict r = read (host.verdict r.ir)

  unfoldable pub unrecognized_verdict_info : {E : Type 0} → InspectResponse → M S E (Option Bytes)
  unrecognized_verdict_info r = optional (host.unrecognized_verdict_info r.ir)

  unfoldable pub decision_ms : {E : Type 0} → InspectResponse → M S E ℕ
  decision_ms r = read (host.decision_ms r.ir)

  unfoldable pub is_redirect : {E : Type 0} → InspectResponse → M S E Bool
  is_redirect r = read (host.is_redirect r.ir)

  unfoldable pub redirect_of : Option ℕ → Option Response
  redirect_of none = none
  redirect_of (some box) = some (record { res = box })

  unfoldable pub into_redirect : {E : Type 0} → InspectResponse → M S E (Option Response)
  unfolding redirect_of
  into_redirect r = do box ← optional (host.into_redirect r.ir); pure (redirect_of box)

  unfoldable pub inspect : Request → InspectConfig → M S Err InspectResponse
  inspect request config = do
    box ←
        host.security_lookup request.req config.client_ip config.corp config.workspace
          config.buffer_size
    pure (record { ir = box })

  -- Of an `InspectError`, which is its box.
  unfoldable pub error_code : {E : Type 0} → Err → M S E ℕ
  error_code e = read (host.error_code e)

  unfoldable pub error_msg : {E : Type 0} → Err → M S E Bytes
  error_msg e = read (host.error_msg e)

  unfoldable pub required_buffer_size : {E : Type 0} → Err → M S E (Option ℕ)
  required_buffer_size e = optional (host.required_buffer_size e)
