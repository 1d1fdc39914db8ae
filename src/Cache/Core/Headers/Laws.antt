-- ===== src/Cache/Core/Headers/Laws.antt =====
-- What reaches the host through `set_request_header_values`.
use compute_sdk_cpp.Prelude.{ℕ, ◌≡◌, refl, ◌∙◌, ap, Bool, false, List, [], ◌∷◌, ◌++◌, none, some}
use compute_sdk_cpp.Prelude.{Bytes, append_assoc, append-nil}
use compute_sdk_cpp.Prelude.Split.{NoneHold, split_on, split_on-append}
use compute_sdk_cpp.Prelude.Effects.{ok}
use compute_sdk_cpp.Host.{RequestHost, ok_status, bad_handle}
use compute_sdk_cpp.Cache.Core.Headers.{value_bytes, set_request_header_values}

value_bytes-append :
    (bytes : Bytes) (values : List Bytes)
    → value_bytes bytes values ≡ bytes ++ value_bytes [] values
unfolding value_bytes
value_bytes-append bytes [] = simp append-nil
value_bytes-append bytes (v ∷ vs) =
    rw (value_bytes-append ((bytes ++ v) ++ 0 ∷ []) vs, value_bytes-append (v ++ 0 ∷ []) vs)
      (simp append_assoc)

-- Cut at the zero bytes, the buffer that the host is given is the list of values, and an empty
-- piece behind the last one, if no value holds a zero byte.
pub split_on-value_bytes :
    (values : List Bytes)
    → NoneHold 0 values
    → split_on 0 (value_bytes [] values) ≡ values ++ [] ∷ []
unfolding value_bytes split_on
split_on-value_bytes [] h = refl
split_on-value_bytes (v ∷ vs) h =
    rw (value_bytes-append (v ++ 0 ∷ []) vs, append_assoc)
      (split_on-append 0 v _ h.0 ∙ ap (λ t. v ∷ t) (split_on-value_bytes vs h.1))

-- What the host documents of request handles: a closed handle is refused, with no effect.
pub record IsRequestHost {S : Type 0} (host : RequestHost S) : Type 0 where
  pub is_open : ℕ → S → Bool
  pub is_open-close : (h : ℕ) (s : S) → is_open h (host.http_req_close h s) ≡ false
  pub set_closed :
      (h : ℕ) (name bytes : Bytes) (s : S)
      → is_open h s ≡ false
      → host.http_req_header_values_set h name bytes s ≡ (bad_handle, tt, s)

-- If the host makes the new request, and refuses a closed handle with no effect: on options that
-- hold no handle yet, the handle that is stored is closed and the values are lost, so that the
-- host ends in the state in which a new request was made and closed. Later calls on these options
-- change nothing either.
pub set_request_header_values_lost :
    {S E : Type 0} (host : RequestHost S) (L : IsRequestHost host) (name other : Bytes)
    (values more : List Bytes) (s s1 : S) (h : ℕ)
    → host.http_req_new s ≡ (ok_status, h, s1)
    → let closed = host.http_req_close h s1 in
      (set_request_header_values host {E = E} none name values s ≡ ok (some h) closed)
      × (L.is_open h closed ≡ false)
      × (set_request_header_values host {E = E} (some h) other more closed ≡ ok (some h) closed)
unfolding set_request_header_values
set_request_header_values_lost host L name other values more s s1 h e =
    let c = L.is_open-close h s1 in
    (
      rw (e, L.set_closed h name (value_bytes [] values) _ c) refl,
      c,
      rw (L.set_closed h other (value_bytes [] more) _ c) refl,
    )
