-- ===== src/Http/Request/CachingLaws.antt =====
-- Chains of the builder-style caching methods of src/cpp/http/request.cpp.
use compute_sdk_cpp.Prelude.{ℕ, ◌≡◌, refl, Bool, false, List, [], ◌∷◌, Option, none}
use compute_sdk_cpp.Prelude.Effects.{M, ok, pure, ◌>>=◌}
use compute_sdk_cpp.Host.Requests.{RequestCacheHost}
use compute_sdk_cpp.Http.Request.{Request}
use compute_sdk_cpp.Http.Request.Caching.{
  set_pass, set_stale_while_revalidate, set_pci, with_pass, with_ttl, with_stale_while_revalidate,
  with_pci, to_bool,
}

pub data CachingCall : Type 0 where
  pass : Bool → CachingCall
  ttl : ℕ → CachingCall
  stale : ℕ → CachingCall
  pci : Bool → CachingCall

-- Whether a call turns caching off.
abbrev pub turns_off : CachingCall → Bool
turns_off (pass b) = b
turns_off (ttl t) = to_bool t
turns_off (stale swr) = false
turns_off (pci b) = false

-- The last call decides.
abbrev pub turned_off : List CachingCall → Bool → Bool
turned_off [] before = before
turned_off (call ∷ calls) before = turned_off calls (turns_off call)

-- What include/fastly/http/request.h documents of the setters: `set_pass(true)` turns caching off and
-- the others on, and only `set_ttl` gives a request a lifetime of its own. `lifetime` is the one that
-- is in force; `set_pass(true)` may take one away.
pub record KeepsCaching {S Err : Type 0} (host : RequestCacheHost S Err) : Type 0 where
  pub is_off : ℕ → S → Bool
  pub lifetime : ℕ → S → Option ℕ
  pub is_off-set_pass : (r : ℕ) (b : Bool) (s : S) → is_off r (host.set_pass r b s) ≡ b
  pub is_off-set_stale :
      (r swr : ℕ) (s : S) → is_off r (host.set_stale_while_revalidate r swr s) ≡ false
  pub is_off-set_pci : (r : ℕ) (b : Bool) (s : S) → is_off r (host.set_pci r b s) ≡ false
  pub unset-set_pass :
      (r : ℕ) (b : Bool) (s : S) → lifetime r s ≡ none → lifetime r (host.set_pass r b s) ≡ none
  pub unset-set_stale :
      (r swr : ℕ) (s : S)
      → lifetime r s ≡ none
      → lifetime r (host.set_stale_while_revalidate r swr s) ≡ none
  pub unset-set_pci :
      (r : ℕ) (b : Bool) (s : S) → lifetime r s ≡ none → lifetime r (host.set_pci r b s) ≡ none

module _ {S Err : Type 0} (host : RequestCacheHost S Err) (E : Type 0) where
  unfoldable pub call_one : CachingCall → Request → M S E Request
  call_one (pass b) r = with_pass host b r
  call_one (ttl t) r = with_ttl host t r
  call_one (stale swr) r = with_stale_while_revalidate host swr r
  call_one (pci b) r = with_pci host b r

  unfoldable pub call_all : List CachingCall → Request → M S E Request
  unfolding call_one
  call_all [] r = pure r
  call_all (call ∷ calls) r = do r1 ← call_one call r; call_all calls r1

  module _ (K : KeepsCaching host) where
    call_one-unset :
        (call : CachingCall) (r : Request) (s : S)
        → K.lifetime r.req s ≡ none
        → (s' : S) × (call_one call r s ≡ ok r s')
          × (K.lifetime r.req s' ≡ none)
          × (K.is_off r.req s' ≡ turns_off call)
    unfolding call_one with_pass with_ttl with_stale_while_revalidate with_pci set_pass
        set_stale_while_revalidate set_pci
    call_one-unset (pass b) r s e =
        (host.set_pass r.req b s, refl, K.unset-set_pass r.req b s e, K.is_off-set_pass r.req b s)
    call_one-unset (ttl t) r s e =
        let b = to_bool t in
        (host.set_pass r.req b s, refl, K.unset-set_pass r.req b s e, K.is_off-set_pass r.req b s)
    call_one-unset (stale swr) r s e = (
      host.set_stale_while_revalidate r.req swr s,
      refl,
      K.unset-set_stale r.req swr s e,
      K.is_off-set_stale r.req swr s,
    )
    call_one-unset (pci b) r s e =
        (host.set_pci r.req b s, refl, K.unset-set_pci r.req b s e, K.is_off-set_pci r.req b s)

    -- On a host whose setters do what the header documents, after any chain of `with_pass`,
    -- `with_ttl`, `with_stale_while_revalidate` and `with_pci` on a request without a lifetime of its
    -- own: the chain succeeds with that request, which still has none, though `with_ttl` be among
    -- the calls; and whether caching is off is what the last call says, of which a `with_ttl` says
    -- that it is off unless its argument is 0.
    pub call_all_lem :
        (calls : List CachingCall) (r : Request) (s : S)
        → K.lifetime r.req s ≡ none
        → (s' : S) × (call_all calls r s ≡ ok r s')
          × (K.lifetime r.req s' ≡ none)
          × (K.is_off r.req s' ≡ turned_off calls (K.is_off r.req s))
    unfolding call_all
    call_all_lem [] r s e = (s, refl, e, refl)
    call_all_lem (call ∷ calls) r s e =
        let (s1, e1, q1, p1) = call_one-unset call r s e in
        let (s2, e2, q2, p2) = call_all_lem calls r s1 q1 in (s2, rw e1 e2, q2, rw p1 at p2)
