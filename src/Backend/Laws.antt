-- ===== src/Backend/Laws.antt =====
-- What a backend says of how it was built.
use compute_sdk_cpp.Prelude.{ℕ, ◌≡◌, refl}
use compute_sdk_cpp.Prelude.Int.{ℤ}
use compute_sdk_cpp.Prelude.Effects.{M, ok, ◌>>=◌}
use compute_sdk_cpp.Host.Backends.{BackendHost, BackendBuilderHost}
use compute_sdk_cpp.Host.Calls.{to_u32}
use compute_sdk_cpp.Backend.{
  BackendBuilder, first_byte_timeout, between_bytes_timeout, finish, get_between_byte_timeout,
}

-- The two timeouts are set, the backend is made and asked for the second one.
unfoldable pub between_of_built :
    {S Err : Type 0}
    → BackendHost S Err
    → BackendBuilderHost S Err
    → ℤ
    → ℤ
    → BackendBuilder
    → M S Err ℕ
between_of_built host builders first between b = do
  b1 ← first_byte_timeout builders first b
  b2 ← between_bytes_timeout builders between b1
  backend ← finish builders b2
  get_between_byte_timeout host backend

module _ {S Err : Type 0} (host : BackendHost S Err) (builders : BackendBuilderHost S Err) where
  -- A host that accepts every builder, keeps its timeouts one by one and gives them back.
  pub record KeepsTimeouts : Type 0 where
    -- of a builder, and of a backend
    pub first : ℕ → S → ℕ
    pub first_of_backend : ℕ → S → ℕ
    pub finished : ℕ → S → ℕ × S
    pub first-set :
        (b t : ℕ) (s : S) → let (b1, s1) = builders.first_byte_timeout b t s in first b1 s1 ≡ t
    pub first-between :
        (b t : ℕ) (s : S)
        → let (b1, s1) = builders.between_bytes_timeout b t s in first b1 s1 ≡ first b s
    pub finish_lem :
        (b : ℕ) (s : S)
        → let (h, s1) = finished b s in
          (builders.finish b s ≡ ok h s1) × (first_of_backend h s1 ≡ first b s)
    pub get_first_lem : (h : ℕ) (s : S) → (host.get_first_byte_timeout h s).0 ≡ first_of_backend h s

  module _ (K : KeepsTimeouts) where
    -- On a host that accepts every builder and keeps each timeout, a backend that was built with a
    -- first byte timeout and then a between bytes timeout answers `get_between_byte_timeout` with
    -- the first byte timeout, cut to 32 bits.
    pub get_between_byte_timeout-first :
        (first between : ℤ) (b : BackendBuilder) (s : S)
        → (s' : S) × (between_of_built host builders first between b s ≡ ok (to_u32 first) s')
    unfolding between_of_built first_byte_timeout between_bytes_timeout finish
        get_between_byte_timeout
    get_between_byte_timeout-first first between b s =
        let (b1, s1) = builders.first_byte_timeout b.builder (to_u32 first) s in
        let (b2, s2) = builders.between_bytes_timeout b1 (to_u32 between) s1 in
        let (h, s3) = K.finished b2 s2 in
        let (made, kept) = K.finish_lem b2 s2 in
        (
          (host.get_first_byte_timeout h s3).1,
          rw
              (
                made,
                K.get_first_lem h s3,
                kept,
                K.first-between b1 (to_u32 between) s1,
                K.first-set b.builder (to_u32 first) s,
              )
              refl,
        )
