-- ===== src/Cache/Core/Found/Laws.antt =====
-- The metadata buffer, the remaining lifetime and the range of a found object.
use compute_sdk_cpp.Prelude.{ℕ, ◌-◌, ◌^◌, ◌≤◌, ◌<◌, ◌≡◌, refl, Bool, true, []}
use compute_sdk_cpp.Prelude.{Bytes, Option, some, length, take, drop, replicate, arith}
use compute_sdk_cpp.Prelude.{leb, Bool-cases, inl, inr, append-nil, tests, lt→ltb}
use compute_sdk_cpp.Prelude.{take-length-append, length-append, length-take, length-replicate}
use compute_sdk_cpp.Prelude.Int.{pos, to_int64}
use compute_sdk_cpp.Prelude.Effects.{ok}
use compute_sdk_cpp.Host.{CacheHost, ok_status, buffer_len}
use compute_sdk_cpp.Cache.Core.Handles.{Found, require}
use compute_sdk_cpp.Cache.Core.Found.{
  resize, overwrite, initial_size, get_metadata, retry_metadata, read_metadata, user_metadata,
  get_age, get_max_age, remaining_ttl,
}

-- What the host documents of `get_user_metadata`: it fills a buffer that is long enough, and
-- otherwise says how long a buffer it wants.
pub record HasMetadata {S : Type 0} (host : CacheHost S) (f : Found) : Type 0 where
  pub metadata : S → Bytes
  pub fits :
      (n : ℕ) (s : S)
      → length (metadata s) ≤ n
      → get_metadata host f n s
        ≡ (ok_status, record { bytes = metadata s; nwritten = length (metadata s) }, s)
  pub is_short :
      (n : ℕ) (s : S)
      → n < length (metadata s)
      → get_metadata host f n s
        ≡ (buffer_len, record { bytes = []; nwritten = length (metadata s) }, s)

-- Cut to the bytes that were written, the buffer holds those bytes.
resize-overwrite :
    (bytes buffer : Bytes)
    → length bytes ≤ length buffer
    → resize (length bytes) (overwrite bytes buffer) ≡ bytes
resize-overwrite bytes buffer h =
    let none_missing : length bytes - length (overwrite bytes buffer) ≡ 0 =
      omega (arith, length-append bytes (drop (length bytes) buffer)) in
    rw (take-length-append (length bytes) bytes (drop (length bytes) buffer) refl, none_missing)
      (append-nil bytes)

length-resize : (n : ℕ) (buffer : Bytes) → length buffer ≤ n → length (resize n buffer) ≡ n
length-resize n buffer h = omega (
  arith,
  length-append (take n buffer) (replicate (n - length buffer) 0),
  length-take n buffer,
  length-replicate {A = ℕ} (n - length buffer) 0,
)

module _ {S : Type 0} (host : CacheHost S) (E : Type 0) (f : Found) where
  retry_metadata_lem :
      (H : HasMetadata host f) (buffer : Bytes) (s : S)
      → length (H.metadata s) ≤ length buffer
      → retry_metadata host {E = E} f buffer s ≡ ok (H.metadata s) s
  unfolding retry_metadata
  retry_metadata_lem H buffer s h =
      rw (H.fits (length buffer) s h, resize-overwrite (H.metadata s) buffer h) refl

  read_metadata_lem :
      (H : HasMetadata host f) (buffer : Bytes) (s : S)
      → read_metadata host {E = E} f buffer s ≡ ok (H.metadata s) s
  unfolding read_metadata
  read_metadata_lem H buffer s = elim (Bool-cases (leb (length (H.metadata s)) (length buffer))) [
    | inl enough ↦
        let h : length (H.metadata s) ≤ length buffer = omega tests in
        rw (H.fits (length buffer) s h, resize-overwrite (H.metadata s) buffer h) refl
    | inr short ↦
        let h : length buffer < length (H.metadata s) = ground arith in
        rw (H.is_short (length buffer) s h) (
          retry_metadata_lem H _ s
            (omega (arith, length-resize (length (H.metadata s)) buffer (omega arith))))
  ]

  -- On a host that fills a buffer which is long enough, and otherwise says how long a buffer it
  -- wants, `user_metadata` returns all of the metadata and nothing else, whatever their length,
  -- and never aborts.
  pub user_metadata_lem :
      (H : HasMetadata host f) (s : S) → user_metadata host {E = E} f s ≡ ok (H.metadata s) s
  unfolding user_metadata
  user_metadata_lem H s = read_metadata_lem H (replicate initial_size 0) s

  -- If the host answers both queries with numbers below 2^63, the remaining lifetime is what the age
  -- lacks to the maximum age, and 0 once it has reached that.
  pub remaining_ttl_lem :
      (max age : ℕ) (s s1 s2 : S)
      → get_max_age host f s ≡ (ok_status, max, s1)
      → get_age host f s1 ≡ (ok_status, age, s2)
      → max < 2 ^ 63
      → age < 2 ^ 63
      → remaining_ttl host {E = E} f s ≡ ok (pos (max - age)) s2
  unfolding remaining_ttl require to_int64
  remaining_ttl_lem max age s s1 s2 e1 e2 h1 h2 =
      rw (e1, e2, lt→ltb max _ h1, lt→ltb age _ h2) (ground arith)

-- The second end, if both are given, is not below the first.
abbrev pub is_ordered : Option ℕ → Option ℕ → Bool
is_ordered (some a) (some b) = leb a b
is_ordered _ _ = true
