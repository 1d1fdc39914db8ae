-- ===== src/Http/Body/ReadLaws.antt =====
-- Reading a body to its end.
use compute_sdk_cpp.Prelude.{ℕ, zero, suc, ◌+◌, ◌<◌, ◌≡◌, refl, ◌∙◌, sym, ap, false}
use compute_sdk_cpp.Prelude.{[], ◌∷◌, ◌++◌, Bytes, length, length-append, All, arith}
use compute_sdk_cpp.Prelude.{append_assoc, append-nil}
use compute_sdk_cpp.Prelude.Effects.{ok}
use compute_sdk_cpp.Host.Bodies.{BodyHost}
use compute_sdk_cpp.Http.Body.Read.{Body, char_to_int, is_eof, drain, take_body_string}

-- A host whose reads give a body's content piece by piece, and nothing only at its end.
pub record IsReader {S Err : Type 0} (host : BodyHost S Err) : Type 0 where
  pub content : ℕ → S → Bytes
  pub chunk : ℕ → ℕ → S → Bytes
  pub after : ℕ → ℕ → S → S
  pub read_lem : (h n : ℕ) (s : S) → host.body_read h n s ≡ ok (chunk h n s) (after h n s)
  pub content-after : (h n : ℕ) (s : S) → content h s ≡ chunk h n s ++ content h (after h n s)
  pub chunk-nil : (h n : ℕ) (s : S) → chunk h (suc n) s ≡ [] → content h s ≡ []

-- Bytes other than 0xFF.
abbrev pub NoEof : Bytes → Type 0
NoEof = All (λ c. c < 255)

pub NoEof-append : (xs ys : Bytes) → NoEof (xs ++ ys) → NoEof xs × NoEof ys
NoEof-append [] ys h = (tt, h)
NoEof-append (x ∷ xs) ys h = let (a, b) = NoEof-append xs ys h.1 in ((h.0, a), b)

is_eof-char_to_int : (c : ℕ) → c < 255 → is_eof (char_to_int c) ≡ false
is_eof-char_to_int c h = ground arith

abbrev pub body : ℕ → Bytes → Bytes → Body
body h p unread = record { bod = h; pending = p; unread = unread }

module _ {S Err : Type 0} (host : BodyHost S Err) (R : IsReader host) where
  drain-chunk :
      {E : Type 0} (fuel h : ℕ) (p out : Bytes) (c : ℕ) (cs : Bytes) (s : S)
      → R.chunk h 512 s ≡ c ∷ cs
      → c < 255
      → drain host {E = E} (suc fuel) (body h p []) out s
        ≡ drain host fuel (body h p cs) (out ++ c ∷ []) (R.after h 512 s)
  unfolding drain
  drain-chunk fuel h p out c cs s k l = rw (R.read_lem h 512 s, k, is_eof-char_to_int c l) refl

  drain-end :
      {E : Type 0} (fuel h : ℕ) (p out : Bytes) (s : S)
      → R.chunk h 512 s ≡ []
      → drain host {E = E} (suc fuel) (body h p []) out s ≡ ok (out, body h p []) (R.after h 512 s)
  unfolding drain
  drain-end fuel h p out s k = rw (R.read_lem h 512 s, k) refl

module _ {S Err : Type 0} (host : BodyHost S Err) (R : IsReader host) (E : Type 0) where
  -- A run that ends with all of `rest` behind `out`, and nothing left to read.
  abbrev pub Drained : ℕ → ℕ → Bytes → Bytes → Bytes → Bytes → S → Type 0
  Drained fuel h p unread out rest s =
      (s' : S) × (drain host {E = E} fuel (body h p unread) out s
        ≡ ok (out ++ rest, body h p []) s')
      × (R.content h s' ≡ [])

  drain_first :
      (fuel h : ℕ) (p out : Bytes) (s : S) (k : Bytes)
      → R.chunk h 512 s ≡ k
      → length (R.content h s) < suc fuel
      → NoEof (R.content h s)
      → ((unread more : Bytes) (t : S)
          → length unread + length (R.content h t) < fuel
          → NoEof (unread ++ R.content h t)
          → Drained fuel h p unread more (unread ++ R.content h t) t)
      → Drained (suc fuel) h p [] out (R.content h s) s
  drain_first fuel h p out s [] e f t next =
      let none_left : R.content h s ≡ [] = R.chunk-nil h 511 s e in
      (
        R.after h 512 s,
        drain-end host R fuel h p out s e ∙ rw (none_left, append-nil) refl,
        sym (rw e at (R.content-after h 512 s)) ∙ none_left,
      )
  drain_first fuel h p out s (c ∷ cs) e f t next =
      let s1 = R.after h 512 s in
      let split : R.content h s ≡ c ∷ (cs ++ R.content h s1) = rw e at (R.content-after h 512 s) in
      let t1 : NoEof (c ∷ (cs ++ R.content h s1)) = rw split at t in
      let few : length cs + length (R.content h s1) < fuel =
        omega (arith, ap length split, length-append cs (R.content h s1)) in
      let (s', e', q) = next cs (out ++ c ∷ []) s1 few t1.1 in
      (s', drain-chunk host R fuel h p out c cs s e t1.0 ∙ (e' ∙ rw (split, append_assoc) refl), q)

  drain_lem :
      (fuel h : ℕ) (p unread out : Bytes) (s : S)
      → length unread + length (R.content h s) < fuel
      → NoEof (unread ++ R.content h s)
      → Drained fuel h p unread out (unread ++ R.content h s) s
  unfolding drain
  drain_lem zero h p unread out s f t = absurd (omega arith)
  drain_lem (suc fuel) h p (c ∷ cs) out s f t =
      let (s', e, q) = drain_lem fuel h p cs (out ++ c ∷ []) s (omega arith) t.1 in
      (s', e ∙ rw append_assoc refl, q)
  drain_lem (suc fuel) h p [] out s f t =
      drain_first fuel h p out s (R.chunk h 512 s) refl (omega arith) t (drain_lem fuel h p)

  -- On a host whose reads give the content of a body piece by piece, and nothing only at its end:
  -- with more rounds than there are bytes, `take_body_string` returns what was buffered and then
  -- all of the body, in order, and leaves nothing, however the host cuts its reads, if no byte is
  -- 0xFF.
  pub take_body_string_lem :
      (fuel : ℕ) (b : Body) (s : S)
      → length b.unread + length (R.content b.bod s) < fuel
      → NoEof (b.unread ++ R.content b.bod s)
      → (s' : S) × (take_body_string host {E = E} fuel b s
          ≡ ok (b.unread ++ R.content b.bod s, record b { unread = [] }) s')
        × (R.content b.bod s' ≡ [])
  unfolding take_body_string
  take_body_string_lem fuel b s f t = drain_lem fuel b.bod b.pending b.unread [] s f t

  drain_first_eof :
      (fuel h : ℕ) (p rest : Bytes) (s : S) (k : Bytes)
      → R.content h s ≡ 255 ∷ rest
      → R.chunk h 512 s ≡ k
      → drain host {E = E} (suc fuel) (body h p []) [] s ≡ ok ([], body h p k) (R.after h 512 s)
  unfolding drain
  drain_first_eof fuel h p rest s [] c e =
      let empty : [] ≡ 255 ∷ rest = sym (R.chunk-nil h 511 s e) ∙ c in cc
  drain_first_eof fuel h p rest s (k ∷ ks) c e =
      let split : 255 ∷ rest ≡ k ∷ (ks ++ R.content h (R.after h 512 s)) =
        rw (e, c) at (R.content-after h 512 s) in
      let first : k ≡ 255 = cc in rw (R.read_lem h 512 s, e, first) refl

  -- On a host whose reads give the content of a body piece by piece, and nothing only at its end,
  -- a body that has nothing buffered and whose next byte is 0xFF reads as empty, whatever follows,
  -- though a piece of it was read.
  pub take_body_string_eof :
      (fuel : ℕ) (h : ℕ) (p rest : Bytes) (s : S)
      → R.content h s ≡ 255 ∷ rest
      → take_body_string host {E = E} (suc fuel) (body h p []) s
        ≡ ok ([], body h p (R.chunk h 512 s)) (R.after h 512 s)
  unfolding take_body_string
  take_body_string_eof fuel h p rest s c = drain_first_eof fuel h p rest s (R.chunk h 512 s) c refl
