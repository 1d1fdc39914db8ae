-- ===== src/Http/Body/TextLaws.antt =====
-- A text that goes into a body by its constructor and comes out by a read of the whole body.
use compute_sdk_cpp.Prelude.{ℕ, ◌<◌, ◌≡◌, refl, ◌∙◌, sym, arith, true, [], Bytes, length}
use compute_sdk_cpp.Prelude.Effects.{ok}
use compute_sdk_cpp.Host.Bodies.{BodyHost}
use compute_sdk_cpp.Http.Buffer
use compute_sdk_cpp.Http.Buffer.Laws.{IsWriter}
use compute_sdk_cpp.Http.Body.Read.{from_handle, take_body_string}
use compute_sdk_cpp.Http.Body.ReadLaws.{IsReader, NoEof, take_body_string_lem}
use compute_sdk_cpp.Http.Body.Write.{from_string, sync}
use compute_sdk_cpp.Http.Body.WriteLaws.{from_string-sent}

-- A host whose bodies read as what was written to them, and are empty when they are made.
pub record IsTextHost {S Err : Type 0} (host : BodyHost S Err) : Type 0 where
  pub reads : IsReader host
  pub writes : (h : ℕ) → IsWriter (host.body_write h)
  pub sent_content : (h : ℕ) (s : S) → (writes h).sent s ≡ reads.content h s
  pub content-new : (s : S) → reads.content (host.body_new s).0 (host.body_new s).1 ≡ []

module _ {S Err : Type 0} (host : BodyHost S Err) (T : IsTextHost host) (E : Type 0) where
  -- `Body(text)` holds the text and has nothing pending.
  pub from_string-content :
      (text : Bytes) (s : S)
      → let h = (host.body_new s).0 in
        (s' : S) × (from_string host {E = E} text s ≡ ok (from_handle h) s')
        × (T.reads.content h s' ≡ text)
  from_string-content text s =
      let (h, s1) = host.body_new s in
      let (s', e, q) = from_string-sent host E text s (T.writes h) in
      (s', e, sym (T.sent_content h s') ∙ (q ∙ rw (T.sent_content h s1, T.content-new s) refl))

  -- Flushing a body that has nothing pending has no effect.
  pub sync_clean :
      (h : ℕ) (s : S) → sync host {E = E} (from_handle h) s ≡ ok (true, from_handle h) s
  unfolding sync Buffer.write_loop
  sync_clean h s = refl

  -- Reading a whole body gives its content.
  pub take_body_string-content :
      (fuel h : ℕ) (text : Bytes) (s : S)
      → T.reads.content h s ≡ text
      → length text < fuel
      → NoEof text
      → (s' : S) × (take_body_string host {E = E} fuel (from_handle h) s
          ≡ ok (text, from_handle h) s')
  take_body_string-content fuel h text s e few bytes =
      let (s', q, _) =
        take_body_string_lem host T.reads E fuel (from_handle h) s (rw e (omega arith))
          (rw e bytes) in
      (s', q ∙ rw e refl)
