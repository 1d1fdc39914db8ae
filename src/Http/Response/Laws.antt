-- ===== src/Http/Response/Laws.antt =====
-- What becomes of the bodies and texts that a response is given.
use compute_sdk_cpp.Prelude.{ℕ, ◌<◌, ◌≡◌, ◌↔◌, refl, ◌∙◌, [], ◌++◌, none, Bytes, length, arith}
use compute_sdk_cpp.Prelude.Effects.{Run, ok, err, abort}
use compute_sdk_cpp.Host.Bodies.{BodyHost}
use compute_sdk_cpp.Host.Responses.{ResponseHost}
use compute_sdk_cpp.Http.Body.{Body, sync}
use compute_sdk_cpp.Http.Buffer
use compute_sdk_cpp.Http.Buffer.Laws.{IsWriter}
use compute_sdk_cpp.Http.Body.ReadLaws.{IsReader, NoEof, take_body_string_lem}
use compute_sdk_cpp.Http.Body.WriteLaws.{move-flushes}
use compute_sdk_cpp.Http.Response.{
  Response, with_body, set_body, into_body_string, with_body_text_html, set_body_text_html,
}

module _ {S Err : Type 0} (host : ResponseHost S Err) (bodies : BodyHost S Err) where
  -- On a host that takes at least one byte of each write and keeps what it takes in order,
  -- `with_body` gives the response a body in which all that was pending stands behind what the body
  -- held.
  pub with_body-flushes :
      (E : Type 0) (b : Body) (W : IsWriter (bodies.body_write b.bod)) (r : Response) (s : S)
      → (s1 : S) × (with_body host bodies {E = E} b r s ≡ ok r (host.set_body r.res b.bod s1))
        × (W.sent s1 ≡ W.sent s ++ b.pending)
  unfolding with_body set_body sync Buffer.write_loop
  with_body-flushes E b W r s = let (s1, e, q) = move-flushes bodies E b W s in (s1, rw e refl, q)

  -- On a host whose reads give the content of a body piece by piece, and nothing only at its end:
  -- `into_body_string` gives the whole content of the body that the response had, with more rounds
  -- than it has bytes, if no byte is 0xFF.
  pub into_body_string_lem :
      (R : IsReader bodies) (E : Type 0) (fuel : ℕ) (r : Response) (s : S)
      → let (h, s1) = host.into_body r.res s in
        length (R.content h s1) < fuel
        → NoEof (R.content h s1)
        → (s' : S) × (into_body_string host bodies {E = E} fuel r s ≡ ok (R.content h s1) s')
  unfolding into_body_string
  into_body_string_lem R E fuel r s few bytes =
      let (h, s1) = host.into_body r.res s in
      let (s2, e, q) =
        take_body_string_lem bodies R E fuel (record { bod = h; pending = []; unread = [] }) s1
          (omega arith) bytes in
      (bodies.body_drop h s2, rw e refl)

  -- `with_body_text_html` succeeds exactly if the bridge reports an error.
  pub with_body_text_html_iff :
      (text : Bytes) (r : Response) (s s1 : S)
      → (with_body_text_html host bodies text r s ≡ ok r s1)
        ↔ ((e : Err) × (host.set_body_text_html r.res text s ≡ err e s1))
  unfolding with_body_text_html set_body_text_html
  with_body_text_html_iff text r s s1 = go (host.set_body_text_html r.res text s) refl
    where
      go :
          (run : Run S Err (Unit {0}))
          → host.set_body_text_html r.res text s ≡ run
          → (with_body_text_html host bodies text r s ≡ ok r s1)
            ↔ ((e : Err) × (host.set_body_text_html r.res text s ≡ err e s1))
      go (ok x s2) e = (
        λ h. let k : err none s2 ≡ ok r s1 = rw e at h in ground arith,
        λ h. let k : ok x s2 ≡ err h.0 s1 = rw e at h.1 in ground arith,
      )
      go (err x s2) e = (
        λ h. let k : ok r s2 ≡ ok r s1 = rw e at h in (x, e ∙ ground arith),
        λ h. let k : err x s2 ≡ err h.0 s1 = rw e at h.1 in rw e (ground arith),
      )
      go (abort s2) e = (
        λ h. let k : abort s2 ≡ ok r s1 = rw e at h in ground arith,
        λ h. let k : abort s2 ≡ err h.0 s1 = rw e at h.1 in ground arith,
      )
