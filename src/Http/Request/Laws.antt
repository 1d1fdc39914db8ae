-- ===== src/Http/Request/Laws.antt =====
-- Bodies of requests, and the uninitialised `err`.
use compute_sdk_cpp.Prelude.{ℕ, [], ◌<◌, ◌≡◌, refl, ◌∙◌, Bytes, length, Option}
use compute_sdk_cpp.Prelude.Effects.{M, Run, pure, ok, err, abort, and_then, ◌>>=◌}
use compute_sdk_cpp.Host.Bodies.{BodyHost}
use compute_sdk_cpp.Host.Calls.{try_fe, test_err}
use compute_sdk_cpp.Host.Requests.{RequestMakerHost}
use compute_sdk_cpp.Http.Body
use compute_sdk_cpp.Http.Body.{Body}
use compute_sdk_cpp.Http.Body.ReadLaws.{NoEof}
use compute_sdk_cpp.Http.Body.TextLaws.{
  IsTextHost, from_string-content, sync_clean, take_body_string-content,
}
use compute_sdk_cpp.Http.Body.WriteLaws.{move_clean}
use compute_sdk_cpp.Http.Request.{
  Request, from_box, with_body, set_body, into_body, into_body_string, create,
}

-- A run that gives a box, as one that gives the request.
abbrev pub wrapped : {S Err : Type 0} → Run S Err ℕ → Run S Err Request
wrapped (ok box s) = ok (record { req = box }) s
wrapped (err e s) = err e s
wrapped (abort s) = abort s

-- The program `r.with_body(Body(text)).into_body_string()`.
unfoldable pub text_through :
    {S Err E : Type 0} → RequestMakerHost S Err → BodyHost S Err → ℕ → Bytes → Request → M S E Bytes
text_through host bodies fuel text r = do
  body ← Body.from_string bodies text
  r1 ← with_body host bodies body r
  into_body_string host bodies fuel r1

module _ {S Err : Type 0} (host : RequestMakerHost S Err) where
  module _ (bodies : BodyHost S Err) (T : IsTextHost bodies) (E : Type 0) where
    -- A host whose requests give back the body that was set last.
    pub record KeepsBody : Type 0 where
      pub content-into_body :
          (r h : ℕ) (s : S)
          → let (h1, s1) = host.into_body r (host.set_body r h s) in
            T.reads.content h1 s1 ≡ T.reads.content h s

    -- On a host whose bodies read as what was written to them, and whose requests give back the
    -- body that was set: a text without the byte 0xFF that is put into a request with
    -- `with_body(Body(text))` comes out of `into_body_string` unchanged, with more rounds than it
    -- has bytes.
    pub with_body-into_body_string :
        (K : KeepsBody) (fuel : ℕ) (text : Bytes) (r : Request) (s : S)
        → length text < fuel
        → NoEof text
        → (s' : S) × (text_through {E = E} host bodies fuel text r s ≡ ok text s')
    unfolding text_through with_body set_body into_body_string into_body
    with_body-into_body_string K fuel text r s few bytes =
        let h = (bodies.body_new s).0 in
        let (s1, e1, q1) = from_string-content bodies T E text s in
        let (h2, s2) = host.into_body r.req (host.set_body r.req h s1) in
        let (s3, e3) =
          take_body_string-content bodies T E fuel h2 text s2 (K.content-into_body r.req h s1 ∙ q1)
            few bytes in
        (
          bodies.body_drop h2 s3,
          rw (e1, move_clean bodies E h [] s1, sync_clean bodies T E h s1, e3) refl,
        )

  -- `Request::create` makes the request that the crate makes, and returns the error that the crate
  -- returns, whatever the pointer `err`, which nothing initialises, held before the call.
  pub create_lem :
      (stale : Option Err) (method url : Bytes) (s : S)
      → create host stale method url s ≡ wrapped (host.request_new_str method url s)
  unfolding create
  create_lem stale method url s = go (host.request_new_str method url s)
    where
      go :
          (run : Run S Err ℕ)
          → and_then (try_fe stale run) (λ answer. test_err answer >>= λ box. pure (from_box box))
            ≡ wrapped run
      go (ok box s1) = refl
      go (err e s1) = refl
      go (abort s1) = refl
