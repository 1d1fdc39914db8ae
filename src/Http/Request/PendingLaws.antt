-- ===== src/Http/Request/PendingLaws.antt =====
-- Polls and selections give what the crate gives.
use compute_sdk_cpp.Prelude.{
  ℕ, ◌≡◌, refl, ap, List, [], ◌∷◌, ◌++◌, map, some, inl, inr, append_assoc, append-nil,
}
use compute_sdk_cpp.Prelude.Effects.{Run, pure, ok, err, abort, and_then, ◌>>=◌}
use compute_sdk_cpp.Host.Calls.{Expected}
use compute_sdk_cpp.Host.Requests.{SendHost}
use compute_sdk_cpp.Http.Request.Pending.{
  PendingRequest, response_of_box, BoxPendingRequest, push_boxes, extract_all, extract_req,
  push_others, select, select_boxes, select_result, expected_response, reqs_of,
}
use compute_sdk_cpp.Http.Response.{Response}

abbrev pending_of : List ℕ → List PendingRequest
pending_of = map (λ h. record { req = h })

-- What a caller of `select` is told of an answer of the crate's `select`.
abbrev pub answer_of :
    {S Err E : Type 0}
    → Run S (Err × List ℕ) (ℕ × List ℕ)
    → Run S E (Expected Err Response × List PendingRequest)
answer_of (ok (h, left) s) = ok (inr (response_of_box h), pending_of left) s
answer_of (err (e, left) s) = ok (inl e, pending_of left) s
answer_of (abort s) = abort s

push_boxes_lem :
    (vec : List BoxPendingRequest) (hs : List ℕ) → push_boxes vec hs ≡ vec ++ map some hs
unfolding push_boxes
push_boxes_lem vec [] = rw append-nil refl
push_boxes_lem vec (h ∷ hs) = rw (push_boxes_lem (vec ++ some h ∷ []) hs, append_assoc) refl

extract_all-map :
    {S E : Type 0} (hs : List ℕ) (s : S) → extract_all {E = E} (map some hs) s ≡ ok hs s
unfolding extract_all extract_req
extract_all-map [] s = refl
extract_all-map (h ∷ hs) s =
    ap (λ run. and_then run (λ reqs. pure (h ∷ reqs))) (extract_all-map hs s)

module _ {S Err : Type 0} (host : SendHost S Err) (E : Type 0) where
  push_others_lem :
      (ret : List PendingRequest) (hs : List ℕ) (s : S)
      → push_others host {E = E} ret (map some hs) s ≡ ok (ret ++ pending_of hs) s
  unfolding push_others extract_req
  push_others_lem ret [] s = rw append-nil refl
  push_others_lem ret (h ∷ hs) s =
      rw (push_others_lem (ret ++ record { req = h } ∷ []) hs s, append_assoc) refl

  -- The loops on either side of the bridge, after the crate's answer.
  select_result_lem :
      (run : Run S (Err × List ℕ) (ℕ × List ℕ))
      → and_then (select_result host run) (λ answer.
        let (resp, others) = answer in
        push_others host {E = E} [] others >>= λ ret_others.
        pure (expected_response host resp, ret_others))
        ≡ answer_of run
  unfolding select_result expected_response
  select_result_lem (ok (h, xs) s) = rw (push_boxes_lem [] xs, push_others_lem [] xs s) refl
  select_result_lem (err (e, xs) s) = rw (push_boxes_lem [] xs, push_others_lem [] xs s) refl
  select_result_lem (abort s) = refl

  -- Whatever the crate's `select` answers to the requests, `select` returns its response or error
  -- and exactly the requests that it left, in its order: on the way through the bridge no request
  -- is lost, and no empty box is opened.
  pub select_lem :
      (reqs : List PendingRequest) (s : S)
      → select host {E = E} reqs s ≡ answer_of (host.pending_request_select (reqs_of reqs) s)
  unfolding select select_boxes
  select_lem reqs s =
      rw (push_boxes_lem [] (reqs_of reqs), extract_all-map (reqs_of reqs) s)
        (select_result_lem (host.pending_request_select (reqs_of reqs) s))
