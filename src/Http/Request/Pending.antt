-- ===== src/Http/Request/Pending.antt =====
-- `PendingRequest` of src/cpp/http/request.cpp: polling, waiting and `select`; with the Rust side of the
-- bridge in src/http/request.rs, whose matches and `expect`s panic on what they do not expect.
use compute_sdk_cpp.Prelude.{
  ℕ, Bool, true, false, List, [], ◌∷◌, ◌++◌, Option, none, some, inl, inr,
}
use compute_sdk_cpp.Prelude.Effects.{M, Run, pure, ok, err, abort, abort_process, ◌>>=◌}
use compute_sdk_cpp.Host.Calls.{read, Expected}
use compute_sdk_cpp.Host.Requests.{SendHost}
use compute_sdk_cpp.Http.Request.{Request, from_box}
use compute_sdk_cpp.Http.Response.{Response}

pub record PendingRequest : Type 0 where
  pub req : ℕ

-- `PollResult` of the bridge
pub data PollResult (Err : Type 0) : Type 0 where
  pending : ℕ → PollResult Err
  response : ℕ → PollResult Err
  error : Err → PollResult Err

-- `std::variant<PendingRequest, fastly::expected<Response>>`
pub data Polled (Err : Type 0) : Type 0 where
  again : PendingRequest → Polled Err
  ready : Expected Err Response → Polled Err

abbrev pub response_of_box : ℕ → Response
response_of_box box = record { res = box }

unfoldable pub is_response : {Err : Type 0} → PollResult Err → Bool
is_response (response _) = true
is_response (pending _) = false
is_response (error _) = false

unfoldable pub is_pending : {Err : Type 0} → PollResult Err → Bool
is_pending (pending _) = true
is_pending (response _) = false
is_pending (error _) = false

module _ {S Err : Type 0} where
  unfoldable pub into_pending : {E : Type 0} → PollResult Err → M S E ℕ
  into_pending (pending h) = pure h
  into_pending (response _) = abort_process
  into_pending (error _) = abort_process

  unfoldable pub into_response : {E : Type 0} → PollResult Err → M S E ℕ
  into_response (response h) = pure h
  into_response (pending _) = abort_process
  into_response (error _) = abort_process

  unfoldable pub into_error : {E : Type 0} → PollResult Err → M S E Err
  into_error (error e) = pure e
  into_error (pending _) = abort_process
  into_error (response _) = abort_process

  -- `m_http_request_pending_request_poll`, of what the crate says: done, or an error, or pending.
  unfoldable pub poll_result : {E : Type 0} → Run S Err (Bool × ℕ) → Run S E (PollResult Err)
  poll_result (ok (true, h) s) = ok (response h) s
  poll_result (ok (false, h) s) = ok (pending h) s
  poll_result (err e s) = ok (error e) s
  poll_result (abort s) = abort s

-- `BoxPendingRequest`, and its `extract_req`, which panics if there is nothing in the box.
abbrev pub BoxPendingRequest : Type 0
BoxPendingRequest = Option ℕ

module _ {S : Type 0} where
  unfoldable pub extract_req : {E : Type 0} → BoxPendingRequest → M S E ℕ
  extract_req none = abort_process
  extract_req (some h) = pure h

  unfoldable pub extract_all : {E : Type 0} → List BoxPendingRequest → M S E (List ℕ)
  unfolding extract_req
  extract_all [] = pure []
  extract_all (box ∷ boxes) = do h ← extract_req box; hs ← extract_all boxes; pure (h ∷ hs)

-- The loop that fills `vecreqs`, and the loop of the bridge that fills `others`.
unfoldable pub push_boxes : List BoxPendingRequest → List ℕ → List BoxPendingRequest
push_boxes vec [] = vec
push_boxes vec (h ∷ hs) = push_boxes (vec ++ some h ∷ []) hs

abbrev pub reqs_of : List PendingRequest → List ℕ
reqs_of [] = []
reqs_of (p ∷ ps) = p.req ∷ reqs_of ps

module _ {S Err : Type 0} (host : SendHost S Err) where
  -- `PendingRequest::poll`, of a poll result.
  unfoldable pub poll_branch : {E : Type 0} → PollResult Err → M S E (Polled Err)
  unfolding is_response is_pending into_response into_pending into_error
  poll_branch result = elim (is_response result) [
    | true ↦ (do h ← into_response result; pure (ready (inr (response_of_box h))))
    | false ↦ elim (is_pending result) [
      | true ↦ (do h ← into_pending result; pure (again (record { req = h })))
      | false ↦ (do e ← into_error result; pure (ready (inl e)))
    ]
  ]

  unfoldable pub poll : {E : Type 0} → PendingRequest → M S E (Polled Err)
  unfolding poll_result poll_branch
  poll p = do result ← λ s. poll_result (host.pending_request_poll p.req s); poll_branch result

  unfoldable pub wait : PendingRequest → M S Err Response
  wait p = do h ← host.pending_request_wait p.req; pure (response_of_box h)

  unfoldable pub cloned_sent_req : {E : Type 0} → PendingRequest → M S E Request
  cloned_sent_req p = do box ← read (host.cloned_sent_req p.req); pure (from_box box)

  -- `f_http_request_select`, of what the crate says.
  unfoldable pub select_result :
      {E : Type 0}
      → Run S (Err × List ℕ) (ℕ × List ℕ)
      → Run S E (Expected Err ℕ × List BoxPendingRequest)
  unfolding push_boxes
  select_result (ok (h, xs) s) = ok (inr h, push_boxes [] xs) s
  select_result (err (e, xs) s) = ok (inl e, push_boxes [] xs) s
  select_result (abort s) = abort s

  unfoldable pub select_boxes :
      {E : Type 0} → List BoxPendingRequest → M S E (Expected Err ℕ × List BoxPendingRequest)
  unfolding extract_all select_result
  select_boxes vecreqs = do
    reqs ← extract_all vecreqs
    λ s. select_result (host.pending_request_select reqs s)

  -- The loop that fills `ret_others`.
  unfoldable pub push_others :
      {E : Type 0} → List PendingRequest → List BoxPendingRequest → M S E (List PendingRequest)
  unfolding extract_req
  push_others ret [] = pure ret
  push_others ret (box ∷ boxes) = do
    h ← extract_req box
    push_others (ret ++ record { req = h } ∷ []) boxes

  unfoldable pub expected_response : Expected Err ℕ → Expected Err Response
  expected_response (inl e) = inl e
  expected_response (inr h) = inr (response_of_box h)

  unfoldable pub select :
      {E : Type 0} → List PendingRequest → M S E (Expected Err Response × List PendingRequest)
  unfolding push_boxes select_boxes push_others expected_response
  select reqs = do
    (resp, others) ← select_boxes (push_boxes [] (reqs_of reqs))
    ret_others ← push_others [] others
    pure (expected_response resp, ret_others)
