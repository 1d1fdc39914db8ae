-- ===== src/Http/Request/PollLaws.antt =====
-- A request that is polled again and again.
use compute_sdk_cpp.Prelude.{ℕ, zero, suc, ◌<◌, ◌≤◌, ◌≡◌, refl, Bool, true, false, inl, inr, arith}
use compute_sdk_cpp.Prelude.Effects.{Run, ok, err, abort}
use compute_sdk_cpp.Host.Calls.{Expected}
use compute_sdk_cpp.Host.Requests.{SendHost}
use compute_sdk_cpp.Http.Request.Pending.{
  PendingRequest, again, ready, response_of_box, poll, poll_branch, poll_result,
}
use compute_sdk_cpp.Http.Response.{Response}

module _ {S Err : Type 0} (left : ℕ → S → ℕ) where
  -- An answer to a poll of a request that has at most `n` more polls to wait.
  pub data Answers (n : ℕ) : Run S Err (Bool × ℕ) → Type 0 where
    done : {h : ℕ} {s : S} → Answers n (ok (true, h) s)
    failed : {e : Err} {s : S} → Answers n (err e s)
    waiting : {h : ℕ} {s : S} → left h s < n → Answers n (ok (false, h) s)

-- A host that answers every poll, and brings a request that is still pending closer to its end.
pub record Progresses {S Err : Type 0} (host : SendHost S Err) : Type 0 where
  pub left : ℕ → S → ℕ
  pub answers : (h : ℕ) (s : S) → Answers left (left h s) (host.pending_request_poll h s)

module _ {S Err : Type 0} (host : SendHost S Err) (E : Type 0) where
  -- A run of polls: each but the last finds the request pending, and the last one gives the result.
  pub data Polls : PendingRequest → S → ℕ → Expected Err Response → S → Type 0 where
    last :
        {p : PendingRequest} {s : S} {r : Expected Err Response} {s' : S}
        → poll host {E = E} p s ≡ ok (ready r) s'
        → Polls p s 0 r s'
    once_more :
        {p p1 : PendingRequest} {s s1 : S} {n : ℕ} {r : Expected Err Response} {s' : S}
        → poll host {E = E} p s ≡ ok (again p1) s1
        → Polls p1 s1 n r s'
        → Polls p s (suc n) r s'

  -- Some run of at most `n` polls before the last one.
  abbrev pub Ends : PendingRequest → S → ℕ → Type 0
  Ends p s n = (m : ℕ) × (r : Expected Err Response) × (s' : S) × (m ≤ n) × Polls p s m r s'

  module _ (G : Progresses host) where
    poll_answer :
        (n : ℕ) (p : PendingRequest) (s : S) (run : Run S Err (Bool × ℕ))
        → host.pending_request_poll p.req s ≡ run
        → Answers G.left n run
        → ((p1 : PendingRequest) (s1 : S) → G.left p1.req s1 < n → Ends p1 s1 (G.left p1.req s1))
        → Ends p s n
    unfolding poll poll_result poll_branch
    poll_answer n p s (ok (true, h) s1) e done rest =
        (0, inr (response_of_box h), s1, omega arith, last (rw e refl))
    poll_answer n p s (err x s1) e failed rest = (0, inl x, s1, omega arith, last (rw e refl))
    poll_answer n p s (ok (false, h) s1) e (waiting less) rest =
        let (m, r, s', few, polls) = rest (record { req = h }) s1 less in
        (suc m, r, s', omega arith, once_more (rw e refl) polls)
    poll_answer n p s (abort _) e given rest = elim given [ ]

    poll_within :
        (n : ℕ) (p : PendingRequest) (s : S) → G.left p.req s ≤ n → Ends p s (G.left p.req s)
    poll_within zero p s h =
        poll_answer (G.left p.req s) p s (host.pending_request_poll p.req s) refl
          (G.answers p.req s) (λ p1 s1 less. absurd (omega arith))
    poll_within (suc n) p s h =
        poll_answer (G.left p.req s) p s (host.pending_request_poll p.req s) refl
          (G.answers p.req s) (λ p1 s1 less. poll_within n p1 s1 (omega arith))

    -- On a host that answers every poll and brings a request that is still pending closer to its
    -- end, polling any request again and again comes to a response or an error, after at most as
    -- many pending answers as the host has left for it.
    pub poll-Ends : (p : PendingRequest) (s : S) → Ends p s (G.left p.req s)
    poll-Ends p s = poll_within (G.left p.req s) p s (omega arith)
