-- ===== src/Http/StreamingBody/Laws.antt =====
-- Finishing a streaming body.
use compute_sdk_cpp.Prelude.{◌≡◌, refl, none, ◌++◌}
use compute_sdk_cpp.Host.Bodies.{BodyHost}
use compute_sdk_cpp.Http.Buffer.Laws.{IsWriter, overflow_sent}
use compute_sdk_cpp.Http.StreamingBody.{StreamingBody, finish}

-- On a host that takes at least one byte of each write and keeps what it takes in order, `finish`
-- ends in the host's `finish` of the body, in a state where the body holds what it held and then
-- all that was pending, and returns what the host returns.
pub finish-flushes :
    {S Err : Type 0} (host : BodyHost S Err) (b : StreamingBody)
    (W : IsWriter (host.streaming_body_write b.bod)) (s : S)
    → (s1 : S) × (finish host b s ≡ host.streaming_body_finish b.bod s1)
      × (W.sent s1 ≡ W.sent s ++ b.pending)
unfolding finish
finish-flushes {Err} host b W s =
    let (s1, e, q) = overflow_sent (host.streaming_body_write b.bod) W {E = Err} none b.pending s in
    (s1, rw e refl, q)
