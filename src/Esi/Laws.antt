-- ===== src/Esi/Laws.antt =====
-- Callbacks that go through the bridge and back.
use compute_sdk_cpp.Prelude.{ℕ, ◌≡◌, refl, Option, none, some}
use compute_sdk_cpp.Prelude.Effects.{Run, ok, err}
use compute_sdk_cpp.Esi.{
  PendingFragmentContent, pending_request, response, monostate, DispatchFn, ProcessFn,
  FragmentContent, EsiHost, dispatch_shim, dispatch_call, dispatch_outcome, dispatch_content,
  read_out, process_shim, process_call, process_outcome, process_answer,
}
use compute_sdk_cpp.Http.Request.{from_box}
use compute_sdk_cpp.Http.Request.Pending.{response_of_box}
use compute_sdk_cpp.Http.Response.{Response}

-- What a callback's result is for the crate: nothing is an error, and the boxes are the callback's.
abbrev pub content_of :
    {S : Type 0} → Option PendingFragmentContent × S → Run S (Unit {0}) FragmentContent
content_of (none, s) = err tt s
content_of (some (pending_request p), s) = ok (FragmentContent.pending p.req) s
content_of (some (response r), s) = ok (FragmentContent.completed r.res) s
content_of (some monostate, s) = ok FragmentContent.no_content s

abbrev pub answer_of : {S : Type 0} → Option Response × S → Run S (Unit {0}) ℕ
answer_of (none, s) = err tt s
answer_of (some r, s) = ok r.res s

module _ {S : Type 0} where
  content_of_outcome :
      (given : Option PendingFragmentContent × S)
      → let (result, out_pending, out_completed) = dispatch_outcome given.0 in
        dispatch_content result out_pending out_completed given.1 ≡ content_of given
  unfolding dispatch_outcome dispatch_content read_out
  content_of_outcome (none, s) = refl
  content_of_outcome (some (pending_request p), s) = refl
  content_of_outcome (some (response r), s) = refl
  content_of_outcome (some monostate, s) = refl

  -- A dispatch callback that the crate calls through the bridge, with a code and two out
  -- parameters, gives the crate exactly what it returned for the crate's request: the same pending
  -- request or response, no content, or an error; and no out parameter is read that was not written.
  pub dispatch_shim_lem :
      (fn : DispatchFn S) (req : ℕ) (s : S)
      → dispatch_shim fn req s ≡ content_of (fn (from_box req) s)
  unfolding dispatch_shim dispatch_call
  dispatch_shim_lem fn req s = content_of_outcome (fn (from_box req) s)

  answer_of_outcome :
      (given : Option Response × S)
      → let (result, out_resp) = process_outcome given.0 in
        process_answer result out_resp given.1 ≡ answer_of given
  unfolding process_outcome process_answer read_out
  answer_of_outcome (none, s) = refl
  answer_of_outcome (some r, s) = refl

  -- A process callback that the crate calls through the bridge works on a copy of the crate's
  -- request, and gives the crate the response that it returned, or an error if it returned none.
  pub process_shim_lem :
      {Err : Type 0} (host : EsiHost S Err) (fn : ProcessFn S) (req resp : ℕ) (s : S)
      → let (copy, s1) = host.request_clone_with_body req s in
        process_shim host fn req resp s ≡ answer_of (fn (from_box copy) (response_of_box resp) s1)
  unfolding process_shim process_call
  process_shim_lem host fn req resp s =
      let (copy, s1) = host.request_clone_with_body req s in
      answer_of_outcome (fn (from_box copy) (response_of_box resp) s1)
