-- ===== src/Esi.antt =====
-- ESI, of include/fastly/esi.h and src/cpp/esi.cpp, with the shims of src/esi.rs through which the crate
-- calls the C++ callbacks. A callback is a program; a pointer that is null is `none`.
pub mod Laws
use compute_sdk_cpp.Prelude.{ℕ, Bool, true, false, Option, none, some, [], ◌∷◌, Bytes}
use compute_sdk_cpp.Prelude.Effects.{M, Run, ok, err, abort, pure, throw, abort_process, ◌>>=◌}
use compute_sdk_cpp.Host.Calls.{read}
use compute_sdk_cpp.Http.Request.{Request, from_box}
use compute_sdk_cpp.Http.Request.Pending.{PendingRequest, response_of_box}
use compute_sdk_cpp.Http.Response.{Response}

pub record Configuration : Type 0 where
  pub namespace : Bytes
  pub is_escaped_content : Bool

-- `Configuration()`
unfoldable pub default_configuration : Configuration
default_configuration = record { namespace = b'e' ∷ b's' ∷ b'i' ∷ []; is_escaped_content = true }

-- `std::variant<PendingRequest, Response, std::monostate>`
pub data PendingFragmentContent : Type 0 where
  pending_request : PendingRequest → PendingFragmentContent
  response : Response → PendingFragmentContent
  monostate : PendingFragmentContent

-- `DispatchFragmentRequestFnResult` of src/lib.rs
pub data DispatchResult : Type 0 where
  error : DispatchResult
  pending : DispatchResult
  completed : DispatchResult
  no_content : DispatchResult

-- `PendingFragmentContent` of the esi crate
pub data FragmentContent : Type 0 where
  pending : ℕ → FragmentContent
  completed : ℕ → FragmentContent
  no_content : FragmentContent

-- The callbacks' types in C++, and in the crate, whose errors say no more than which callback failed.
abbrev pub DispatchFn : Type 0 → Type 0
DispatchFn S = Request → S → Option PendingFragmentContent × S

abbrev pub ProcessFn : Type 0 → Type 0
ProcessFn S = Request → Response → S → Option Response × S

abbrev pub CrateDispatch : Type 0 → Type 0
CrateDispatch S = ℕ → M S (Unit {0}) FragmentContent

abbrev pub CrateProcess : Type 0 → Type 0
CrateProcess S = ℕ → ℕ → M S (Unit {0}) ℕ

-- What the crate does, and the clone that a shim hands to a callback.
pub record EsiHost (S Err : Type 0) : Type 0 where
  pub request_clone_with_body : ℕ → S → ℕ × S
  pub processor_new : Option ℕ → Bytes → Bool → S → ℕ × S
  pub process_response :
      ℕ → ℕ → Option ℕ → Option (CrateDispatch S) → Option (CrateProcess S) → M S Err (Unit {0})
  pub process_document :
      ℕ → Bytes → Option (CrateDispatch S) → Option (CrateProcess S) → M S Err Bytes

-- The result of `DispatchFragmentRequestFn$call`, `out_pending` and `out_complete`.
unfoldable pub dispatch_outcome :
    Option PendingFragmentContent → DispatchResult × Option ℕ × Option ℕ
dispatch_outcome none = (DispatchResult.error, none, none)
dispatch_outcome (some (pending_request p)) = (DispatchResult.pending, some p.req, none)
dispatch_outcome (some (response r)) = (DispatchResult.completed, none, some r.res)
dispatch_outcome (some monostate) = (DispatchResult.no_content, none, none)

-- `out.read()`, which is undefined on a null pointer, and aborts here.
unfoldable pub read_out : {S E : Type 0} → Option ℕ → M S E ℕ
read_out none = abort_process
read_out (some box) = pure box

-- The match of the shim.
unfoldable pub dispatch_content :
    {S : Type 0} → DispatchResult → Option ℕ → Option ℕ → M S (Unit {0}) FragmentContent
unfolding read_out
dispatch_content DispatchResult.error out_pending out_completed = throw tt
dispatch_content DispatchResult.pending out_pending out_completed = do
  box ← read_out out_pending
  pure (FragmentContent.pending box)
dispatch_content DispatchResult.completed out_pending out_completed = do
  box ← read_out out_completed
  pure (FragmentContent.completed box)
dispatch_content DispatchResult.no_content out_pending out_completed =
    pure FragmentContent.no_content

-- The result of `ProcessFragmentResponseFn$call`, and `out_resp`.
unfoldable pub process_outcome : Option Response → Bool × Option ℕ
process_outcome (some r) = (true, some r.res)
process_outcome none = (false, none)

module _ {S : Type 0} where
  -- `DispatchFragmentRequestFn$call`
  unfoldable pub dispatch_call : DispatchFn S → ℕ → S → (DispatchResult × Option ℕ × Option ℕ) × S
  unfolding dispatch_outcome
  dispatch_call fn raw_req s = let (res, s1) = fn (from_box raw_req) s in (dispatch_outcome res, s1)

  -- The closure that `shim_dispatch_fragment_request_fn` makes.
  unfoldable pub dispatch_shim : DispatchFn S → CrateDispatch S
  unfolding dispatch_call dispatch_content
  dispatch_shim fn req = do
    (result, out_pending, out_completed) ← read (dispatch_call fn req)
    dispatch_content result out_pending out_completed

  -- `shim_dispatch_fragment_request_fn`
  unfoldable pub shim_dispatch : Option (DispatchFn S) → Option (CrateDispatch S)
  unfolding dispatch_shim
  shim_dispatch none = none
  shim_dispatch (some fn) = some (dispatch_shim fn)

  -- `ProcessFragmentResponseFn$call`
  unfoldable pub process_call : ProcessFn S → ℕ → ℕ → S → (Bool × Option ℕ) × S
  unfolding process_outcome
  process_call fn raw_req raw_resp s =
      let (res, s1) = fn (from_box raw_req) (response_of_box raw_resp) s in
      (process_outcome res, s1)

  unfoldable pub process_answer : Bool → Option ℕ → M S (Unit {0}) ℕ
  unfolding read_out
  process_answer true out_resp = read_out out_resp
  process_answer false out_resp = throw tt

-- What a bridge function that returns whether it succeeded tells: `true` and the out parameter, or
-- `false` and `err`.
unfoldable pub success_of :
    {S E Err A : Type 0} → Run S Err A → Run S E (Bool × Option A × Option Err)
success_of (ok a s) = ok (true, some a, none) s
success_of (err e s) = ok (false, none, some e) s
success_of (abort s) = abort s

-- `if (success) { return out; } else { return tl::unexpected(error::FastlyError(err)); }`
unfoldable pub test_success : {S Err A : Type 0} → Bool → Option A → Option Err → M S Err A
test_success true (some a) e = pure a
test_success true none e = abort_process
test_success false out (some e) = throw e
test_success false out none = abort_process

pub record Processor : Type 0 where
  pub processor : ℕ

module _ {S Err : Type 0} (host : EsiHost S Err) where
  -- The closure that `shim_process_fragment_response_fn` makes.
  unfoldable pub process_shim : ProcessFn S → CrateProcess S
  unfolding process_call process_answer
  process_shim fn req resp = do
    copy ← read (host.request_clone_with_body req)
    (result, out_resp) ← read (process_call fn copy resp)
    process_answer result out_resp

  -- `shim_process_fragment_response_fn`
  unfoldable pub shim_process : Option (ProcessFn S) → Option (CrateProcess S)
  unfolding process_shim
  shim_process none = none
  shim_process (some fn) = some (process_shim fn)

  unfoldable pub raw_request : Option Request → Option ℕ
  raw_request none = none
  raw_request (some r) = some r.req

  unfoldable pub raw_response : Option Response → Option ℕ
  raw_response none = none
  raw_response (some r) = some r.res

  -- `Processor::Processor`
  unfoldable pub new_processor : {E : Type 0} → Option Request → Configuration → M S E Processor
  unfolding raw_request
  new_processor metadata config = do
    box ←
        read (host.processor_new (raw_request metadata) config.namespace config.is_escaped_content)
    pure (record { processor = box })

  unfoldable pub process_response :
      Processor
      → Response
      → Option Response
      → Option (DispatchFn S)
      → Option (ProcessFn S)
      → M S Err (Unit {0})
  unfolding raw_response shim_dispatch shim_process success_of test_success
  process_response p src_document metadata dispatch process = do
    (success, out, e) ← λ s. success_of (
        host.process_response p.processor src_document.res (raw_response metadata)
          (shim_dispatch dispatch) (shim_process process) s)
    test_success success out e

  unfoldable pub process_document :
      Processor → Bytes → Option (DispatchFn S) → Option (ProcessFn S) → M S Err Bytes
  unfolding shim_dispatch shim_process success_of test_success
  process_document p src_document dispatch process = do
    (success, out, e) ← λ s. success_of (
        host.process_document p.processor src_document (shim_dispatch dispatch)
          (shim_process process) s)
    test_success success out e
