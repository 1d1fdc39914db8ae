-- ===== src/Http/Request/Sending.antt =====
-- src/cpp/http/request.cpp: sending a request to a backend, given as a backend or by its name.
use compute_sdk_cpp.Prelude.{ℕ, Option, some, [], Bytes}
use compute_sdk_cpp.Prelude.Effects.{M, pure, ◌>>=◌}
use compute_sdk_cpp.Backend.{Backend, from_name}
use compute_sdk_cpp.Host.Backends.{BackendHost}
use compute_sdk_cpp.Host.Requests.{SendHost}
use compute_sdk_cpp.Http.Request.{Request}
use compute_sdk_cpp.Http.Request.Pending.{PendingRequest, response_of_box, extract_req}
use compute_sdk_cpp.Http.Response.{Response}
use compute_sdk_cpp.Http.StreamingBody.{StreamingBody}

-- `AsyncStreamRes` of src/http/request.rs, whose boxes are taken once.
pub record AsyncStreamRes : Type 0 where
  pub body : Option ℕ
  pub pending : Option ℕ

module _ {S Err : Type 0} (host : SendHost S Err) (backends : BackendHost S Err) where
  unfoldable pub send : Request → Backend → M S Err Response
  send r backend = do h ← host.request_send r.req backend.backend; pure (response_of_box h)

  unfoldable pub send_named : Request → Bytes → M S Err Response
  unfolding send
  send_named r name = do backend ← from_name backends name; send r backend

  unfoldable pub send_async : Request → Backend → M S Err PendingRequest
  send_async r backend = do
    h ← host.request_send_async r.req backend.backend
    pure (record { req = h })

  unfoldable pub send_async_named : Request → Bytes → M S Err PendingRequest
  unfolding send_async
  send_async_named r name = do backend ← from_name backends name; send_async r backend

  -- `m_http_request_send_async_streaming`
  unfoldable pub async_stream : Request → Backend → M S Err AsyncStreamRes
  async_stream r backend = do
    (body, pending) ← host.request_send_async_streaming r.req backend.backend
    pure (record { body = some body; pending = some pending })

  unfoldable pub send_async_streaming : Request → Backend → M S Err (StreamingBody × PendingRequest)
  unfolding async_stream extract_req
  send_async_streaming r backend = do
    res ← async_stream r backend
    body ← extract_req res.body
    pending ← extract_req res.pending
    pure (record { bod = body; pending = [] }, record { req = pending })

  unfoldable pub send_async_streaming_named :
      Request → Bytes → M S Err (StreamingBody × PendingRequest)
  unfolding send_async_streaming
  send_async_streaming_named r name = do
    backend ← from_name backends name
    send_async_streaming r backend
