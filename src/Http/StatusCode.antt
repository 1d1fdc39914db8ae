-- ===== src/Http/StatusCode.antt =====
-- `StatusCode` of include/fastly/http/status_code.h and src/cpp/http/status_code.cpp. A `uint16_t`
-- is a number. The names are those of the source in small letters.
pub mod Laws
use compute_sdk_cpp.Prelude.{
  ℕ, Bool, Bytes, not, ◌==◌, ◌&&◌, Option, none, some, List, [], ◌∷◌, ltb, leb,
}
use compute_sdk_cpp.Prelude.{◌||◌, if◌then◌else◌}
use compute_sdk_cpp.Prelude.Effects.{M, pure, abort_process, ◌>>=◌}

pub record StatusCode : Type 0 where
  pub value : ℕ

abbrev status_code : ℕ → StatusCode
status_code n = record { value = n }

abbrev pub continue : StatusCode
continue = status_code 100

abbrev pub switching_protocols : StatusCode
switching_protocols = status_code 101

abbrev pub processing : StatusCode
processing = status_code 102

abbrev pub ok : StatusCode
ok = status_code 200

abbrev pub created : StatusCode
created = status_code 201

abbrev pub accepted : StatusCode
accepted = status_code 202

abbrev pub non_authoritative_information : StatusCode
non_authoritative_information = status_code 203

abbrev pub no_content : StatusCode
no_content = status_code 204

abbrev pub reset_content : StatusCode
reset_content = status_code 205

abbrev pub partial_content : StatusCode
partial_content = status_code 206

abbrev pub multi_status : StatusCode
multi_status = status_code 207

abbrev pub already_reported : StatusCode
already_reported = status_code 208

abbrev pub im_used : StatusCode
im_used = status_code 226

abbrev pub multiple_choices : StatusCode
multiple_choices = status_code 300

abbrev pub moved_permanently : StatusCode
moved_permanently = status_code 301

abbrev pub found : StatusCode
found = status_code 302

abbrev pub see_other : StatusCode
see_other = status_code 303

abbrev pub not_modified : StatusCode
not_modified = status_code 304

abbrev pub use_proxy : StatusCode
use_proxy = status_code 305

abbrev pub temporary_redirect : StatusCode
temporary_redirect = status_code 307

abbrev pub permanent_redirect : StatusCode
permanent_redirect = status_code 308

abbrev pub bad_request : StatusCode
bad_request = status_code 400

abbrev pub unauthorized : StatusCode
unauthorized = status_code 401

abbrev pub payment_required : StatusCode
payment_required = status_code 402

abbrev pub forbidden : StatusCode
forbidden = status_code 403

abbrev pub not_found : StatusCode
not_found = status_code 404

abbrev pub method_not_allowed : StatusCode
method_not_allowed = status_code 405

abbrev pub not_acceptable : StatusCode
not_acceptable = status_code 406

abbrev pub proxy_authentication_required : StatusCode
proxy_authentication_required = status_code 407

abbrev pub request_timeout : StatusCode
request_timeout = status_code 408

abbrev pub conflict : StatusCode
conflict = status_code 409

abbrev pub gone : StatusCode
gone = status_code 410

abbrev pub length_required : StatusCode
length_required = status_code 411

abbrev pub precondition_failed : StatusCode
precondition_failed = status_code 412

abbrev pub payload_too_large : StatusCode
payload_too_large = status_code 413

abbrev pub uri_too_long : StatusCode
uri_too_long = status_code 414

abbrev pub unsupported_media_type : StatusCode
unsupported_media_type = status_code 415

abbrev pub range_not_satisfiable : StatusCode
range_not_satisfiable = status_code 416

abbrev pub expectation_failed : StatusCode
expectation_failed = status_code 417

abbrev pub im_a_teapot : StatusCode
im_a_teapot = status_code 418

abbrev pub misdirected_request : StatusCode
misdirected_request = status_code 421

abbrev pub unprocessable_entity : StatusCode
unprocessable_entity = status_code 422

abbrev pub locked : StatusCode
locked = status_code 423

abbrev pub failed_dependency : StatusCode
failed_dependency = status_code 424

abbrev pub too_early : StatusCode
too_early = status_code 425

abbrev pub upgrade_required : StatusCode
upgrade_required = status_code 426

abbrev pub precondition_required : StatusCode
precondition_required = status_code 428

abbrev pub too_many_requests : StatusCode
too_many_requests = status_code 429

abbrev pub request_header_fields_too_large : StatusCode
request_header_fields_too_large = status_code 431

abbrev pub unavailable_for_legal_reasons : StatusCode
unavailable_for_legal_reasons = status_code 451

abbrev pub internal_server_error : StatusCode
internal_server_error = status_code 500

abbrev pub not_implemented : StatusCode
not_implemented = status_code 501

abbrev pub bad_gateway : StatusCode
bad_gateway = status_code 502

abbrev pub service_unavailable : StatusCode
service_unavailable = status_code 503

abbrev pub gateway_timeout : StatusCode
gateway_timeout = status_code 504

abbrev pub http_version_not_supported : StatusCode
http_version_not_supported = status_code 505

abbrev pub variant_also_negotiates : StatusCode
variant_also_negotiates = status_code 506

abbrev pub insufficient_storage : StatusCode
insufficient_storage = status_code 507

abbrev pub loop_detected : StatusCode
loop_detected = status_code 508

abbrev pub not_extended : StatusCode
not_extended = status_code 510

abbrev pub network_authentication_required : StatusCode
network_authentication_required = status_code 511

-- All constants, in the order of the source.
abbrev pub constants : List StatusCode
constants =
    continue ∷ switching_protocols ∷ processing ∷ ok ∷ created ∷ accepted
    ∷ non_authoritative_information ∷ no_content ∷ reset_content ∷ partial_content ∷ multi_status
    ∷ already_reported ∷ im_used ∷ multiple_choices ∷ moved_permanently ∷ found ∷ see_other
    ∷ not_modified ∷ use_proxy ∷ temporary_redirect ∷ permanent_redirect ∷ bad_request
    ∷ unauthorized ∷ payment_required ∷ forbidden ∷ not_found ∷ method_not_allowed ∷ not_acceptable
    ∷ proxy_authentication_required ∷ request_timeout ∷ conflict ∷ gone ∷ length_required
    ∷ precondition_failed ∷ payload_too_large ∷ uri_too_long ∷ unsupported_media_type
    ∷ range_not_satisfiable ∷ expectation_failed ∷ im_a_teapot ∷ misdirected_request
    ∷ unprocessable_entity ∷ locked ∷ failed_dependency ∷ too_early ∷ upgrade_required
    ∷ precondition_required ∷ too_many_requests ∷ request_header_fields_too_large
    ∷ unavailable_for_legal_reasons ∷ internal_server_error ∷ not_implemented ∷ bad_gateway
    ∷ service_unavailable ∷ gateway_timeout ∷ http_version_not_supported ∷ variant_also_negotiates
    ∷ insufficient_storage ∷ loop_detected ∷ not_extended ∷ network_authentication_required ∷ []

-- The constructor, which aborts on a code that is out of range.
unfoldable pub construct : {S E : Type 0} → ℕ → M S E StatusCode
construct code = if ltb code 100 || leb 1000 code then abort_process else pure (status_code code)

unfoldable pub from_code : {S E : Type 0} → ℕ → M S E (Option StatusCode)
unfolding construct
from_code code =
    if leb 100 code && ltb code 1000 then (do s ← construct code; pure (some s)) else pure none

unfoldable pub as_code : StatusCode → ℕ
as_code s = s.value

unfoldable pub is_informational : StatusCode → Bool
is_informational s = leb 100 s.value && ltb s.value 200

unfoldable pub is_success : StatusCode → Bool
is_success s = leb 200 s.value && ltb s.value 300

unfoldable pub is_redirection : StatusCode → Bool
is_redirection s = leb 300 s.value && ltb s.value 400

unfoldable pub is_client_error : StatusCode → Bool
is_client_error s = leb 400 s.value && ltb s.value 500

unfoldable pub is_server_error : StatusCode → Bool
is_server_error s = leb 500 s.value && ltb s.value 600

-- `operator==` and `operator!=`
unfoldable pub is_equal : StatusCode → StatusCode → Bool
is_equal s a = s.value == a.value

unfoldable pub is_different : StatusCode → StatusCode → Bool
is_different s a = not (s.value == a.value)

-- `f_http_status_code_canonical_reason` of the bridge is the parameter.
unfoldable pub canonical_reason :
    {S Err : Type 0} → (ℕ → M S Err (Bool × Bytes)) → StatusCode → M S Err (Option Bytes)
canonical_reason status_code_canonical_reason s = do
  (has_reason, reason) ← status_code_canonical_reason s.value
  pure (if has_reason then some reason else none)
