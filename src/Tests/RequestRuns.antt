-- ===== src/Tests/RequestRuns.antt =====
-- Runs of the models of src/cpp/http/request.cpp, src/cpp/backend.cpp, src/cpp/security.cpp and
-- src/cpp/esi.cpp.
use compute_sdk_cpp.Prelude.{
  ℕ, ◌==◌, zero, suc, ◌*◌, ◌≡◌, if◌then◌else◌, refl, Bool, true, false, List, [], ◌∷◌, ◌++◌, Option,
  none, some, inr, Bytes, length, replicate, arith,
}
use compute_sdk_cpp.Prelude.Int.{pos}
use compute_sdk_cpp.Prelude.Effects.{ok, err, abort, pure}
use compute_sdk_cpp.Backend.Laws.{KeepsTimeouts, between_of_built, get_between_byte_timeout-first}
use compute_sdk_cpp.Esi
use compute_sdk_cpp.Esi.{PendingFragmentContent, EsiHost, DispatchFn, ProcessFn, FragmentContent}
use compute_sdk_cpp.Esi.Laws.{dispatch_shim_lem, process_shim_lem}
use compute_sdk_cpp.Host.Backends.{BackendHost, BackendBuilderHost}
use compute_sdk_cpp.Host.Calls.{to_u32}
use compute_sdk_cpp.Host.Inspection
use compute_sdk_cpp.Host.Inspection.{InspectionHost}
use compute_sdk_cpp.Host.Requests.{RequestMakerHost, RequestCacheHost, SendHost}
use compute_sdk_cpp.Http.Request.{Request}
use compute_sdk_cpp.Http.Request.Laws.{text_through, with_body-into_body_string}
use compute_sdk_cpp.Http.Request.CachingLaws.{
  CachingCall, ttl, stale, pci, turned_off, KeepsCaching, call_all, call_all_lem,
}
use compute_sdk_cpp.Http.Request.Pending.{PendingRequest, select, response_of_box}
use compute_sdk_cpp.Http.Request.PendingLaws.{select_lem}
use compute_sdk_cpp.Http.Request.PollLaws.{Answers, done, waiting, Ends, poll-Ends}
use compute_sdk_cpp.Security
use compute_sdk_cpp.Security.{InspectResponse}
use compute_sdk_cpp.Security.Laws.{tags-length}
use compute_sdk_cpp.Tests.Toys.{toy_bodies, toy_bodies-IsTextHost}

-- Requests over a state that is the content of the one body; a method of no bytes is refused.
abbrev toy_requests : RequestMakerHost Bytes (Unit {0})
toy_requests = record {
  request_new = λ _ _ s. (1, s);
  request_new_str = λ method _ s. elim method [ [] ↦ err tt s | c ∷ cs ↦ ok 1 s ];
  request_from_client = λ s. (1, s);
  request_get = λ _ s. (1, s);
  request_head = λ _ s. (1, s);
  request_post = λ _ s. (1, s);
  request_put = λ _ s. (1, s);
  request_delete = λ _ s. (1, s);
  request_connect = λ _ s. (1, s);
  request_options = λ _ s. (1, s);
  request_trace = λ _ s. (1, s);
  request_patch = λ _ s. (1, s);
  is_from_client = λ _ s. (false, s);
  clone_without_body = λ _ s. (2, s);
  clone_with_body = λ _ s. (2, s);
  set_body = λ _ _ s. s;
  has_body = λ _ s. (true, s);
  take_body = λ _ s. (3, s);
  into_body = λ _ s. (3, s);
  set_body_text_plain = λ _ _. pure tt;
  set_body_text_html = λ _ _. pure tt;
  set_body_octet_stream = λ _ text s. text;
}

abbrev some_request : Request
some_request = record { req = 1 }

with_body-into_body_string_example :
    (s' : Bytes) × (text_through {E = Unit {0}} toy_requests
        (toy_bodies [])
        9
        (b'h' ∷ b'i' ∷ b'!' ∷ [])
        some_request
        (b'x' ∷ [])
      ≡ ok (b'h' ∷ b'i' ∷ b'!' ∷ []) s')
with_body-into_body_string_example =
    with_body-into_body_string toy_requests (toy_bodies []) (toy_bodies-IsTextHost []) (Unit {0})
      (record { content-into_body = λ r h s. refl }) 9 (b'h' ∷ b'i' ∷ b'!' ∷ []) some_request
      (b'x' ∷ []) (omega arith) (omega arith, (omega arith, (omega arith, tt)))

-- Whether caching is off, and the lifetime.
abbrev toy_settings : RequestCacheHost (Bool × Option ℕ) (Unit {0})
toy_settings = record {
  get_client_ddos_detected = λ _ s. ((false, false), s);
  set_pass = λ _ pass s. (pass, if pass then none else s.1);
  set_ttl = λ _ ttl s. (false, some ttl);
  set_stale_while_revalidate = λ _ _ s. (false, s.1);
  set_pci = λ _ _ s. (false, s.1);
  set_surrogate_key = λ _ _ s. ok tt (false, s.1);
  get_client_ip_addr = λ _ s. ((false, []), s);
  get_server_ip_addr = λ _ s. ((false, []), s);
  set_auto_decompress_gzip = λ _ _ s. s;
  fastly_key_is_valid = λ _ s. (false, s);
  set_cache_key = λ _ _ s. s;
}

stays_unset : (b : Bool) (o : Option ℕ) → o ≡ none → (if b then none else o) ≡ none
stays_unset true o e = refl
stays_unset false o e = e

abbrev toy_settings-KeepsCaching : KeepsCaching toy_settings
toy_settings-KeepsCaching = record {
  is_off = λ _ s. s.0;
  lifetime = λ _ s. s.1;
  is_off-set_pass = λ _ _ _. refl;
  is_off-set_stale = λ _ _ _. refl;
  is_off-set_pci = λ _ _ _. refl;
  unset-set_pass = λ _ b s e. stays_unset b s.1 e;
  unset-set_stale = λ _ _ _ e. e;
  unset-set_pci = λ _ _ _ e. e;
}

-- A lifetime of 60 seconds, asked for after stale content.
abbrev some_caching : List CachingCall
some_caching = pci true ∷ stale 5 ∷ ttl 60 ∷ []

call_all_example :
    (s' : Bool × Option ℕ) × (call_all toy_settings
        (Unit {0})
        some_caching
        some_request
        (false, none)
      ≡ ok some_request s')
    × (s'.1 ≡ none)
    × (s'.0 ≡ turned_off some_caching false)
call_all_example =
    call_all_lem toy_settings (Unit {0}) toy_settings-KeepsCaching some_caching some_request
      (false, none) refl

-- Requests that are pending until the state has come to 0. `select` gives the first request.
abbrev toy_sending : SendHost ℕ (Unit {0})
toy_sending = record {
  request_send = λ _ _. pure 5;
  request_send_async = λ _ _. pure 6;
  request_send_async_streaming = λ _ _. pure (7, 6);
  pending_request_poll = λ h s. elim s [ zero ↦ ok (true, 5) 0 | suc n ↦ ok (false, h) n ];
  pending_request_wait = λ _. pure 5;
  pending_request_select = λ reqs s. elim reqs [
    | [] ↦ abort s
    | h ∷ hs ↦ elim s [ zero ↦ err (tt, hs) 0 | suc n ↦ ok (5, hs) n ]
  ];
  cloned_sent_req = λ _ s. (8, s);
}

abbrev some_pending : PendingRequest
some_pending = record { req = 6 }

poll-Answers : (h s : ℕ) → Answers (λ _ n. n) s (toy_sending.pending_request_poll h s)
poll-Answers h zero = done
poll-Answers h (suc n) = waiting (omega arith)

poll-Ends_example : Ends toy_sending (Unit {0}) some_pending 3 3
poll-Ends_example =
    poll-Ends toy_sending (Unit {0}) (record { left = λ _ n. n; answers = poll-Answers })
      some_pending 3

select_example :
    select toy_sending {E = Unit {0}} (some_pending ∷ record { req = 9 } ∷ []) 2
    ≡ ok (inr (response_of_box 5), record { req = 9 } ∷ []) 1
select_example = select_lem toy_sending (Unit {0}) (some_pending ∷ record { req = 9 } ∷ []) 2

-- Backends over a state that is the two timeouts.
abbrev toy_backends : BackendHost (ℕ × ℕ) (Unit {0})
toy_backends = record {
  backend_from_name = λ _. pure 1;
  equals = λ b c s. (b == c, s);
  clone = λ b s. (b, s);
  into_string = λ _ s. ([], s);
  name = λ _ s. ([], s);
  exists = λ _ s. (true, s);
  is_dynamic = λ _ s. (true, s);
  get_host = λ _ s. ([], s);
  get_port = λ _ s. (443, s);
  get_connect_timeout = λ _ s. (0, s);
  get_first_byte_timeout = λ _ s. (s.0, s);
  get_between_bytes_timeout = λ _ s. (s.1, s);
  get_http_keepalive_time = λ _ s. (0, s);
  get_tcp_keepalive_enable = λ _ s. (false, s);
  get_tcp_keepalive_interval = λ _ s. (0, s);
  get_tcp_keepalive_probes = λ _ s. (0, s);
  get_tcp_keepalive_time = λ _ s. (0, s);
  is_ssl = λ _ s. (false, s);
}

abbrev toy_builders : BackendBuilderHost (ℕ × ℕ) (Unit {0})
toy_builders = record {
  backend_builder = λ _ _ s. (2, (0, 0));
  override_host = λ b _ s. (b, s);
  connect_timeout = λ b _ s. (b, s);
  first_byte_timeout = λ b t s. (b, (t, s.1));
  between_bytes_timeout = λ b t s. (b, (s.0, t));
  enable_ssl = λ b s. (b, s);
  disable_ssl = λ b s. (b, s);
  set_min_tls_version = λ b _ s. (b, s);
  set_max_tls_version = λ b _ s. (b, s);
  check_certificate = λ b _ s. (b, s);
  ca_certificate = λ b _ s. (b, s);
  tls_ciphers = λ b _ s. (b, s);
  sni_hostname = λ b _ s. (b, s);
  enable_pooling = λ b _ s. (b, s);
  http_keepalive_time = λ b _ s. (b, s);
  tcp_keepalive_enable = λ b _ s. (b, s);
  tcp_keepalive_interval_secs = λ b _ s. (b, s);
  tcp_keepalive_probes = λ b _ s. (b, s);
  tcp_keepalive_time_secs = λ b _ s. (b, s);
  finish = λ _. pure 1;
}

abbrev toy_builders-KeepsTimeouts : KeepsTimeouts toy_backends toy_builders
toy_builders-KeepsTimeouts = record {
  first = λ _ s. s.0;
  first_of_backend = λ _ s. s.0;
  finished = λ _ s. (1, s);
  first-set = λ _ _ _. refl;
  first-between = λ _ _ _. refl;
  finish_lem = λ _ _. (refl, refl);
  get_first_lem = λ _ _. refl;
}

get_between_byte_timeout_example :
    (s' : ℕ × ℕ) × (between_of_built toy_backends toy_builders
        (pos 15000)
        (pos 300)
        (record { builder = 2 })
        (0, 0)
      ≡ ok (to_u32 (pos 15000)) s')
get_between_byte_timeout_example =
    get_between_byte_timeout-first toy_backends toy_builders toy_builders-KeepsTimeouts (pos 15000)
      (pos 300) (record { builder = 2 }) (0, 0)

-- An inspection that found two tags.
abbrev toy_inspections : InspectionHost Bytes (Unit {0})
toy_inspections = record {
  security_lookup = λ _ _ _ _ _. pure 1;
  status = λ _ s. (pos 200, s);
  redirect_url = λ _ s. ((false, []), s);
  tags = λ _ s. ((b'a' ∷ []) ∷ (b'b' ∷ []) ∷ [], s);
  verdict = λ _ s. (Inspection.allow, s);
  unrecognized_verdict_info = λ _ s. ((false, []), s);
  decision_ms = λ _ s. (1, s);
  is_redirect = λ _ s. (false, s);
  into_redirect = λ _ s. ((false, 0), s);
  error_code = λ _ s. (0, s);
  error_msg = λ _ s. ([], s);
  required_buffer_size = λ _ s. ((false, 0), s);
}

abbrev two_tags : List Bytes
two_tags = (b'a' ∷ []) ∷ (b'b' ∷ []) ∷ []

tags-length_example :
    (found : List Bytes) × (Security.tags toy_inspections {E = Unit {0}} (record { ir = 1 }) []
      ≡ ok found [])
    × (found ≡ replicate (length two_tags) [] ++ two_tags)
    × (length found ≡ 2 * length two_tags)
tags-length_example = tags-length toy_inspections (Unit {0}) (record { ir = 1 }) []

-- A callback that answers with the response 5, once, and then with nothing.
abbrev answer_once : DispatchFn ℕ
answer_once r s = elim s [
  | zero ↦ (none, 0)
  | suc n ↦ (some (PendingFragmentContent.response (response_of_box 5)), n)
]

dispatch_shim_example : Esi.dispatch_shim answer_once 4 1 ≡ ok (FragmentContent.completed 5) 0
dispatch_shim_example = dispatch_shim_lem answer_once 4 1

-- The crate's request is copied to the box 9.
abbrev toy_esi : EsiHost ℕ (Unit {0})
toy_esi = record {
  request_clone_with_body = λ _ s. (9, s);
  processor_new = λ _ _ _ s. (1, s);
  process_response = λ _ _ _ _ _. pure tt;
  process_document = λ _ text _ _. pure text;
}

-- A callback that hands its response on, but for the copy 9 in the state 0.
abbrev pass_on : ProcessFn ℕ
pass_on req resp s = elim s [ zero ↦ (none, 0) | suc n ↦ (some resp, n) ]

process_shim_example : Esi.process_shim toy_esi pass_on 4 5 1 ≡ ok 5 0
process_shim_example = process_shim_lem toy_esi pass_on 4 5 1
