-- ===== src/Tests/Toys.antt =====
-- Small hosts in place of the functions that src/cpp/fastly.h and src/http/body.rs import.
use compute_sdk_cpp.Prelude.{
  ℕ, suc, zero, ◌-◌, ◌<◌, ◌≤◌, ◌≡◌, refl, Bool, true, false, [], ◌∷◌, ◌++◌,
}
use compute_sdk_cpp.Prelude.{Bytes, List, length, leb, if◌then◌else◌, ◌==◌, arith}
use compute_sdk_cpp.Prelude.Effects.{M, ok, pure}
use compute_sdk_cpp.Host.{CacheHost, RequestHost, Call, Written, ok_status, bad_handle, buffer_len}
use compute_sdk_cpp.Host.Bodies.{BodyHost}
use compute_sdk_cpp.Host.Purge.{PurgeHost, pop, global}
use compute_sdk_cpp.Cache.Core.Handles.{cached, replacing}
use compute_sdk_cpp.Cache.Core.Found.{get_metadata, get_body}
use compute_sdk_cpp.Cache.Core.Found.Laws.{HasMetadata}
use compute_sdk_cpp.Cache.Core.Headers.Laws.{IsRequestHost}
use compute_sdk_cpp.Cache.Simple.Handles.{CountsHandles}
use compute_sdk_cpp.Cache.Simple.Ends.{returned}
use compute_sdk_cpp.Cache.Simple.Insertion.{StreamsBack}
use compute_sdk_cpp.Cache.Simple.Balance.{IgnoresHandles}
use compute_sdk_cpp.Http.Body.TextLaws.{IsTextHost}
use compute_sdk_cpp.Http.Buffer.Laws.{IsWriter}
use compute_sdk_cpp.Http.Body.ReadLaws.{IsReader}

abbrev answer : {S A : Type 0} → A → Call S A
answer a s = (ok_status, a, s)

abbrev opens : {S A : Type 0} → (S → S) → A → Call S A
opens opened a s = (ok_status, a, opened s)

abbrev gives : {S : Type 0} → Bytes → ℕ → Call S Written
gives bytes size n =
    if leb (length bytes) size
    then (ok_status, record { bytes = bytes; nwritten = length bytes }, n)
    else (buffer_len, record { bytes = []; nwritten = length bytes }, n)

pub gives_all :
    (bytes : Bytes) (size n : ℕ)
    → length bytes ≤ size
    → gives {S = ℕ} bytes size n ≡ (ok_status, record { bytes = bytes; nwritten = length bytes }, n)
gives_all bytes size n h = ground arith

pub gives_length :
    (bytes : Bytes) (size n : ℕ)
    → size < length bytes
    → gives {S = ℕ} bytes size n ≡ (buffer_len, record { bytes = []; nwritten = length bytes }, n)
gives_length bytes size n h = ground arith

-- A cache whose every lookup finds what `state` says, and whose objects all have the metadata `bytes`.
abbrev pub any_cache : {S : Type 0} → (S → S) → (S → S) → ℕ → Bytes → CacheHost S
any_cache opened closed state bytes = record {
  cache_lookup = λ _ _ _. opens opened 4;
  cache_transaction_lookup = λ _ _ _. opens opened 4;
  cache_transaction_lookup_async = λ _ _ _. opens opened 4;
  cache_busy_handle_wait = λ _. answer 4;
  async_is_ready = λ _. answer 1;
  cache_insert = λ _ _ _. answer 8;
  cache_replace = λ _ _ _. opens opened 4;
  cache_replace_insert = λ _ _ _. answer 8;
  cache_transaction_update = λ _ _ _. answer tt;
  cache_transaction_insert = λ _ _ _. answer 8;
  cache_transaction_insert_and_stream_back = λ _ _ _. opens opened (8, 5);
  cache_transaction_cancel = λ _. answer tt;
  cache_get_state = λ _. answer state;
  cache_get_age_ns = λ _. answer 30;
  cache_get_max_age_ns = λ _. answer 100;
  cache_get_stale_while_revalidate_ns = λ _. answer 10;
  cache_get_hits = λ _. answer 2;
  cache_get_length = λ _. answer 3;
  cache_get_user_metadata = λ _. gives bytes;
  cache_get_body = λ _ _ _. answer 9;
  cache_replace_get_state = λ _. answer state;
  cache_replace_get_age_ns = λ _. answer 30;
  cache_replace_get_max_age_ns = λ _. answer 100;
  cache_replace_get_stale_while_revalidate_ns = λ _. answer 10;
  cache_replace_get_hits = λ _. answer 2;
  cache_replace_get_length = λ _. answer 3;
  cache_replace_get_user_metadata = λ _. gives bytes;
  cache_replace_get_body = λ _ _ _. answer 9;
  cache_close = λ _. closed;
}

-- One whose state is the number of open handles.
abbrev pub toy_cache : ℕ → Bytes → CacheHost ℕ
toy_cache = any_cache suc (λ n. n - 1)

unfoldable pub toy_cache-CountsHandles :
    (state : ℕ) (bytes : Bytes) → CountsHandles (toy_cache state bytes)
unfolding get_body
toy_cache-CountsHandles state bytes = record {
  live = λ n. n;
  lookup_opens = λ _ _ _ s. refl;
  transaction_lookup_opens = λ _ _ _ s. refl;
  stream_back_opens = λ _ _ _ s. refl;
  state_keeps = λ _ s. refl;
  body_keeps = elim [ cached h ↦ λ _ _ s. refl | replacing h ↦ λ _ _ s. refl ];
  close = λ _ s. refl;
}

unfoldable pub toy_cache-HasMetadata :
    (state : ℕ) (bytes : Bytes) → HasMetadata (toy_cache state bytes) (cached 4)
unfolding get_metadata
toy_cache-HasMetadata state bytes = record {
  metadata = λ _. bytes;
  fits = gives_all bytes;
  is_short = gives_length bytes;
}

-- Which request handles are open, and the values set so far.
abbrev pub Requests : Type 0
Requests = (ℕ → Bool) × List Bytes

abbrev pub toy_requests : RequestHost Requests
toy_requests = record {
  http_req_new = λ s. (ok_status, 7, ((λ k. if k == 7 then true else s.0 k), s.1));
  http_req_close = λ h s. ((λ k. if k == h then false else s.0 k), s.1);
  http_req_header_values_set =
      λ h name bytes s. if s.0 h then (ok_status, tt, (s.0, bytes ∷ s.1)) else (bad_handle, tt, s);
}

pub closed_now : (h : ℕ) (s : Requests) → (toy_requests.http_req_close h s).0 h ≡ false
closed_now h s = ground arith

abbrev pub toy_requests-IsRequestHost : IsRequestHost toy_requests
toy_requests-IsRequestHost = record {
  is_open = λ h s. s.0 h;
  is_open-close = closed_now;
  set_closed = λ h name bytes s e. rw e refl;
}

-- Two bytes of each write are taken, if there are two.
abbrev pub taken : Bytes → Bytes
taken [] = []
taken (c ∷ []) = c ∷ []
taken (c ∷ d ∷ _) = c ∷ d ∷ []

-- Each read gives one byte.
abbrev pub first_byte : ℕ → Bytes → Bytes
first_byte zero s = []
first_byte (suc n) [] = []
first_byte (suc n) (c ∷ _) = c ∷ []

abbrev pub rest_bytes : ℕ → Bytes → Bytes
rest_bytes zero s = s
rest_bytes (suc n) [] = []
rest_bytes (suc n) (_ ∷ s) = s

-- One body, whose state is its content. What is appended to it is `other`.
abbrev pub toy_bodies : Bytes → BodyHost Bytes (Unit {0})
toy_bodies other = record {
  body_new = λ s. (0, []);
  body_read = λ _ n s. ok (first_byte n s) (rest_bytes n s);
  body_write = λ _ bytes s. ok (length (taken bytes)) (s ++ taken bytes);
  body_append = λ _ _ s. s ++ other;
  body_append_trailer = λ _ _ _. pure tt;
  body_drop = λ _ s. s;
  streaming_body_write = λ _ bytes s. ok (length (taken bytes)) (s ++ taken bytes);
  streaming_body_append = λ _ _ s. s ++ other;
  streaming_body_append_trailer = λ _ _ _. pure tt;
  streaming_body_finish = λ _. pure tt;
}

abbrev pub toy_write : Bytes → M Bytes (Unit {0}) ℕ
toy_write bytes s = ok (length (taken bytes)) (s ++ taken bytes)

abbrev pub toy_write-IsWriter : IsWriter toy_write
toy_write-IsWriter = record {
  sent = λ s. s;
  extra = λ _. elim [ [] ↦ λ s. 0 | d ∷ ds ↦ λ s. 1 ];
  after = λ c cs s. s ++ taken (c ∷ cs);
  extra_le = λ c. elim [ [] ↦ λ s. omega arith | d ∷ ds ↦ λ s. omega arith ];
  write_lem = λ c. elim [ [] ↦ λ s. refl | d ∷ ds ↦ λ s. refl ];
  sent-after = λ c. elim [ [] ↦ λ s. refl | d ∷ ds ↦ λ s. refl ];
}

pub first_byte-nil : (n : ℕ) (s : Bytes) → first_byte (suc n) s ≡ [] → s ≡ []
first_byte-nil n [] e = refl
first_byte-nil n (c ∷ s) e = cc

abbrev pub toy_bodies-IsReader : (other : Bytes) → IsReader (toy_bodies other)
toy_bodies-IsReader other = record {
  content = λ _ s. s;
  chunk = λ _ n s. first_byte n s;
  after = λ _ n s. rest_bytes n s;
  read_lem = λ _ n s. refl;
  content-after = λ _. elim [ zero ↦ λ s. refl | suc n ↦ elim [ [] ↦ refl | c ∷ s ↦ refl ] ];
  chunk-nil = λ _. first_byte-nil;
}

abbrev pub toy_bodies-IsTextHost : (other : Bytes) → IsTextHost (toy_bodies other)
toy_bodies-IsTextHost other = record {
  reads = toy_bodies-IsReader other;
  writes = λ _. toy_write-IsWriter;
  sent_content = λ _ s. refl;
  content-new = λ s. refl;
}

-- The bodies that a run on the cache above makes, which it never looks into.
abbrev pub blind_bodies : BodyHost ℕ (Unit {0})
blind_bodies = record {
  body_new = λ n. (0, n);
  body_read = λ _ _. pure [];
  body_write = λ _ bytes. pure (length bytes);
  body_append = λ _ _ n. n;
  body_append_trailer = λ _ _ _. pure tt;
  body_drop = λ _ n. n;
  streaming_body_write = λ _ bytes. pure (length bytes);
  streaming_body_append = λ _ _ n. n;
  streaming_body_append_trailer = λ _ _ _. pure tt;
  streaming_body_finish = λ _. pure tt;
}

abbrev pub toy_purges : {S : Type 0} → PurgeHost S (Unit {0})
toy_purges = record {
  cache_surrogate_key_for_cache_key =
      λ key scope. elim scope [ pop ↦ 80 ∷ key | global ↦ 71 ∷ key ];
  purge_surrogate_key = λ _. pure tt;
  soft_purge_surrogate_key = λ _. pure tt;
}

abbrev pub blind_bodies-IgnoresHandles : IgnoresHandles blind_bodies (λ n. n)
blind_bodies-IgnoresHandles = record {
  write_keeps = λ _ _ s. returned refl;
  drop_keeps = λ _ s. refl;
  streaming_write_keeps = λ _ _ s. returned refl;
  streaming_append_keeps = λ _ _ s. refl;
  streaming_finish_keeps = λ _ s. returned refl;
}

-- A cache that keeps no count.
abbrev pub uncounted_cache : CacheHost Bytes
uncounted_cache = any_cache (λ s. s) (λ s. s) 8 []

unfoldable pub toy_bodies-StreamsBack :
    (other : Bytes) (v o : ℕ) → StreamsBack uncounted_cache (toy_bodies other) v o (cached 5)
unfolding get_body
toy_bodies-StreamsBack other v o = record {
  held = λ _. other;
  received = λ s. s;
  content = λ _ s. s;
  finished = λ s. s;
  given = λ _. 9;
  after = λ s. s;
  append_adds = λ s. refl;
  finish_lem = λ s. refl;
  get_body_lem = λ s. refl;
  content-given = λ s. refl;
  content-close = λ _ _ s. refl;
}
