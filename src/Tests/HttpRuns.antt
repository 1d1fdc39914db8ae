-- ===== src/Tests/HttpRuns.antt =====
-- Runs of the models of src/cpp/http/status_code.cpp, src/cpp/http/response.cpp and the header ranges.
use compute_sdk_cpp.Prelude.{
  ℕ, ◌≤◌, ◌<◌, ◌≡◌, ◌↔◌, refl, false, [], ◌∷◌, Option, none, some, Bytes, List, All, arith,
}
use compute_sdk_cpp.Prelude.Effects.{ok, pure, err}
use compute_sdk_cpp.Http.Header
use compute_sdk_cpp.Http.Header.{HeaderValue}
use compute_sdk_cpp.Http.Header.Laws.{IsVisible, string_iff}
use compute_sdk_cpp.Http.RustIteratorRange
use compute_sdk_cpp.Http.RustIteratorRange.Laws.{for_each_lem}
use compute_sdk_cpp.Http.Response
use compute_sdk_cpp.Http.Response.{Response}
use compute_sdk_cpp.Http.Response.Laws.{with_body_text_html_iff}
use compute_sdk_cpp.Http.StatusCode
use compute_sdk_cpp.Http.StatusCode.{StatusCode, constants, construct, as_code}
use compute_sdk_cpp.Http.StatusCode.Laws.{from_code_lem}
use compute_sdk_cpp.Tests.Toys.{toy_bodies}
use compute_sdk_cpp.Host.Responses.{ResponseHost}

from_code_example :
    (r : Option StatusCode) × (StatusCode.from_code {S = Bytes} {E = Unit {0}} 404 (b'x' ∷ [])
      ≡ ok r (b'x' ∷ []))
    × ((s : StatusCode) → (r ≡ some s) ↔ ((100 ≤ 404) × (404 < 1000) × (as_code s ≡ 404)))
from_code_example = from_code_lem {S = Bytes} (Unit {0}) 404 (b'x' ∷ [])

-- A Rust iterator over a list.
abbrev next_of : List ℕ → Option ℕ × List ℕ
next_of [] = (none, [])
next_of (x ∷ xs) = (some x, xs)

abbrev rest_of : List ℕ → List ℕ
rest_of [] = []
rest_of (x ∷ xs) = xs

next_of_nil : (s : List ℕ) → s ≡ [] → next_of s ≡ (none, rest_of s)
next_of_nil [] e = refl
next_of_nil (x ∷ xs) e = cc

next_of_cons :
    (x : ℕ) (xs s : List ℕ) → s ≡ x ∷ xs → (next_of s ≡ (some x, rest_of s)) × (rest_of s ≡ xs)
next_of_cons x xs [] e = cc
next_of_cons x xs (y ∷ ys) e = (cc, cc)

for_each_example :
    (s' : List ℕ) × (RustIteratorRange.for_each next_of {E = Unit {0}} 4 (5 ∷ 6 ∷ 7 ∷ [])
      ≡ ok (5 ∷ 6 ∷ 7 ∷ []) s')
for_each_example =
    for_each_lem next_of
      (record {
        items = λ s. s;
        after = rest_of;
        next-nil = next_of_nil;
        next-cons = λ x xs s. next_of_cons x xs s;
      })
      (Unit {0}) 4 (5 ∷ 6 ∷ 7 ∷ []) (omega arith)

abbrev some_header : HeaderValue
some_header = record { value = b'h' ∷ b'i' ∷ []; is_sensitive = false }

string_iff_example :
    (Header.string some_header ≡ some (b'h' ∷ b'i' ∷ []))
    ↔ ((some_header.value ≡ b'h' ∷ b'i' ∷ []) × All IsVisible some_header.value)
string_iff_example = string_iff some_header (b'h' ∷ b'i' ∷ [])

-- Responses over a state that is the content of the one body. The bridge accepts the empty
-- text alone.
abbrev toy_responses : ResponseHost Bytes (Unit {0})
toy_responses = record {
  response_new = λ s. (1, s);
  response_from_body = λ _ s. (1, s);
  response_from_status = λ _ s. (1, s);
  response_see_other = λ _ s. (1, s);
  response_redirect = λ _ s. (1, s);
  response_temporary_redirect = λ _ s. (1, s);
  clone_without_body = λ _ s. (2, s);
  clone_with_body = λ _ s. (2, s);
  set_body = λ _ _ s. s;
  append_body = λ _ _ s. s;
  take_body = λ _ s. (3, s);
  into_body = λ _ s. (3, s);
  set_body_text_plain = λ _ _. pure tt;
  set_body_text_html = λ _ text s. elim text [ [] ↦ ok tt s | c ∷ cs ↦ err tt s ];
  set_body_octet_stream = λ _ text s. text;
  get_content_type = λ _ s. ((false, []), s);
  set_content_type = λ _ _ s. s;
  get_content_length = λ _ s. ((false, 0), s);
  contains_header = λ _ _. pure false;
  get_header = λ _ _. pure (false, [], false);
  set_header = λ _ _ _. pure tt;
  append_header = λ _ _ _. pure tt;
  remove_header = λ _ _. pure (false, []);
  get_status = λ _ s. (200, s);
  set_status = λ _ _ s. s;
  get_backend_name = λ _ s. ((false, []), s);
  get_backend_addr = λ _ s. ((false, []), s);
  send_to_client = λ _ s. s;
  stream_to_client = λ _ s. (3, s);
  get_ttl = λ _ s. ((false, 0), s);
  get_age = λ _ s. ((false, 0), s);
  get_stale_while_revalidate = λ _ s. ((false, 0), s);
}

abbrev some_response : Response
some_response = record { res = 1 }

with_body_text_html_iff_example :
    (Response.with_body_text_html toy_responses (toy_bodies []) (b'p' ∷ []) some_response []
      ≡ ok some_response [])
    ↔ ((e : Unit {0}) × (toy_responses.set_body_text_html 1 (b'p' ∷ []) [] ≡ err e []))
with_body_text_html_iff_example =
    with_body_text_html_iff toy_responses (toy_bodies []) (b'p' ∷ []) some_response [] []
