-- ===== src/Tests/BodyRuns.antt =====
-- Runs of the models of src/cpp/http/body.cpp.
use compute_sdk_cpp.Http.StreamingBody.{from_body_handle}
use compute_sdk_cpp.Http.StreamingBody.Trace.{stream_and_finish, stream_and_finish_lem}
use compute_sdk_cpp.Prelude.{
  ℕ, ◌≡◌, suc, ◌≤◌, ◌+◌, ◌<◌, ◌⊎◌, refl, true, [], ◌∷◌, ◌++◌, none, some, Bytes, length, replicate,
  List, arith,
}
use compute_sdk_cpp.Prelude.Effects.{ok, M, ◌>>=◌}
use compute_sdk_cpp.Http.Buffer.{overflow, sync, sputn}
use compute_sdk_cpp.Http.Buffer.Laws.{
  AnswersWrites, overflow_returns, flush-sputn, overflow_keeps_taken,
}
use compute_sdk_cpp.Http.Body
use compute_sdk_cpp.Http.Body.{Body, from_handle}
use compute_sdk_cpp.Http.Body.ReadLaws.{body, take_body_string_lem, take_body_string_eof}
use compute_sdk_cpp.Http.Body.WriteLaws.{from_vector-new, append-sync}
use compute_sdk_cpp.Http.Body.Trace.{
  StreamCall, put, insert, flush, moved, perform_all, added_all, perform_all-refines,
}
use compute_sdk_cpp.Tests.Toys.{
  taken, toy_bodies, toy_bodies-IsReader, toy_write, toy_write-IsWriter,
}

flush-sputn_example :
    (s1 s2 : Bytes) × (left : Bytes) × (sputn toy_write {E = Unit {0}}
        (b'c' ∷ b'd' ∷ b'e' ∷ [])
        (b'a' ∷ b'b' ∷ [])
        (b'x' ∷ [])
      ≡ ok (true, left) s1)
    × (sync toy_write {E = Unit {0}} left s1 ≡ ok (true, []) s2)
    × (s2 ≡ ((b'x' ∷ []) ++ (b'a' ∷ b'b' ∷ [])) ++ (b'c' ∷ b'd' ∷ b'e' ∷ []))
flush-sputn_example =
    flush-sputn toy_write toy_write-IsWriter {E = Unit {0}} (b'c' ∷ b'd' ∷ b'e' ∷ [])
      (b'a' ∷ b'b' ∷ []) (b'x' ∷ [])

-- A host that takes two bytes of five and none of three.
abbrev stubborn : Bytes → M Bytes (Unit {0}) ℕ
stubborn [] s = ok 0 s
stubborn (c ∷ d ∷ e ∷ f ∷ cs) s = ok 2 (s ++ c ∷ d ∷ [])
stubborn (c ∷ cs) s = ok 0 s

-- The number of writes, and the sum of their answers. Two bytes of each write are taken.
abbrev counting_write : Bytes → M (ℕ × ℕ) (Unit {0}) ℕ
counting_write bytes s = ok (length (taken bytes)) (suc s.0, s.1 + length (taken bytes))

abbrev counting_write-AnswersWrites : AnswersWrites counting_write
counting_write-AnswersWrites = record {
  calls = λ s. s.0;
  total = λ s. s.1;
  answer = λ c cs _. length (taken (c ∷ cs));
  after = λ c cs s. (suc s.0, s.1 + length (taken (c ∷ cs)));
  write_lem = λ c cs s. refl;
  answer_le = λ c. elim [ [] ↦ λ s. omega arith | d ∷ ds ↦ λ s. omega arith ];
  calls-after = λ c cs s. refl;
  total-after = λ c cs s. refl;
}

overflow_returns_example :
    (s' : ℕ × ℕ) × (s'.0 ≤ 0 + 3)
    × (((overflow counting_write {E = Unit {0}} (some 9) (b'a' ∷ b'b' ∷ b'c' ∷ []) (0, 0)
            ≡ ok (some 9, 9 ∷ []) s')
          × (s'.1 ≡ 0 + 3))
        ⊎ ((overflow counting_write {E = Unit {0}} (some 9) (b'a' ∷ b'b' ∷ b'c' ∷ []) (0, 0)
              ≡ ok (none, b'a' ∷ b'b' ∷ b'c' ∷ []) s')
            × (s'.1 < 0 + 3)))
overflow_returns_example =
    overflow_returns counting_write counting_write-AnswersWrites (Unit {0}) (some 9)
      (b'a' ∷ b'b' ∷ b'c' ∷ []) (0, 0)

overflow_keeps_taken_example :
    overflow stubborn {E = Unit {0}} (some 9) (b'a' ∷ b'b' ∷ b'c' ∷ b'd' ∷ b'e' ∷ []) (b'x' ∷ [])
    ≡ ok (none, (b'a' ∷ b'b' ∷ b'c' ∷ b'd' ∷ b'e' ∷ [])) (b'x' ∷ b'a' ∷ b'b' ∷ [])
overflow_keeps_taken_example =
    overflow_keeps_taken stubborn {E = Unit {0}} (some 9) 97 (b'b' ∷ b'c' ∷ b'd' ∷ b'e' ∷ []) 1
      (b'x' ∷ []) (b'x' ∷ b'a' ∷ b'b' ∷ []) (b'x' ∷ b'a' ∷ b'b' ∷ []) refl (omega arith) refl

take_body_string_example :
    (s' : Bytes) × (Body.take_body_string
        (toy_bodies [])
        {E = Unit {0}}
        6
        (record { bod = 2; pending = []; unread = (b'a' ∷ b'b' ∷ []) })
        (b'c' ∷ b'd' ∷ b'e' ∷ [])
      ≡ ok
          (
            (b'a' ∷ b'b' ∷ []) ++ (b'c' ∷ b'd' ∷ b'e' ∷ []),
            record { bod = 2; pending = []; unread = [] },
          )
          s')
    × (s' ≡ [])
take_body_string_example =
    take_body_string_lem (toy_bodies []) (toy_bodies-IsReader []) (Unit {0}) 6
      (record { bod = 2; pending = []; unread = (b'a' ∷ b'b' ∷ []) }) (b'c' ∷ b'd' ∷ b'e' ∷ [])
      (omega arith) (omega arith, (omega arith, (omega arith, (omega arith, (omega arith, tt)))))

take_body_string_eof_example :
    Body.take_body_string
      (toy_bodies [])
      {E = Unit {0}}
      9
      (body 2 [] [])
      (255 ∷ (b'c' ∷ b'd' ∷ b'e' ∷ []))
    ≡ ok ([], body 2 [] (255 ∷ [])) (b'c' ∷ b'd' ∷ b'e' ∷ [])
take_body_string_eof_example =
    take_body_string_eof (toy_bodies []) (toy_bodies-IsReader []) (Unit {0}) 8 2 []
      (b'c' ∷ b'd' ∷ b'e' ∷ []) (255 ∷ (b'c' ∷ b'd' ∷ b'e' ∷ [])) refl

from_vector-new_example :
    Body.from_vector (toy_bodies []) {E = Unit {0}} (b'a' ∷ b'b' ∷ b'c' ∷ []) (b'x' ∷ [])
    ≡ Body.new (toy_bodies []) (b'x' ∷ [])
from_vector-new_example =
    from_vector-new (toy_bodies []) (Unit {0}) (b'a' ∷ b'b' ∷ b'c' ∷ []) (b'x' ∷ [])

append-sync_example :
    (s' : Bytes) × ((Body.append
            (toy_bodies (b'z' ∷ b'z' ∷ []))
            {E = Unit {0}}
            (record { bod = 2; pending = (b'a' ∷ b'b' ∷ []); unread = [] })
            (record { bod = 3; pending = []; unread = [] })
          >>= λ _.
              Body.sync
                (toy_bodies (b'z' ∷ b'z' ∷ []))
                (record { bod = 2; pending = (b'a' ∷ b'b' ∷ []); unread = [] }))
        (b'x' ∷ [])
      ≡ ok (true, record { bod = 2; pending = []; unread = [] }) s')
    × (s' ≡ ((b'x' ∷ []) ++ (b'z' ∷ b'z' ∷ [])) ++ (b'a' ∷ b'b' ∷ []))
append-sync_example =
    append-sync (toy_bodies (b'z' ∷ b'z' ∷ [])) (Unit {0})
      (record { bod = 2; pending = (b'a' ∷ b'b' ∷ []); unread = [] }) 3 [] toy_write-IsWriter
      (b'z' ∷ b'z' ∷ []) (b'x' ∷ []) refl

-- More than the 512 bytes of the buffer, with a flush and a move in between.
abbrev some_calls : List StreamCall
some_calls = put 97 ∷ flush ∷ insert (replicate 600 98) ∷ moved ∷ insert (b'c' ∷ b'd' ∷ []) ∷ []

perform_all-refines_example :
    (left : Bytes) × (s' : Bytes) × (perform_all
        (toy_bodies [])
        (Unit {0})
        some_calls
        (from_handle 2)
        []
      ≡ ok (record { bod = 2; pending = left; unread = [] }) s')
    × (s' ++ left ≡ ([] ++ []) ++ added_all some_calls)
perform_all-refines_example =
    perform_all-refines (toy_bodies []) (Unit {0}) some_calls (from_handle 2) toy_write-IsWriter []

stream_and_finish_example :
    (s1 : Bytes) × (stream_and_finish (toy_bodies []) some_calls (from_body_handle 3) [] ≡ ok tt s1)
    × (s1 ≡ ([] ++ []) ++ added_all some_calls)
stream_and_finish_example =
    stream_and_finish_lem (toy_bodies []) some_calls (from_body_handle 3) toy_write-IsWriter []
