-- ===== src/KvStore/Dictionary.antt =====
-- What a store of src/cpp/kv_store.cpp promises: a dictionary of texts, with the client programs that
-- insert, look up and erase.
use compute_sdk_cpp.Prelude.{
  ℕ, ◌==◌, ◌&&◌, Bool, true, false, List, [], ◌∷◌, Option, none, some, Bytes, if◌then◌else◌,
}
use compute_sdk_cpp.Prelude.Effects.{M, Run, pure, ok, err, abort, ◌>>=◌, ◌>>◌}
use compute_sdk_cpp.Host.Bodies.{BodyHost}
use compute_sdk_cpp.Host.KvStores.{KvStoreHost, LookupResponseHost}
use compute_sdk_cpp.Http.Body
use compute_sdk_cpp.KvStore.LookingUp.{LookupResponse}
use compute_sdk_cpp.KvStore.{KvStore, insert, lookup, erase, take_body}

abbrev pub same_bytes : Bytes → Bytes → Bool
same_bytes [] [] = true
same_bytes [] (_ ∷ _) = false
same_bytes (_ ∷ _) [] = false
same_bytes (x ∷ xs) (y ∷ ys) = (x == y) && same_bytes xs ys

-- The abstract store.
abbrev pub Dictionary : Type 0
Dictionary = Bytes → Option Bytes

abbrev pub update : Bytes → Option Bytes → Dictionary → Dictionary
update key value d = λ k. if same_bytes k key then value else d k

pub data KvOp : Type 0 where
  put : Bytes → Bytes → KvOp
  look : Bytes → KvOp
  remove : Bytes → KvOp

-- What the abstract store answers, and what it is afterwards.
abbrev pub answer : KvOp → Dictionary → Option Bytes
answer (put key text) d = none
answer (look key) d = d key
answer (remove key) d = none

abbrev pub after : KvOp → Dictionary → Dictionary
after (put key text) d = update key (some text) d
after (look key) d = d
after (remove key) d = update key none d

abbrev pub answers : List KvOp → Dictionary → List (Option Bytes)
answers [] d = []
answers (op ∷ ops) d = answer op d ∷ answers ops (after op d)

abbrev pub after_all : List KvOp → Dictionary → Dictionary
after_all [] d = d
after_all (op ∷ ops) d = after_all ops (after op d)

module _ {S Err : Type 0} (host : KvStoreHost S Err) (responses : LookupResponseHost S)
    (bodies : BodyHost S Err) where
  -- The body of a response as a text.
  unfoldable pub text_of : ℕ → LookupResponse → M S Err (Option Bytes)
  unfolding take_body
  text_of fuel response = do
    body ← take_body responses response
    (text, _) ← Body.take_body_string bodies fuel body
    pure (some text)

  -- `response ? std::optional(text) : std::nullopt`
  unfoldable pub answer_of_lookup : ℕ → Run S Err LookupResponse → Run S Err (Option Bytes)
  unfolding text_of
  answer_of_lookup fuel (ok response s) = text_of fuel response s
  answer_of_lookup fuel (err e s) = ok none s
  answer_of_lookup fuel (abort s) = abort s

  -- `store.insert(key, Body(text))`, `store.lookup(key)` and `store.erase(key)`
  unfoldable pub run_op : ℕ → KvStore → KvOp → M S Err (Option Bytes)
  unfolding answer_of_lookup insert lookup erase
  run_op fuel store (put key text) = do
    body ← Body.from_string bodies text
    insert host store key body
    pure none
  run_op fuel store (look key) = λ s. answer_of_lookup fuel (lookup host store key s)
  run_op fuel store (remove key) = do erase host store key; pure none

  unfoldable pub run_all : ℕ → KvStore → List KvOp → M S Err (List (Option Bytes))
  unfolding run_op
  run_all fuel store [] = pure []
  run_all fuel store (op ∷ ops) = do
    a ← run_op fuel store op
    more ← run_all fuel store ops
    pure (a ∷ more)
