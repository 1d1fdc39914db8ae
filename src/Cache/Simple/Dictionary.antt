-- ===== src/Cache/Simple/Dictionary.antt =====
-- What the Simple Cache of src/cpp/cache/simple.cpp promises where nothing expires: a
-- dictionary of texts, with the client programs that get, get or set, and purge.
use compute_sdk_cpp.Prelude.{
  ℕ, Bool, ◌++◌, ◌||◌, if◌then◌else◌, List, [], ◌∷◌, Option, none, some, Bytes,
}
use compute_sdk_cpp.Prelude.Int.{ℤ}
use compute_sdk_cpp.Prelude.Effects.{M, pure, ◌>>=◌, ◌>>◌}
use compute_sdk_cpp.Host.{CacheHost}
use compute_sdk_cpp.Host.Bodies.{BodyHost}
use compute_sdk_cpp.Host.Purge.{PurgeHost, Scope}
use compute_sdk_cpp.Http.Body
use compute_sdk_cpp.Http.Body.{Body}
use compute_sdk_cpp.KvStore.Dictionary.{Dictionary, update, same_bytes}
use compute_sdk_cpp.Cache.Simple.SurrogateKeys.{hashed}
use compute_sdk_cpp.Cache.Simple.{CacheError, get, get_or_set, purge_with_opts}

pub data CacheOp : Type 0 where
  fetch : Bytes → CacheOp
  fetch_or_set : Bytes → Bytes → ℤ → CacheOp
  drop_key : Bytes → Scope → CacheOp

-- `or_text found text` is what is found, or the text.
abbrev pub or_text : Option Bytes → Bytes → Bytes
or_text none text = text
or_text (some found) text = found

abbrev pub answer : CacheOp → Dictionary → Option Bytes
answer (fetch key) d = d key
answer (fetch_or_set key text ttl) d = some (or_text (d key) text)
answer (drop_key key scope) d = none

abbrev pub kept_or_set : Option Bytes → Bytes → Bytes → Dictionary → Dictionary
kept_or_set none key text d = update key (some text) d
kept_or_set (some found) key text d = d

-- Whether a purge of the first key takes out the second: if what is hashed for the purge is hashed for
-- the second key, in one scope or the other. A key is hashed for one POP with the name of the POP behind
-- it.
abbrev pub takes_out : Bytes → Bytes → Scope → Bytes → Bool
takes_out pop_name key scope k =
    same_bytes (hashed pop_name key scope) (k ++ pop_name)
    || same_bytes (hashed pop_name key scope) k

-- The dictionary after an operation, at the POP of that name.
abbrev pub after : Bytes → CacheOp → Dictionary → Dictionary
after pop_name (fetch key) d = d
after pop_name (fetch_or_set key text ttl) d = kept_or_set (d key) key text d
after pop_name (drop_key key scope) d = λ k. if takes_out pop_name key scope k then none else d k

abbrev pub answers : Bytes → List CacheOp → Dictionary → List (Option Bytes)
answers pop_name [] d = []
answers pop_name (op ∷ ops) d = answer op d ∷ answers pop_name ops (after pop_name op d)

abbrev pub after_all : Bytes → List CacheOp → Dictionary → Dictionary
after_all pop_name [] d = d
after_all pop_name (op ∷ ops) d = after_all pop_name ops (after pop_name op d)

module _ {S Err : Type 0} (cache : CacheHost S) (bodies : BodyHost S Err)
    (purges : PurgeHost S Err) where
  unfoldable pub read_text : ℕ → Body → M S CacheError (Option Bytes)
  read_text fuel body = do (text, _) ← Body.take_body_string bodies fuel body; pure (some text)

  unfoldable pub read_opt : ℕ → Option Body → M S CacheError (Option Bytes)
  unfolding read_text
  read_opt fuel none = pure none
  read_opt fuel (some body) = read_text fuel body

  -- The text of `get(key)` and of `get_or_set(key, Body(text), ttl)`, and
  -- `purge_with_opts(key, PurgeOptions(scope))`.
  unfoldable pub run_op : ℕ → CacheOp → M S CacheError (Option Bytes)
  unfolding read_opt
  run_op fuel (fetch key) = do opt ← get cache bodies purges key; read_opt fuel opt
  run_op fuel (fetch_or_set key text ttl) = do
    value ← Body.from_string bodies text
    body ← get_or_set cache bodies purges key value ttl
    read_text fuel body
  run_op fuel (drop_key key scope) = do
    purge_with_opts cache bodies purges key (record { scope = scope })
    pure none

  unfoldable pub run_all : ℕ → List CacheOp → M S CacheError (List (Option Bytes))
  unfolding run_op
  run_all fuel [] = pure []
  run_all fuel (op ∷ ops) = do a ← run_op fuel op; more ← run_all fuel ops; pure (a ∷ more)
