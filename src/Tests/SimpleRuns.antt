-- ===== src/Tests/SimpleRuns.antt =====
-- Runs of the models of src/cpp/cache/simple.cpp.
use compute_sdk_cpp.Prelude.{ℕ, ◌≤◌, ◌≡◌, ◌≢◌, refl, [], ◌∷◌, none, some, Bytes}
use compute_sdk_cpp.Prelude.Int.{pos}
use compute_sdk_cpp.Prelude.Split.{split_on}
use compute_sdk_cpp.Prelude.Effects.{ok, Run, pure, throw, ◌>>=◌}
use compute_sdk_cpp.Http.Body
use compute_sdk_cpp.Http.Body.{Body, from_handle}
use compute_sdk_cpp.Cache.Core.Options.{write_options}
use compute_sdk_cpp.Cache.Core.Handles.{Transaction, cached, cache_try, require}
use compute_sdk_cpp.Cache.Core.Transaction
use compute_sdk_cpp.Cache.Core.TransactionLookupBuilder
use compute_sdk_cpp.Cache.Simple.{
  other, MakeEntry, get, get_or_set, get_or_set_with, entry_of, or_value, entry_builder,
  surrogate_key_for_cache_key,
}
use compute_sdk_cpp.Cache.Simple.Ends.{Ends, returned}
use compute_sdk_cpp.Cache.Simple.Insertion.{get_or_set-inserts}
use compute_sdk_cpp.Cache.Core.TransactionInsertBuilder
use compute_sdk_cpp.Cache.Simple.Balance.{get_or_set_with-Ends}
use compute_sdk_cpp.Cache.Simple.Handles.{get-Ends, left_open}
use compute_sdk_cpp.Cache.Simple.Laws.{get_or_set-never_missing, entry_builder_lem}
use compute_sdk_cpp.Tests.Toys.{
  uncounted_cache, toy_bodies, toy_bodies-StreamsBack, toy_cache, toy_cache-CountsHandles,
  blind_bodies, blind_bodies-IgnoresHandles, toy_purges,
}

-- A callback that makes nothing.
abbrev makes_nothing : MakeEntry ℕ
makes_nothing = record { call = pure none; drop = λ n. n }

get_or_set-never_missing_example :
    (get_or_set_with (toy_cache 8 []) blind_bodies toy_purges (b'k' ∷ []) makes_nothing 0
      ≢ ok none 0)
    × (get_or_set (toy_cache 8 []) blind_bodies toy_purges (b'k' ∷ []) (from_handle 2) (pos 60) 0
        ≡ (Body.move blind_bodies (from_handle 2) >>= λ val.
              get_or_set_with
                (toy_cache 8 [])
                blind_bodies
                toy_purges
                (b'k' ∷ [])
                (entry_of (toy_cache 8 []) blind_bodies toy_purges val (pos 60))
              >>= or_value (toy_cache 8 []) blind_bodies toy_purges (throw other))
            0)
get_or_set-never_missing_example =
    get_or_set-never_missing (toy_cache 8 []) blind_bodies toy_purges (b'k' ∷ []) makes_nothing
      (from_handle 2) (pos 60) (throw other) 0 0

abbrev tx : Transaction
tx = record { handle = 4 }

-- A callback that makes nothing, and one that takes the process down.
abbrev refuses : MakeEntry ℕ
refuses = record { call = pure none; drop = λ n. n }

abbrev aborts : MakeEntry ℕ
aborts = record { call = λ n. Run.abort n; drop = λ n. n }

entry_builder_example :
    (joined : Bytes) × (split_on b' ' joined
      ≡ (80 ∷ (b'k' ∷ b'e' ∷ b'y' ∷ [])) ∷ (71 ∷ (b'k' ∷ b'e' ∷ b'y' ∷ [])) ∷ [])
    × (entry_builder (toy_cache 8 []) blind_bodies toy_purges (b'k' ∷ b'e' ∷ b'y' ∷ []) (pos 60) tx
        ≡ record {
          handle = 4;
          options = record (write_options (pos 60)) { surrogate_keys = some joined };
        })
unfolding surrogate_key_for_cache_key
entry_builder_example =
    entry_builder_lem (toy_cache 8 []) blind_bodies toy_purges (b'k' ∷ b'e' ∷ b'y' ∷ []) (pos 60) tx
      (refl, (refl, tt))

get-Ends_example :
    Ends
      (λ n. n)
      (λ r m.
        m ≡ left_open (toy_cache 1 []) blind_bodies toy_purges (toy_cache-CountsHandles 1 []) 2 r)
      (λ m. (2 ≤ m) × (m ≤ 3))
      (get (toy_cache 1 []) blind_bodies toy_purges (b'k' ∷ b'e' ∷ b'y' ∷ []) 2)
unfolding toy_cache-CountsHandles
get-Ends_example =
    get-Ends (toy_cache 1 []) blind_bodies toy_purges (toy_cache-CountsHandles 1 [])
      (b'k' ∷ b'e' ∷ b'y' ∷ []) 2

-- A callback that makes an entry of the body 3.
abbrev makes : MakeEntry ℕ
makes = record {
  call = pure (some (record { value = from_handle 3; ttl = pos 60 }));
  drop = λ n. n;
}

get_or_set_with-Ends_example :
    Ends
      (λ n. n)
      (λ _ m. m ≡ 2)
      (λ m. (2 ≤ m) × (m ≤ 3))
      (get_or_set_with (toy_cache 8 []) blind_bodies toy_purges (b'k' ∷ []) makes 2)
unfolding toy_cache-CountsHandles
get_or_set_with-Ends_example =
    get_or_set_with-Ends (toy_cache 8 []) blind_bodies toy_purges (toy_cache-CountsHandles 8 [])
      blind_bodies-IgnoresHandles (b'k' ∷ []) makes
      (record { call_keeps = λ s. returned refl; drop_keeps = λ s. refl }) 2

get_or_set-inserts_example :
    (h : ℕ) × (s' : Bytes) × (get_or_set uncounted_cache
        (toy_bodies (b'h' ∷ b'i' ∷ []))
        toy_purges
        (b'k' ∷ [])
        (from_handle 2)
        (pos 60)
        []
      ≡ ok (from_handle h) s')
    × (s' ≡ b'h' ∷ b'i' ∷ [])
unfolding TransactionLookupBuilder.execute cache_try Transaction.must_insert_or_update require
    TransactionInsertBuilder.execute_and_stream_back toy_bodies-StreamsBack
get_or_set-inserts_example =
    get_or_set-inserts uncounted_cache (toy_bodies (b'h' ∷ b'i' ∷ [])) toy_purges (b'k' ∷ []) 2
      (pos 60) tx 8 (cached 5) [] [] [] [] refl refl refl
      (toy_bodies-StreamsBack (b'h' ∷ b'i' ∷ []) 2 8) refl
