-- ===== src/Cache/Core/InsertBuilder/Laws.antt =====
-- The settings of an insertion are independent: of each kind the last one counts.
use compute_sdk_cpp.Prelude.{ℕ, ◌≡◌, refl, Bool, List, [], ◌∷◌, Option, none, some, Bytes}
use compute_sdk_cpp.Prelude.Int.{ℤ}
use compute_sdk_cpp.Cache.Core.Options.{WriteOptions}
use compute_sdk_cpp.Cache.Core.Join.{join_strings}
use compute_sdk_cpp.Cache.Core.InsertBuilder.{
  InsertBuilder, vary_by, initial_age, stale_while_revalidate, surrogate_keys, known_length,
  user_metadata, sensitive_data, deliver_node_max_age, on_behalf_of,
}

-- A call of a builder method, those of the header methods excepted.
pub data Setting : Type 0 where
  vary : List Bytes → Setting
  age : ℤ → Setting
  stale : ℤ → Setting
  surrogates : List Bytes → Setting
  known : ℕ → Setting
  metadata : Bytes → Setting
  sensitive : Bool → Setting
  deliver : ℤ → Setting
  behalf : Bytes → Setting

pub apply : Setting → InsertBuilder → InsertBuilder
apply (vary headers) = vary_by headers
apply (age d) = initial_age d
apply (stale d) = stale_while_revalidate d
apply (surrogates keys) = surrogate_keys keys
apply (known n) = known_length n
apply (metadata bytes) = user_metadata bytes
apply (sensitive b) = sensitive_data b
apply (deliver d) = deliver_node_max_age d
apply (behalf service) = on_behalf_of service

pub apply_all : List Setting → InsertBuilder → InsertBuilder
apply_all [] b = b
apply_all (x ∷ xs) b = apply_all xs (apply x b)

-- The last value that `pick` finds in the settings, or `start`.
abbrev pub last_or : {A : Type 0} → (Setting → Option A) → A → List Setting → A
last_or pick start [] = start
last_or pick start (x ∷ xs) = last_or pick (elim (pick x) [ none ↦ start | some a ↦ a ]) xs

-- Empty lists of headers and keys set nothing.
abbrev pub picked_vary : Setting → Option (Option Bytes)
picked_vary (vary (h ∷ hs)) = some (some (join_strings (h ∷ hs) b' '))
picked_vary _ = none

abbrev pub picked_surrogates : Setting → Option (Option Bytes)
picked_surrogates (surrogates (k ∷ ks)) = some (some (join_strings (k ∷ ks) b' '))
picked_surrogates _ = none

abbrev pub picked_age : Setting → Option (Option ℤ)
picked_age (age d) = some (some d)
picked_age _ = none

abbrev pub picked_stale : Setting → Option (Option ℤ)
picked_stale (stale d) = some (some d)
picked_stale _ = none

abbrev pub picked_deliver : Setting → Option (Option ℤ)
picked_deliver (deliver d) = some (some d)
picked_deliver _ = none

abbrev pub picked_known : Setting → Option (Option ℕ)
picked_known (known n) = some (some n)
picked_known _ = none

abbrev pub picked_metadata : Setting → Option (Option Bytes)
picked_metadata (metadata bytes) = some (some bytes)
picked_metadata _ = none

abbrev pub picked_behalf : Setting → Option (Option Bytes)
picked_behalf (behalf service) = some (some service)
picked_behalf _ = none

abbrev pub picked_sensitive : Setting → Option Bool
picked_sensitive (sensitive b) = some b
picked_sensitive _ = none

-- Each field by itself.
abbrev pub configured : List Setting → WriteOptions → WriteOptions
configured xs o = record {
  max_age = o.max_age;
  request_headers = o.request_headers;
  vary_rule = last_or picked_vary o.vary_rule xs;
  initial_age = last_or picked_age o.initial_age xs;
  stale_while_revalidate = last_or picked_stale o.stale_while_revalidate xs;
  surrogate_keys = last_or picked_surrogates o.surrogate_keys xs;
  length = last_or picked_known o.length xs;
  user_metadata = last_or picked_metadata o.user_metadata xs;
  sensitive_data = last_or picked_sensitive o.sensitive_data xs;
  edge_max_age = last_or picked_deliver o.edge_max_age xs;
  service = last_or picked_behalf o.service xs;
}

-- After any calls in any order, each option is the one that the last call of its method gave, if
-- that method was called (with a list that is not empty), and what it was otherwise. The key, the
-- maximum age and the request headers stay.
pub apply_all-configured :
    (xs : List Setting) (b : InsertBuilder)
    → apply_all xs b ≡ record { key = b.key; options = configured xs b.options }
unfolding apply_all apply vary_by initial_age stale_while_revalidate surrogate_keys known_length
    user_metadata sensitive_data deliver_node_max_age on_behalf_of
apply_all-configured [] b = refl
apply_all-configured (vary [] ∷ xs) b = apply_all-configured xs b
apply_all-configured (vary (h ∷ hs) ∷ xs) b = apply_all-configured xs _
apply_all-configured (age d ∷ xs) b = apply_all-configured xs _
apply_all-configured (stale d ∷ xs) b = apply_all-configured xs _
apply_all-configured (surrogates [] ∷ xs) b = apply_all-configured xs b
apply_all-configured (surrogates (k ∷ ks) ∷ xs) b = apply_all-configured xs _
apply_all-configured (known n ∷ xs) b = apply_all-configured xs _
apply_all-configured (metadata m ∷ xs) b = apply_all-configured xs _
apply_all-configured (sensitive s ∷ xs) b = apply_all-configured xs _
apply_all-configured (deliver d ∷ xs) b = apply_all-configured xs _
apply_all-configured (behalf s ∷ xs) b = apply_all-configured xs _
