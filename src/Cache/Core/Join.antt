-- ===== src/Cache/Core/Join.antt =====
-- `join_strings` of src/cpp/cache/core.cpp.
use compute_sdk_cpp.Prelude.{ℕ, ◌≡◌, ◌≢◌, refl, ◌∙◌, ap, Bool, true, false, List, [], ◌∷◌, ◌++◌}
use compute_sdk_cpp.Prelude.{Bytes, append_assoc, append-nil, if◌then◌else◌}
use compute_sdk_cpp.Prelude.Split.{NoneHold, split_on, split_on-append, split_on_last}

-- The loop: `oss` is what was written so far.
join_loop : ℕ → Bool → Bytes → List Bytes → Bytes
join_loop delimiter first oss [] = oss
join_loop delimiter first oss (item ∷ items) =
    join_loop delimiter false ((if first then oss else oss ++ delimiter ∷ []) ++ item) items

unfoldable pub join_strings : List Bytes → ℕ → Bytes
unfolding join_loop
join_strings items delimiter = join_loop delimiter true [] items

tail_of : ℕ → List Bytes → Bytes
tail_of d [] = []
tail_of d (x ∷ xs) = d ∷ (x ++ tail_of d xs)

join_loop-tail :
    (d : ℕ) (oss : Bytes) (items : List Bytes)
    → join_loop d false oss items ≡ oss ++ tail_of d items
unfolding join_loop tail_of
join_loop-tail d oss [] = simp append-nil
join_loop-tail d oss (x ∷ xs) = join_loop-tail d ((oss ++ d ∷ []) ++ x) xs ∙ simp append_assoc

split_on-tail :
    (d : ℕ) (x : Bytes) (items : List Bytes)
    → NoneHold d (x ∷ items)
    → split_on d (x ++ tail_of d items) ≡ x ∷ items
unfolding tail_of
split_on-tail d x [] h = rw append-nil (split_on_last d x h.0)
split_on-tail d x (y ∷ items) h =
    split_on-append d x (y ++ tail_of d items) h.0 ∙ ap (λ t. x ∷ t) (split_on-tail d y items h.1)

-- Cut at the delimiter, the joined string is the list of items, if there is an item and none holds
-- the delimiter.
pub split_on-join_strings :
    (items : List Bytes) (delimiter : ℕ)
    → items ≢ []
    → NoneHold delimiter items
    → split_on delimiter (join_strings items delimiter) ≡ items
unfolding join_strings
split_on-join_strings [] d some_item h = absurd (some_item refl)
split_on-join_strings (x ∷ xs) d some_item h = rw (join_loop-tail d x xs) (split_on-tail d x xs h)
