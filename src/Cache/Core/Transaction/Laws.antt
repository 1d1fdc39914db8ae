-- ===== src/Cache/Core/Transaction/Laws.antt =====
-- How the answers of a transaction fit together.
use compute_sdk_cpp.Prelude.{◌≡◌, ◌↔◌, true, none, arith}
use compute_sdk_cpp.Prelude.Effects.{ok}
use compute_sdk_cpp.Host.{CacheHost}
use compute_sdk_cpp.Cache.Core.Handles.{Transaction, require}
use compute_sdk_cpp.Cache.Core.Transaction.{must_insert, must_insert_or_update, found}

-- In every state, `must_insert` says yes exactly if `must_insert_or_update` says yes and nothing was
-- found, whatever the host answers.
pub must_insert_iff :
    {S : Type 0} (host : CacheHost S) (E : Type 0) (t : Transaction) (s s' : S)
    → (must_insert host {E = E} t s ≡ ok true s') ↔ (
        (must_insert_or_update host {E = E} t s ≡ ok true s')
        × (found host {E = E} t s ≡ ok none s'))
unfolding must_insert must_insert_or_update found require
must_insert_iff host E t s s' = (λ h. ground arith, λ h. ground arith)
