-- ===== src/Cache/Core/Handles.antt =====
-- The handle classes of include/fastly/cache/core.h, the objects that share them, and the macro
-- `CACHE_TRY` of src/cpp/cache/core.cpp. A `std::shared_ptr` to a handle object is the number that
-- the object holds; `drop_cache_handle` and the like are the destructors, which run when the last
-- owner goes. A function below that returns an owner leaves that to its caller.
use compute_sdk_cpp.Prelude.{ℕ, Bool, not, bit_and, ◌==◌, if◌then◌else◌}
use compute_sdk_cpp.Prelude.Effects.{M, ok, err, abort}
use compute_sdk_cpp.Host.{Call, CacheHost, is_ok}
use compute_sdk_cpp.Cache.Core.Options.{CacheError, from_status}

pub record Transaction : Type 0 where
  pub handle : ℕ

pub record PendingTransaction : Type 0 where
  pub handle : ℕ

-- The variant that `Found` holds: a `CacheHandle` or a `CacheReplaceHandle`.
pub data Found : Type 0 where
  cached : ℕ → Found
  replacing : ℕ → Found

module _ {S A : Type 0} where
  unfoldable pub cache_try : Call S A → M S CacheError A
  cache_try call s =
      let (status, out, s1) = call s in
      if is_ok status then ok out s1 else err (from_status status) s1

  -- `if (!status.is_ok()) { std::cerr << …; abort(); }`
  unfoldable pub require : {E : Type 0} → Call S A → M S E A
  require call s = let (status, out, s1) = call s in if is_ok status then ok out s1 else abort s1

-- `state & flag`, as a condition
abbrev pub has_state : ℕ → ℕ → Bool
has_state state flag = not (bit_and state flag == 0)

module _ {S : Type 0} (host : CacheHost S) where
  -- `CacheHandle::~CacheHandle`
  unfoldable pub drop_cache_handle : ℕ → S → S
  drop_cache_handle = host.cache_close

  -- `CacheReplaceHandle::~CacheReplaceHandle`
  unfoldable pub drop_cache_replace_handle : ℕ → S → S
  drop_cache_replace_handle = host.cache_close

  -- `CacheBusyHandle::~CacheBusyHandle`
  unfoldable pub drop_cache_busy_handle : ℕ → S → S
  drop_cache_busy_handle = host.cache_close
