-- ===== src/DeviceDetection.antt =====
-- Device detection, of include/fastly/device_detection.h and src/cpp/device_detection.cpp, over the bridge.
use compute_sdk_cpp.Prelude.{ℕ, Bool, Option, none, some, Bytes}
use compute_sdk_cpp.Prelude.Effects.{M, pure, ◌>>=◌}
use compute_sdk_cpp.Host.Calls.{read, optional}
use compute_sdk_cpp.Host.Lookups.{DeviceHost}

pub record Device : Type 0 where
  pub dev : ℕ

-- A device over a box that is not null.
unfoldable pub device_of : Option ℕ → Option Device
device_of none = none
device_of (some box) = some (record { dev = box })

module _ {S Err : Type 0} (host : DeviceHost S Err) where
  unfoldable pub lookup : Bytes → M S Err (Option Device)
  unfolding device_of
  lookup user_agent = do box ← host.device_detection_lookup user_agent; pure (device_of box)

  unfoldable pub device_name : {E : Type 0} → Device → M S E (Option Bytes)
  device_name d = optional (host.device_name d.dev)

  unfoldable pub brand : {E : Type 0} → Device → M S E (Option Bytes)
  brand d = optional (host.brand d.dev)

  unfoldable pub model : {E : Type 0} → Device → M S E (Option Bytes)
  model d = optional (host.model d.dev)

  unfoldable pub hwtype : {E : Type 0} → Device → M S E (Option Bytes)
  hwtype d = optional (host.hwtype d.dev)

  -- A pointer that is null is `none`, and one that is not is read.
  unfoldable pub is_ereader : {E : Type 0} → Device → M S E (Option Bool)
  is_ereader d = read (host.is_ereader d.dev)

  unfoldable pub is_gameconsole : {E : Type 0} → Device → M S E (Option Bool)
  is_gameconsole d = read (host.is_gameconsole d.dev)

  unfoldable pub is_mediaplayer : {E : Type 0} → Device → M S E (Option Bool)
  is_mediaplayer d = read (host.is_mediaplayer d.dev)

  unfoldable pub is_mobile : {E : Type 0} → Device → M S E (Option Bool)
  is_mobile d = read (host.is_mobile d.dev)

  unfoldable pub is_smarttv : {E : Type 0} → Device → M S E (Option Bool)
  is_smarttv d = read (host.is_smarttv d.dev)

  unfoldable pub is_tablet : {E : Type 0} → Device → M S E (Option Bool)
  is_tablet d = read (host.is_tablet d.dev)

  unfoldable pub is_tvplayer : {E : Type 0} → Device → M S E (Option Bool)
  is_tvplayer d = read (host.is_tvplayer d.dev)

  unfoldable pub is_desktop : {E : Type 0} → Device → M S E (Option Bool)
  is_desktop d = read (host.is_desktop d.dev)

  unfoldable pub is_touchscreen : {E : Type 0} → Device → M S E (Option Bool)
  is_touchscreen d = read (host.is_touchscreen d.dev)
