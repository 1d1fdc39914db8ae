-- ===== src/Host/Lookups.antt =====
-- The functions behind the boxes of the config stores, secret stores, device detection and geolocation,
-- which src/config_store.rs, src/secret_store.rs, src/device_detection.rs and src/geo.rs forward to
-- the fastly crate. A box is a number; a box, or a pointer to a `bool`, that is null is `none`.
use compute_sdk_cpp.Prelude.{ℕ, Bool, Bytes, Option}
use compute_sdk_cpp.Prelude.Int.{ℤ}
use compute_sdk_cpp.Prelude.Effects.{M}

pub record ConfigStoreHost (S Err : Type 0) : Type 0 where
  pub config_store_open : Bytes → M S Err ℕ
  pub get : ℕ → Bytes → M S Err (Bool × Bytes)
  pub contains : ℕ → Bytes → M S Err Bool

pub record SecretStoreHost (S Err : Type 0) : Type 0 where
  pub secret_from_bytes : Bytes → M S Err ℕ
  pub secret_plaintext : ℕ → S → Bytes × S
  pub secret_store_open : Bytes → M S Err ℕ
  pub get : ℕ → Bytes → M S Err (Option ℕ)
  pub contains : ℕ → Bytes → M S Err Bool

pub record DeviceHost (S Err : Type 0) : Type 0 where
  pub device_detection_lookup : Bytes → M S Err (Option ℕ)
  pub device_name : ℕ → S → (Bool × Bytes) × S
  pub brand : ℕ → S → (Bool × Bytes) × S
  pub model : ℕ → S → (Bool × Bytes) × S
  pub hwtype : ℕ → S → (Bool × Bytes) × S
  pub is_ereader : ℕ → S → Option Bool × S
  pub is_gameconsole : ℕ → S → Option Bool × S
  pub is_mediaplayer : ℕ → S → Option Bool × S
  pub is_mobile : ℕ → S → Option Bool × S
  pub is_smarttv : ℕ → S → Option Bool × S
  pub is_tablet : ℕ → S → Option Bool × S
  pub is_tvplayer : ℕ → S → Option Bool × S
  pub is_desktop : ℕ → S → Option Bool × S
  pub is_touchscreen : ℕ → S → Option Bool × S

pub record UtcOffsetHost (S : Type 0) : Type 0 where
  pub whole_hours : ℕ → S → ℤ × S
  pub whole_minutes : ℕ → S → ℤ × S
  pub minutes_past_hour : ℕ → S → ℤ × S
  pub whole_seconds : ℕ → S → ℤ × S
  pub seconds_past_minute : ℕ → S → ℤ × S
  pub is_utc : ℕ → S → Bool × S
  pub is_positive : ℕ → S → Bool × S
  pub is_negative : ℕ → S → Bool × S

-- `Double` is the type of a `double`; the enumerations are numbers.
pub record GeoHost (S Err Double : Type 0) : Type 0 where
  pub geo_lookup : Bytes → M S Err (Option ℕ)
  pub as_name : ℕ → S → Bytes × S
  pub as_number : ℕ → S → ℕ × S
  pub area_code : ℕ → S → ℕ × S
  pub city : ℕ → S → Bytes × S
  pub conn_speed : ℕ → S → ℕ × S
  pub conn_type : ℕ → S → ℕ × S
  pub continent : ℕ → S → ℕ × S
  pub country_code : ℕ → S → Bytes × S
  pub country_code3 : ℕ → S → Bytes × S
  pub country_name : ℕ → S → Bytes × S
  pub latitude : ℕ → S → Double × S
  pub longitude : ℕ → S → Double × S
  pub metro_code : ℕ → S → ℤ × S
  pub postal_code : ℕ → S → Bytes × S
  pub proxy_description : ℕ → S → ℕ × S
  pub proxy_type : ℕ → S → ℕ × S
  pub region : ℕ → S → (Bool × Bytes) × S
  pub utc_offset : ℕ → S → Option ℕ × S
