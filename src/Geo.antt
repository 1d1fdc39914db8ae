-- ===== src/Geo.antt =====
-- Geolocation, of include/fastly/geo.h and src/cpp/geo.cpp, over the bridge.
use compute_sdk_cpp.Prelude.{ℕ, Bool, Option, none, some, Bytes}
use compute_sdk_cpp.Prelude.Int.{ℤ}
use compute_sdk_cpp.Prelude.Effects.{M, pure, ◌>>=◌}
use compute_sdk_cpp.Host.Calls.{read, optional}
use compute_sdk_cpp.Host.Lookups.{GeoHost, UtcOffsetHost}

pub record Geo : Type 0 where
  pub geo : ℕ

pub record UtcOffset : Type 0 where
  pub offset : ℕ

-- A place, and an offset, over a box that is not null.
unfoldable pub geo_of : Option ℕ → Option Geo
geo_of none = none
geo_of (some box) = some (record { geo = box })

unfoldable pub offset_of : Option ℕ → Option UtcOffset
offset_of none = none
offset_of (some box) = some (record { offset = box })

module _ {S : Type 0} (host : UtcOffsetHost S) where
  unfoldable pub whole_hours : {E : Type 0} → UtcOffset → M S E ℤ
  whole_hours o = read (host.whole_hours o.offset)

  unfoldable pub whole_minutes : {E : Type 0} → UtcOffset → M S E ℤ
  whole_minutes o = read (host.whole_minutes o.offset)

  unfoldable pub minutes_past_hour : {E : Type 0} → UtcOffset → M S E ℤ
  minutes_past_hour o = read (host.minutes_past_hour o.offset)

  unfoldable pub whole_seconds : {E : Type 0} → UtcOffset → M S E ℤ
  whole_seconds o = read (host.whole_seconds o.offset)

  unfoldable pub seconds_past_minute : {E : Type 0} → UtcOffset → M S E ℤ
  seconds_past_minute o = read (host.seconds_past_minute o.offset)

  unfoldable pub is_utc : {E : Type 0} → UtcOffset → M S E Bool
  is_utc o = read (host.is_utc o.offset)

  unfoldable pub is_positive : {E : Type 0} → UtcOffset → M S E Bool
  is_positive o = read (host.is_positive o.offset)

  unfoldable pub is_negative : {E : Type 0} → UtcOffset → M S E Bool
  is_negative o = read (host.is_negative o.offset)

module _ {S Err Double : Type 0} (host : GeoHost S Err Double) where
  unfoldable pub geo_lookup : Bytes → M S Err (Option Geo)
  unfolding geo_of
  geo_lookup ip = do box ← host.geo_lookup ip; pure (geo_of box)

  unfoldable pub as_name : {E : Type 0} → Geo → M S E Bytes
  as_name g = read (host.as_name g.geo)

  unfoldable pub as_number : {E : Type 0} → Geo → M S E ℕ
  as_number g = read (host.as_number g.geo)

  unfoldable pub area_code : {E : Type 0} → Geo → M S E ℕ
  area_code g = read (host.area_code g.geo)

  unfoldable pub city : {E : Type 0} → Geo → M S E Bytes
  city g = read (host.city g.geo)

  unfoldable pub conn_speed : {E : Type 0} → Geo → M S E ℕ
  conn_speed g = read (host.conn_speed g.geo)

  unfoldable pub conn_type : {E : Type 0} → Geo → M S E ℕ
  conn_type g = read (host.conn_type g.geo)

  unfoldable pub continent : {E : Type 0} → Geo → M S E ℕ
  continent g = read (host.continent g.geo)

  unfoldable pub country_code : {E : Type 0} → Geo → M S E Bytes
  country_code g = read (host.country_code g.geo)

  unfoldable pub country_code3 : {E : Type 0} → Geo → M S E Bytes
  country_code3 g = read (host.country_code3 g.geo)

  unfoldable pub country_name : {E : Type 0} → Geo → M S E Bytes
  country_name g = read (host.country_name g.geo)

  unfoldable pub latitude : {E : Type 0} → Geo → M S E Double
  latitude g = read (host.latitude g.geo)

  unfoldable pub longitude : {E : Type 0} → Geo → M S E Double
  longitude g = read (host.longitude g.geo)

  unfoldable pub metro_code : {E : Type 0} → Geo → M S E ℤ
  metro_code g = read (host.metro_code g.geo)

  unfoldable pub postal_code : {E : Type 0} → Geo → M S E Bytes
  postal_code g = read (host.postal_code g.geo)

  unfoldable pub proxy_description : {E : Type 0} → Geo → M S E ℕ
  proxy_description g = read (host.proxy_description g.geo)

  unfoldable pub proxy_type : {E : Type 0} → Geo → M S E ℕ
  proxy_type g = read (host.proxy_type g.geo)

  unfoldable pub region : {E : Type 0} → Geo → M S E (Option Bytes)
  region g = optional (host.region g.geo)

  unfoldable pub utc_offset : {E : Type 0} → Geo → M S E (Option UtcOffset)
  unfolding offset_of
  utc_offset g = do box ← read (host.utc_offset g.geo); pure (offset_of box)
