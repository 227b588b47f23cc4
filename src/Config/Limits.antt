-- ===== src/Config/Limits.antt =====
-- The functions `instantiate` of seen.cpp and gps.cpp.
use ham_router.Common.{
  ℕ, List, [], Bool, true, false, not, ◌&&◌, ◌^◌, ◌==◌, ◌==ₛ◌, if◌then◌else◌, Option, none, some,
  codes,
}
use ham_router.Settings.{
  Libconfig, Loaded, loaded, exits, ◌>>=◌, set, text_at, int_at, double_at, settings,
}

-- The position that the configuration sets, in the bits of doubles, and that of the GPS.
pub record GpsConnector : Type 0 where
  pub default_position : Option (ℕ × ℕ)
  pub current_position : Option (ℕ × ℕ)
  pub host : List ℕ
  pub port : ℕ

unfoldable pub get_position : GpsConnector → Option (ℕ × ℕ)
get_position gps = elim gps.current_position [
  | some position ↦ some position
  | none ↦ gps.default_position
]

-- The bound on a hash, its interval as an `int`, and the number of hashes.
pub record SeenT : Type 0 where
  pub max_per_dt : ℕ
  pub dt : ℕ
  pub max_seen_elements : ℕ

-- The variables of `gps_connector::instantiate`.
pub record GpsSettings : Type 0 where
  pub lat_set : Bool
  pub lng_set : Bool
  pub gpsd_host : List ℕ
  pub gpsd_port : ℕ
  pub latitude : ℕ
  pub longitude : ℕ

abbrev no_gps_settings : GpsSettings
no_gps_settings = record {
  lat_set = false;
  lng_set = false;
  gpsd_host = [];
  gpsd_port = 2947;
  latitude = 0;
  longitude = 0;
}

-- A double is 0 or -0.
abbrev pub is_zero : ℕ → Bool
is_zero d = if d == 0 then true else d == 2 ^ 63

abbrev same : Bool → Bool → Bool
same true b = b
same false b = not b

-- What follows the loop of `gps_connector::instantiate`. No GPS is connected yet.
unfoldable pub checked_gps : GpsSettings → Loaded GpsConnector
checked_gps g =
    if not (same g.lat_set g.lng_set)
    then exits
    else if g.lat_set && (is_zero g.latitude && is_zero g.longitude)
    then exits
    else loaded (record {
      default_position = if g.lat_set then some (g.latitude, g.longitude) else none;
      current_position = none;
      host = g.gpsd_host;
      port = g.gpsd_port;
    })

module _ (c : Libconfig) where
  open c use {Setting}

  -- A round of the loop of `seen::instantiate`.
  unfoldable pub seen_setting : Setting → List ℕ → Setting → SeenT → Loaded SeenT
  seen_setting node_in type node s =
      if codes "max-per-interval" ==ₛ type
      then set (int_at c node_in type) (λ v. record s { max_per_dt = v })
      else if codes "interval-duration" ==ₛ type
      then set (int_at c node_in type) (λ v. record s { dt = v })
      else if codes "max-n-elements" ==ₛ type
      then set (int_at c node_in type) (λ v. record s { max_seen_elements = v })
      else exits

  unfoldable pub instantiate_seen : Setting → Loaded SeenT
  instantiate_seen node_in =
      settings c (seen_setting node_in) node_in
        (record { max_per_dt = 0; dt = 0; max_seen_elements = 0 })

  -- A round of the loop of `gps_connector::instantiate`.
  unfoldable pub gps_setting : Setting → List ℕ → Setting → GpsSettings → Loaded GpsSettings
  gps_setting node_in type node g =
      if codes "local-latitude" ==ₛ type
      then set (double_at c node_in type) (λ v. record g { latitude = v; lat_set = true })
      else if codes "local-longitude" ==ₛ type
      then set (double_at c node_in type) (λ v. record g { longitude = v; lng_set = true })
      else if codes "gpsd-host" ==ₛ type
      then set (text_at c node_in type) (λ v. record g { gpsd_host = v })
      else if codes "gpsd-port" ==ₛ type
      then set (int_at c node_in type) (λ v. record g { gpsd_port = v })
      else exits

  unfoldable pub instantiate_gps : Setting → Loaded GpsConnector
  unfolding checked_gps
  instantiate_gps node_in =
      settings c (gps_setting node_in) node_in no_gps_settings >>= λ g. checked_gps g
