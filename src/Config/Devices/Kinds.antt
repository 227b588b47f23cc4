-- ===== src/Config/Devices/Kinds.antt =====
-- `tranceiver::instantiate`: the kinds of tranceivers. What their constructors do besides keeping their
-- arguments is in Config/Registry.
use ham_router.Common.{ℕ, List, ◌==ₛ◌, if◌then◌else◌, Option, none, some, map, codes}
use ham_router.Filter.{FilterT}
use ham_router.Settings.{Libconfig, Loaded, exits, ◌>>=◌, set, text_at}
use ham_router.Config.Limits.{GpsConnector}
use ham_router.Config.Devices.{Device, set_kind}
use ham_router.Config.Devices.Radios.{
  KissKernel, KissTty, LoraSx1278, Beacon, instantiate_kiss_kernel, instantiate_kiss_tty,
  instantiate_lora_sx1278, instantiate_beacon,
}
use ham_router.Config.Devices.Servers.{
  AprsSi, AxudpSettings, Mqtt, DbMongodb, TranceiverDb, Ws, instantiate_aprs_si, instantiate_axudp,
  instantiate_mqtt, instantiate_db, instantiate_ws,
}

pub data Kind : Type 0 where
  aprs_si : AprsSi → Kind
  kiss_kernel : KissKernel → Kind
  kiss_tty : KissTty → Kind
  lora_sx1278 : LoraSx1278 → Kind
  axudp : AxudpSettings → Kind
  beacon : Beacon → Kind
  tranceiver_db : TranceiverDb → Kind
  mqtt : Mqtt → Kind
  ws : Ws → Kind

-- `dynamic_cast` to a tranceiver for a database, and its database.
abbrev get_db : Kind → Option (Option DbMongodb)
get_db (tranceiver_db t) = some t.d
get_db (aprs_si k) = none
get_db (kiss_kernel k) = none
get_db (kiss_tty k) = none
get_db (lora_sx1278 k) = none
get_db (axudp k) = none
get_db (beacon k) = none
get_db (mqtt k) = none
get_db (ws k) = none

abbrev pub databases : List (Device Kind) → List (List ℕ × Option (Option DbMongodb))
databases ts = map (λ t. (t.id, get_db t.kind)) ts

-- A tranceiver of a kind.
abbrev new : {K : Type 0} → (K → Kind) → Loaded (Device K) → Loaded (Device Kind)
new f r = set r (λ d. set_kind f d)

abbrev pub get_type_name : Kind → List ℕ
get_type_name (aprs_si k) = codes "APRS-SI"
get_type_name (kiss_kernel k) = codes "KISS-kernel"
get_type_name (kiss_tty k) = codes "KISS-tty"
get_type_name (lora_sx1278 k) = codes "LoRa-SX1278"
get_type_name (axudp k) = codes "AXUDP"
get_type_name (beacon k) = codes "beacon"
get_type_name (tranceiver_db k) = codes "MongoDB"
get_type_name (mqtt k) = codes "MQTT"
get_type_name (ws k) = codes "WebSockets"

module _ (c : Libconfig) where
  open c use {Setting}

  unfoldable pub instantiate :
      List (List ℕ × FilterT)
      → List (Device Kind)
      → Option GpsConnector
      → Setting
      → Loaded (Device Kind)
  instantiate filters tranceivers gps node = text_at c node (codes "type") >>= λ type.
      if codes "aprs-si" ==ₛ type
      then new aprs_si (instantiate_aprs_si c node gps)
      else if codes "kiss-kernel" ==ₛ type
      then new kiss_kernel (instantiate_kiss_kernel c node gps)
      else if codes "kiss-tty" ==ₛ type
      then new kiss_tty (instantiate_kiss_tty c node gps)
      else if codes "lora-sx1278" ==ₛ type
      then new lora_sx1278 (instantiate_lora_sx1278 c node gps)
      else if codes "axudp" ==ₛ type
      then new axudp (instantiate_axudp c filters node gps)
      else if codes "beacon" ==ₛ type
      then new beacon (instantiate_beacon c node gps)
      else if codes "database" ==ₛ type
      then new tranceiver_db (instantiate_db c node gps)
      else if codes "mqtt" ==ₛ type
      then new mqtt (instantiate_mqtt c node gps)
      else if codes "http-ws" ==ₛ type
      then new ws (instantiate_ws c (databases tranceivers) node gps)
      else exits
