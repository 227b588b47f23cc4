-- ===== src/Config/Devices/Servers.antt =====
-- `instantiate` of tranceiver-aprs-si.cpp, tranceiver-axudp.cpp, tranceiver-mqtt.cpp, tranceiver-db.cpp
-- and tranceiver-ws.cpp.
use ham_router.Common.{
  ℕ, List, [], ◌∷◌, ◌++◌, length, Bool, false, ◌==◌, ◌==ₛ◌, ◌||◌, if◌then◌else◌, Option, none, some,
  codes,
}
use ham_router.Common.Assoc
use ham_router.Filter.{FilterT}
use ham_router.Settings.{
  Libconfig, Loaded, loaded, exits, aborts, ◌>>=◌, each, set, minus_one, text_at, int_at, bool_at,
  settings,
}
use ham_router.Axudp.{Peer}
use ham_router.Config.Limits.{GpsConnector}
use ham_router.Config.Devices.{Device, device, own, id_or, limits_or, type_or_exit}

pub record AprsSi : Type 0 where
  pub aprs_user : List ℕ
  pub aprs_pass : List ℕ
  pub local_callsign : List ℕ

pub record AxudpSettings : Type 0 where
  pub listen_port : ℕ
  pub peers : List Peer
  pub continue_on_error : Bool
  pub distribute : Bool

pub record Mqtt : Type 0 where
  pub mqtt_host : List ℕ
  pub mqtt_port : ℕ
  pub topic_in : List ℕ
  pub topic_out : List ℕ
  pub topic_out_json : List ℕ

pub record DbMongodb : Type 0 where
  pub uri : List ℕ
  pub database : List ℕ
  pub collection : List ℕ

-- The database of a tranceiver can be the null pointer.
pub record TranceiverDb : Type 0 where
  pub settings_of_db : DbMongodb
  pub d : Option DbMongodb

pub record Ws : Type 0 where
  pub http_port : ℕ
  pub ws_port : ℕ
  pub ws_url : List ℕ
  pub ws_ssl_enabled : Bool
  pub ws_ssl_cert : List ℕ
  pub ws_ssl_priv_key : List ℕ
  pub ws_ssl_ca : List ℕ
  pub d : Option DbMongodb

-- The peer that the innermost loop of `tranceiver_axudp::instantiate` fills in.
abbrev no_peer : Peer
no_peer = ([], none)

-- A filter that must be there.
abbrev pub defined_filter : List (List ℕ × FilterT) → List ℕ → Loaded FilterT
defined_filter filters name = elim (Assoc.find name filters) [ none ↦ exits | some f ↦ loaded f ]

-- The database of the first tranceiver with an id, which must be one for a database.
unfoldable pub traffic_db :
    List ℕ
    → List (List ℕ × Option (Option DbMongodb))
    → Option DbMongodb
    → Loaded (Option DbMongodb)
traffic_db id [] d = loaded d
traffic_db id ((j, t) ∷ more) d =
    let rest = traffic_db id more d in
    if j ==ₛ id then elim t [ none ↦ exits | some e ↦ loaded e ] else rest

abbrev found_db : Option DbMongodb → Loaded (Option DbMongodb)
found_db none = exits
found_db (some d) = loaded (some d)

-- What follows the loop of `tranceiver_db::instantiate`.
unfoldable pub opened_db : Device TranceiverDb → Loaded (Device TranceiverDb)
opened_db t =
    let k = t.kind.settings_of_db in
    if length k.uri == 0
    then loaded t
    else if length k.database == 0 || length k.collection == 0
    then exits
    else loaded (record t { kind = record t.kind { d = some k } })

-- What follows the loop of `tranceiver_aprs_si::instantiate`.
unfoldable pub checked_aprs_si : Device AprsSi → Loaded (Device AprsSi)
checked_aprs_si t =
    if length t.kind.aprs_user == 0
    then exits
    else if length t.kind.local_callsign == 0
    then exits
    else loaded t

unfoldable pub checked_mqtt : Device Mqtt → Loaded (Device Mqtt)
checked_mqtt t = if length t.kind.mqtt_host == 0 then exits else loaded t

module _ (c : Libconfig) where
  open c use {Setting, elements}

  unfoldable pub aprs_si_setting :
      Setting → List ℕ → Setting → Device AprsSi → Loaded (Device AprsSi)
  aprs_si_setting node_in type node d =
      let k = d.kind in
      id_or c node_in type d (
        limits_or c aborts node type d (
          if codes "aprs-user" ==ₛ type
          then own d (text_at c node_in type) (λ v. record k { aprs_user = v })
          else if codes "aprs-pass" ==ₛ type
          then own d (text_at c node_in type) (λ v. record k { aprs_pass = v })
          else if codes "local-callsign" ==ₛ type
          then own d (text_at c node_in type) (λ v. record k { local_callsign = v })
          else type_or_exit type d))

  unfoldable pub instantiate_aprs_si : Setting → Option GpsConnector → Loaded (Device AprsSi)
  unfolding aprs_si_setting
  instantiate_aprs_si node_in gps =
      settings c (aprs_si_setting node_in) node_in
        (device gps (record { aprs_user = []; aprs_pass = []; local_callsign = [] }))
      >>= λ d. checked_aprs_si d

  -- A round of the loop over the settings of a peer.
  unfoldable pub peer_setting :
      List (List ℕ × FilterT) → Setting → List ℕ → Setting → Peer → Loaded Peer
  peer_setting filters peer_node type node (host, f) =
      if codes "host" ==ₛ type
      then set (text_at c peer_node type) (λ v. (v, f))
      else if codes "filter" ==ₛ type
      then set (text_at c peer_node type >>= defined_filter filters) (λ v. (host, some v))
      else exits

  -- A round of the loop over the peers.
  unfoldable pub add_peer : List (List ℕ × FilterT) → Setting → List Peer → Loaded (List Peer)
  unfolding peer_setting
  add_peer filters peer_node peers =
      settings c (peer_setting filters peer_node) peer_node no_peer >>= λ peer.
      if length peer.0 == 0 then exits else loaded (peers ++ peer ∷ [])

  unfoldable pub axudp_setting :
      List (List ℕ × FilterT)
      → Setting
      → List ℕ
      → Setting
      → Device AxudpSettings
      → Loaded (Device AxudpSettings)
  axudp_setting filters node_in type node d =
      let k = d.kind in
      id_or c node_in type d (
        limits_or c exits node type d (
          if codes "peers" ==ₛ type
          then own d (each (add_peer filters) (elements node) k.peers) (λ v. record k { peers = v })
          else if codes "continue-on-error" ==ₛ type
          then own d (bool_at c node_in type) (λ v. record k { continue_on_error = v })
          else if codes "listen-port" ==ₛ type
          then own d (int_at c node_in type) (λ v. record k { listen_port = v })
          else if codes "distribute" ==ₛ type
          then own d (bool_at c node_in type) (λ v. record k { distribute = v })
          else type_or_exit type d))

  unfoldable pub instantiate_axudp :
      List (List ℕ × FilterT) → Setting → Option GpsConnector → Loaded (Device AxudpSettings)
  unfolding axudp_setting
  instantiate_axudp filters node_in gps = settings c (axudp_setting filters node_in) node_in (
      device gps (record {
        listen_port = minus_one;
        peers = [];
        continue_on_error = false;
        distribute = false;
      }))

  unfoldable pub mqtt_setting : Setting → List ℕ → Setting → Device Mqtt → Loaded (Device Mqtt)
  mqtt_setting node_in type node d =
      let k = d.kind in
      id_or c node_in type d (
        limits_or c exits node type d (
          if codes "host" ==ₛ type
          then own d (text_at c node_in type) (λ v. record k { mqtt_host = v })
          else if codes "port" ==ₛ type
          then own d (int_at c node_in type) (λ v. record k { mqtt_port = v })
          else if codes "topic-in" ==ₛ type
          then own d (text_at c node_in type) (λ v. record k { topic_in = v })
          else if codes "topic-out" ==ₛ type
          then own d (text_at c node_in type) (λ v. record k { topic_out = v })
          else if codes "topic-out-json" ==ₛ type
          then own d (text_at c node_in type) (λ v. record k { topic_out_json = v })
          else type_or_exit type d))

  unfoldable pub instantiate_mqtt : Setting → Option GpsConnector → Loaded (Device Mqtt)
  unfolding mqtt_setting
  instantiate_mqtt node_in gps =
      settings c (mqtt_setting node_in) node_in (
        device gps (record {
          mqtt_host = [];
          mqtt_port = 1883;
          topic_in = [];
          topic_out = [];
          topic_out_json = [];
        }))
      >>= λ d. checked_mqtt d

  unfoldable pub db_setting :
      Setting → List ℕ → Setting → Device TranceiverDb → Loaded (Device TranceiverDb)
  db_setting node_in type node d =
      let k = d.kind in
      id_or c node_in type d (
        limits_or c exits node type d (
          if codes "uri" ==ₛ type
          then own d (text_at c node_in type)
              (λ v. record k { settings_of_db = record k.settings_of_db { uri = v } })
          else if codes "database" ==ₛ type
          then own d (text_at c node_in type)
              (λ v. record k { settings_of_db = record k.settings_of_db { database = v } })
          else if codes "collection" ==ₛ type
          then own d (text_at c node_in type)
              (λ v. record k { settings_of_db = record k.settings_of_db { collection = v } })
          else type_or_exit type d))

  unfoldable pub instantiate_db : Setting → Option GpsConnector → Loaded (Device TranceiverDb)
  unfolding db_setting
  instantiate_db node_in gps =
      settings c (db_setting node_in) node_in (
        device gps (record {
          settings_of_db = record { uri = []; database = []; collection = [] };
          d = none;
        }))
      >>= λ d. opened_db d

  unfoldable pub ws_setting :
      List (List ℕ × Option (Option DbMongodb))
      → Setting
      → List ℕ
      → Setting
      → Device Ws
      → Loaded (Device Ws)
  ws_setting others node_in type node d =
      let k = d.kind in
      id_or c node_in type d (
        limits_or c exits node type d (
          if codes "http-port" ==ₛ type
          then own d (int_at c node_in type) (λ v. record k { http_port = v })
          else if codes "websockets-port" ==ₛ type
          then own d (int_at c node_in type) (λ v. record k { ws_port = v })
          else if codes "websockets-url" ==ₛ type
          then own d (text_at c node_in type) (λ v. record k { ws_url = v })
          else if codes "websockets-ssl-enabled" ==ₛ type
          then own d (bool_at c node_in type) (λ v. record k { ws_ssl_enabled = v })
          else if codes "websockets-ssl-certificate" ==ₛ type
          then own d (text_at c node_in type) (λ v. record k { ws_ssl_cert = v })
          else if codes "websockets-ssl-private-key" ==ₛ type
          then own d (text_at c node_in type) (λ v. record k { ws_ssl_priv_key = v })
          else if codes "websockets-ssl-ca" ==ₛ type
          then own d (text_at c node_in type) (λ v. record k { ws_ssl_ca = v })
          else if codes "traffic-db" ==ₛ type
          then own d (text_at c node_in type >>= λ id. (traffic_db id others k.d >>= found_db))
              (λ v. record k { d = v })
          else type_or_exit type d))

  unfoldable pub instantiate_ws :
      List (List ℕ × Option (Option DbMongodb)) → Setting → Option GpsConnector → Loaded (Device Ws)
  unfolding ws_setting
  instantiate_ws others node_in gps = settings c (ws_setting others node_in) node_in (
      device gps (record {
        http_port = minus_one;
        ws_port = minus_one;
        ws_url = [];
        ws_ssl_enabled = false;
        ws_ssl_cert = [];
        ws_ssl_priv_key = [];
        ws_ssl_ca = [];
        d = none;
      }))
