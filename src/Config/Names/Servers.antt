-- ===== src/Config/Names/Servers.antt =====
-- The settings of the tranceivers that are connected to servers.
use ham_router.Common.{
  ℕ, ◌≤◌, List, [], ◌∷◌, ◌++◌, length, false, ◌||◌, ◌==◌, ◌==ₛ◌, if_cases, if_split, Option, none,
  some, All, All-append, ◌≡◌, refl, sym, subst, arith, codes,
}
use ham_router.Filter.{FilterT}
use ham_router.Axudp.{Peer}
use ham_router.Settings.{Libconfig, Loaded, loaded, exits, each, text_at, int_at, bool_at, settings}
use ham_router.Settings.Known.{
  Gives, Gives-map, Gives-both, then-Gives, then-Gives_any, each-Gives, is_one_of, AreKnown,
  settings-AreKnown, settings-Gives,
}
use ham_router.Config.Limits.{GpsConnector}
use ham_router.Config.Devices.{Device}
use ham_router.Config.Names.{
  none_of, checked-Gives, id_or-Gives, limits_or-Gives, own-Gives, own-Gives_any,
  type_or_exit-Gives,
}
use ham_router.Config.Devices.Servers.{
  AprsSi, AxudpSettings, Mqtt, DbMongodb, TranceiverDb, Ws, aprs_si_setting, axudp_setting,
  mqtt_setting, db_setting, ws_setting, peer_setting, add_peer, opened_db, checked_aprs_si,
  checked_mqtt, instantiate_aprs_si, instantiate_axudp, instantiate_mqtt, instantiate_db,
  instantiate_ws,
}

abbrev pub known_to_aprs_si : List (List ℕ)
known_to_aprs_si =
    codes "id"
    ∷ codes "repetition-rate-limiting"
    ∷ codes "aprs-user"
    ∷ codes "aprs-pass"
    ∷ codes "local-callsign"
    ∷ codes "type"
    ∷ []

abbrev pub known_to_axudp : List (List ℕ)
known_to_axudp =
    codes "id"
    ∷ codes "repetition-rate-limiting"
    ∷ codes "peers"
    ∷ codes "continue-on-error"
    ∷ codes "listen-port"
    ∷ codes "distribute"
    ∷ codes "type"
    ∷ []

abbrev pub known_to_mqtt : List (List ℕ)
known_to_mqtt =
    codes "id"
    ∷ codes "repetition-rate-limiting"
    ∷ codes "host"
    ∷ codes "port"
    ∷ codes "topic-in"
    ∷ codes "topic-out"
    ∷ codes "topic-out-json"
    ∷ codes "type"
    ∷ []

abbrev pub known_to_db : List (List ℕ)
known_to_db =
    codes "id"
    ∷ codes "repetition-rate-limiting"
    ∷ codes "uri"
    ∷ codes "database"
    ∷ codes "collection"
    ∷ codes "type"
    ∷ []

abbrev pub known_to_ws : List (List ℕ)
known_to_ws =
    codes "id"
    ∷ codes "repetition-rate-limiting"
    ∷ codes "http-port"
    ∷ codes "websockets-port"
    ∷ codes "websockets-url"
    ∷ codes "websockets-ssl-enabled"
    ∷ codes "websockets-ssl-certificate"
    ∷ codes "websockets-ssl-private-key"
    ∷ codes "websockets-ssl-ca"
    ∷ codes "traffic-db"
    ∷ codes "type"
    ∷ []

-- A database that is opened has all of its settings.
abbrev pub IsOpened : Option DbMongodb → Type 0
IsOpened none = Unit
IsOpened (some k) = (1 ≤ length k.uri) × (1 ≤ length k.database) × (1 ≤ length k.collection)

-- Every peer has a host.
abbrev pub HaveHosts : List Peer → Type 0
HaveHosts = All (λ p. 1 ≤ length p.0)

module _ (c : Libconfig) where
  open c use {Setting, elements}

  aprs_si_setting-unknown :
      (node_in : Setting) (type : List ℕ) (node : Setting) (d : Device AprsSi)
      → is_one_of known_to_aprs_si type ≡ false
      → aprs_si_setting c node_in type node d ≡ exits
  unfolding aprs_si_setting
  aprs_si_setting-unknown node_in type node d u =
      let (e1, (e2, (e3, (e4, (e5, (e6, _)))))) = none_of known_to_aprs_si type u in
      rw (e1, e2, e3, e4, e5, e6) refl

  aprs_si-AreKnown :
      (node_in : Setting) (d : Device AprsSi)
      → Gives
          (λ _. AreKnown c known_to_aprs_si node_in)
          (settings c (aprs_si_setting c node_in) node_in d)
  aprs_si-AreKnown node_in d =
      settings-AreKnown c known_to_aprs_si (aprs_si_setting c node_in)
        (aprs_si_setting-unknown node_in) node_in d

  pub instantiate_aprs_si-Gives :
      (node_in : Setting) (gps : Option GpsConnector)
      → Gives
          (λ d.
            AreKnown c known_to_aprs_si node_in
            × (1 ≤ length d.kind.aprs_user)
            × (1 ≤ length d.kind.local_callsign))
          (instantiate_aprs_si c node_in gps)
  unfolding instantiate_aprs_si
  instantiate_aprs_si-Gives node_in gps =
      then-Gives _ _ (settings c (aprs_si_setting c node_in) node_in _) _
        (aprs_si-AreKnown node_in _)
        (λ d k.
          unfold checked_aprs_si in
          checked-Gives _ (length d.kind.aprs_user) _
            (λ p. checked-Gives _ (length d.kind.local_callsign) (loaded d) (λ q. (k, p, q))))

  axudp_setting-unknown :
      (filters : List (List ℕ × FilterT)) (node_in : Setting) (type : List ℕ) (node : Setting)
      (d : Device AxudpSettings)
      → is_one_of known_to_axudp type ≡ false
      → axudp_setting c filters node_in type node d ≡ exits
  unfolding axudp_setting
  axudp_setting-unknown filters node_in type node d u =
      let (e1, (e2, (e3, (e4, (e5, (e6, (e7, _))))))) = none_of known_to_axudp type u in
      rw (e1, e2, e3, e4, e5, e6, e7) refl

  axudp-AreKnown :
      (filters : List (List ℕ × FilterT)) (node_in : Setting) (d : Device AxudpSettings)
      → Gives
          (λ _. AreKnown c known_to_axudp node_in)
          (settings c (axudp_setting c filters node_in) node_in d)
  axudp-AreKnown filters node_in d =
      settings-AreKnown c known_to_axudp (axudp_setting c filters node_in)
        (axudp_setting-unknown filters node_in) node_in d

  -- A peer that is added has a host.
  add_peer-Gives :
      (filters : List (List ℕ × FilterT)) (peer_node : Setting) (peers : List Peer)
      → HaveHosts peers
      → Gives HaveHosts (add_peer c filters peer_node peers)
  unfolding add_peer
  add_peer-Gives filters peer_node peers h =
      then-Gives_any HaveHosts (settings c (peer_setting c filters peer_node) peer_node _) _ λ peer.
        checked-Gives HaveHosts (length peer.0) (loaded (peers ++ peer ∷ []))
          λ p. All-append (λ p. 1 ≤ length p.0) peers (peer ∷ []) h (p, tt)

  axudp_setting-Gives :
      (filters : List (List ℕ × FilterT)) (node_in : Setting) (type : List ℕ) (node : Setting)
      (d : Device AxudpSettings)
      → HaveHosts d.kind.peers
      → Gives (λ d. HaveHosts d.kind.peers) (axudp_setting c filters node_in type node d)
  unfolding axudp_setting
  axudp_setting-Gives filters node_in type node d p =
      let P : AxudpSettings → Type 0 = λ k. HaveHosts k.peers in
      let Q : Loaded (Device AxudpSettings) → Type 0 = Gives (λ d. P d.kind) in
      id_or-Gives c P node_in type d _ p (
        limits_or-Gives c P node type d _ p (
          if_cases Q (codes "peers" ==ₛ type)
            (own-Gives c P d (each (add_peer c filters) (elements node) d.kind.peers) _ (
              each-Gives HaveHosts (add_peer c filters) (add_peer-Gives filters) (elements node)
                d.kind.peers p))
            (if_cases Q (codes "continue-on-error" ==ₛ type)
              (own-Gives_any c P d (bool_at c node_in type) _ λ v. p)
              (if_cases Q (codes "listen-port" ==ₛ type)
                (own-Gives_any c P d (int_at c node_in type) _ λ v. p)
                (if_cases Q (codes "distribute" ==ₛ type)
                  (own-Gives_any c P d (bool_at c node_in type) _ λ v. p)
                  (type_or_exit-Gives c P type d p))))))

  pub instantiate_axudp-Gives :
      (filters : List (List ℕ × FilterT)) (node_in : Setting) (gps : Option GpsConnector)
      → Gives
          (λ d. AreKnown c known_to_axudp node_in × HaveHosts d.kind.peers)
          (instantiate_axudp c filters node_in gps)
  unfolding instantiate_axudp
  instantiate_axudp-Gives filters node_in gps =
      Gives-both _ _ (settings c (axudp_setting c filters node_in) node_in _)
        (axudp-AreKnown filters node_in _)
        (settings-Gives c (λ d. HaveHosts d.kind.peers) (axudp_setting c filters node_in)
          (axudp_setting-Gives filters node_in) node_in _ tt)

  mqtt_setting-unknown :
      (node_in : Setting) (type : List ℕ) (node : Setting) (d : Device Mqtt)
      → is_one_of known_to_mqtt type ≡ false
      → mqtt_setting c node_in type node d ≡ exits
  unfolding mqtt_setting
  mqtt_setting-unknown node_in type node d u =
      let (e1, (e2, (e3, (e4, (e5, (e6, (e7, (e8, _)))))))) = none_of known_to_mqtt type u in
      rw (e1, e2, e3, e4, e5, e6, e7, e8) refl

  mqtt-AreKnown :
      (node_in : Setting) (d : Device Mqtt)
      → Gives
          (λ _. AreKnown c known_to_mqtt node_in)
          (settings c (mqtt_setting c node_in) node_in d)
  mqtt-AreKnown node_in d =
      settings-AreKnown c known_to_mqtt (mqtt_setting c node_in) (mqtt_setting-unknown node_in)
        node_in d

  pub instantiate_mqtt-Gives :
      (node_in : Setting) (gps : Option GpsConnector)
      → Gives
          (λ d. AreKnown c known_to_mqtt node_in × (1 ≤ length d.kind.mqtt_host))
          (instantiate_mqtt c node_in gps)
  unfolding instantiate_mqtt
  instantiate_mqtt-Gives node_in gps =
      then-Gives _ _ (settings c (mqtt_setting c node_in) node_in _) _ (mqtt-AreKnown node_in _)
        (λ d k.
          unfold checked_mqtt in checked-Gives _ (length d.kind.mqtt_host) (loaded d) (λ p. (k, p)))

  db_setting-unknown :
      (node_in : Setting) (type : List ℕ) (node : Setting) (d : Device TranceiverDb)
      → is_one_of known_to_db type ≡ false
      → db_setting c node_in type node d ≡ exits
  unfolding db_setting
  db_setting-unknown node_in type node d u =
      let (e1, (e2, (e3, (e4, (e5, (e6, _)))))) = none_of known_to_db type u in
      rw (e1, e2, e3, e4, e5, e6) refl

  db-AreKnown :
      (node_in : Setting) (d : Device TranceiverDb)
      → Gives (λ _. AreKnown c known_to_db node_in) (settings c (db_setting c node_in) node_in d)
  db-AreKnown node_in d =
      settings-AreKnown c known_to_db (db_setting c node_in) (db_setting-unknown node_in) node_in d

  db_setting-Gives :
      (node_in : Setting) (type : List ℕ) (node : Setting) (d : Device TranceiverDb)
      → d.kind.d ≡ none
      → Gives (λ d. d.kind.d ≡ none) (db_setting c node_in type node d)
  unfolding db_setting
  db_setting-Gives node_in type node d p =
      let P : TranceiverDb → Type 0 = λ k. k.d ≡ none in
      id_or-Gives c P node_in type d _ p (
        limits_or-Gives c P node type d _ p (
          if_cases (Gives (λ (d : Device TranceiverDb). P d.kind)) (codes "uri" ==ₛ type)
            (own-Gives_any c P d (text_at c node_in type) _ λ v. p)
            (if_cases (Gives (λ (d : Device TranceiverDb). P d.kind)) (codes "database" ==ₛ type)
              (own-Gives_any c P d (text_at c node_in type) _ λ v. p)
              (if_cases (Gives (λ (d : Device TranceiverDb). P d.kind))
                (codes "collection" ==ₛ type)
                (own-Gives_any c P d (text_at c node_in type) _ λ v. p)
                (type_or_exit-Gives c P type d p)))))

  opened_db-Gives :
      (t : Device TranceiverDb) → t.kind.d ≡ none → Gives (λ t. IsOpened t.kind.d) (opened_db t)
  unfolding opened_db
  opened_db-Gives t e =
      let k = t.kind.settings_of_db in
      if_split (Gives (λ (t : Device TranceiverDb). IsOpened t.kind.d)) (length k.uri == 0)
        (λ z. subst IsOpened (sym e) tt)
        (λ u.
          if_split (Gives (λ (t : Device TranceiverDb). IsOpened t.kind.d))
            (length k.database == 0 || length k.collection == 0) (λ z. tt)
            (λ v. (ground arith, ground arith, ground arith)))

  pub instantiate_db-Gives :
      (node_in : Setting) (gps : Option GpsConnector)
      → Gives
          (λ d. AreKnown c known_to_db node_in × IsOpened d.kind.d)
          (instantiate_db c node_in gps)
  unfolding instantiate_db
  instantiate_db-Gives node_in gps =
      then-Gives (λ d. AreKnown c known_to_db node_in × (d.kind.d ≡ none)) _
        (settings c (db_setting c node_in) node_in _) opened_db
        (Gives-both _ _ (settings c (db_setting c node_in) node_in _) (db-AreKnown node_in _) (
          settings-Gives c (λ d. d.kind.d ≡ none) (db_setting c node_in) (db_setting-Gives node_in)
            node_in _ refl))
        (λ d (k, e). Gives-map _ _ (opened_db d) (λ t o. (k, o)) (opened_db-Gives d e))

  ws_setting-unknown :
      (others : List (List ℕ × Option (Option DbMongodb))) (node_in : Setting) (type : List ℕ)
      (node : Setting) (d : Device Ws)
      → is_one_of known_to_ws type ≡ false
      → ws_setting c others node_in type node d ≡ exits
  unfolding ws_setting
  ws_setting-unknown others node_in type node d u =
      let (e1, (e2, (e3, (e4, (e5, (e6, (e7, (e8, (e9, (e10, (e11, _))))))))))) =
        none_of known_to_ws type u in
      rw (e1, e2, e3, e4, e5, e6, e7, e8, e9, e10, e11) refl

  ws-AreKnown :
      (others : List (List ℕ × Option (Option DbMongodb))) (node_in : Setting) (d : Device Ws)
      → Gives
          (λ _. AreKnown c known_to_ws node_in)
          (settings c (ws_setting c others node_in) node_in d)
  ws-AreKnown others node_in d =
      settings-AreKnown c known_to_ws (ws_setting c others node_in)
        (ws_setting-unknown others node_in) node_in d

  pub instantiate_ws-Gives :
      (others : List (List ℕ × Option (Option DbMongodb))) (node_in : Setting)
      (gps : Option GpsConnector)
      → Gives (λ d. AreKnown c known_to_ws node_in × Unit {0}) (instantiate_ws c others node_in gps)
  unfolding instantiate_ws
  instantiate_ws-Gives others node_in gps =
      Gives-map _ _ (settings c (ws_setting c others node_in) node_in _) (λ d k. (k, tt))
        (ws-AreKnown others node_in _)
