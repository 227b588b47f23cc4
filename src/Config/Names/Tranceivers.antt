-- ===== src/Config/Names/Tranceivers.antt =====
-- `tranceiver::instantiate` makes complete tranceivers only.
use ham_router.Common.{ℕ, ◌≤◌, List, ◌==ₛ◌, length, if_cases, Option, ◌≡◌, subst, codes}
use ham_router.Filter.{FilterT}
use ham_router.Settings.{Libconfig, Loaded, loaded, text_at}
use ham_router.Settings.Known.{Gives, then-Gives, then-Gives_any, AreKnown}
use ham_router.Config.Limits.{GpsConnector}
use ham_router.Config.Devices.{Device}
use ham_router.Config.Devices.Radios.{
  instantiate_kiss_kernel, instantiate_kiss_tty, instantiate_lora_sx1278, instantiate_beacon,
}
use ham_router.Config.Devices.Servers.{
  instantiate_aprs_si, instantiate_axudp, instantiate_mqtt, instantiate_db, instantiate_ws,
}
use ham_router.Config.Devices.Kinds.{
  Kind, aprs_si, kiss_kernel, kiss_tty, lora_sx1278, axudp, beacon, tranceiver_db, mqtt, ws,
  databases, instantiate,
}
use ham_router.Config.Names.Radios.{
  known_to_kiss_kernel, instantiate_kiss_kernel-Gives, known_to_kiss_tty,
  instantiate_kiss_tty-Gives, known_to_lora_sx1278, instantiate_lora_sx1278-Gives, known_to_beacon,
  instantiate_beacon-Gives,
}
use ham_router.Config.Names.Servers.{
  IsOpened, HaveHosts, known_to_aprs_si, instantiate_aprs_si-Gives, known_to_axudp,
  instantiate_axudp-Gives, known_to_db, instantiate_db-Gives, known_to_mqtt, instantiate_mqtt-Gives,
  known_to_ws, instantiate_ws-Gives,
}

-- The names of the settings that a kind of tranceiver knows.
abbrev pub known_settings : Kind → List (List ℕ)
known_settings (aprs_si k) = known_to_aprs_si
known_settings (kiss_kernel k) = known_to_kiss_kernel
known_settings (kiss_tty k) = known_to_kiss_tty
known_settings (lora_sx1278 k) = known_to_lora_sx1278
known_settings (axudp k) = known_to_axudp
known_settings (beacon k) = known_to_beacon
known_settings (tranceiver_db k) = known_to_db
known_settings (mqtt k) = known_to_mqtt
known_settings (ws k) = known_to_ws

-- A tranceiver has what its kind cannot do without.
abbrev pub IsComplete : Kind → Type 0
IsComplete (aprs_si k) = (1 ≤ length k.aprs_user) × (1 ≤ length k.local_callsign)
IsComplete (kiss_kernel k) = 1 ≤ length k.callsign
IsComplete (kiss_tty k) = Unit
IsComplete (lora_sx1278 k) = Unit
IsComplete (axudp k) = HaveHosts k.peers
IsComplete (beacon k) = 1 ≤ length k.callsign
IsComplete (tranceiver_db k) = IsOpened k.d
IsComplete (mqtt k) = 1 ≤ length k.mqtt_host
IsComplete (ws k) = Unit

module _ (c : Libconfig) where
  open c use {Setting}

  -- A tranceiver is made only of settings whose names its kind knows, and it has all that its kind cannot do
  -- without: a beacon and a kernel interface a callsign, APRS-SI a user and a callsign, MQTT a host, each
  -- peer of AXUDP a host, and a database that is opened its address, its name and its collection. Every other
  -- configuration ends the program.
  pub instantiate-IsComplete :
      (filters : List (List ℕ × FilterT)) (tranceivers : List (Device Kind))
      (gps : Option GpsConnector) (node : Setting) (d : Device Kind)
      → instantiate c filters tranceivers gps node ≡ loaded d
      → AreKnown c (known_settings d.kind) node × IsComplete d.kind
  unfolding instantiate
  instantiate-IsComplete filters tranceivers gps node d e =
      let Q : Loaded (Device Kind) → Type 0 =
        Gives (λ d. AreKnown c (known_settings d.kind) node × IsComplete d.kind) in
      subst Q e (
        then-Gives_any _ (text_at c node (codes "type")) _ λ type.
          if_cases Q (codes "aprs-si" ==ₛ type)
            (then-Gives _ _ (instantiate_aprs_si c node gps) _
              (instantiate_aprs_si-Gives c node gps) (λ d (k, u, l). (k, (u, l))))
            (if_cases Q (codes "kiss-kernel" ==ₛ type)
              (then-Gives _ _ (instantiate_kiss_kernel c node gps) _
                (instantiate_kiss_kernel-Gives c node gps) (λ d p. p))
              (if_cases Q (codes "kiss-tty" ==ₛ type)
                (then-Gives _ _ (instantiate_kiss_tty c node gps) _
                  (instantiate_kiss_tty-Gives c node gps) (λ d p. p))
                (if_cases Q (codes "lora-sx1278" ==ₛ type)
                  (then-Gives _ _ (instantiate_lora_sx1278 c node gps) _
                    (instantiate_lora_sx1278-Gives c node gps) (λ d p. p))
                  (if_cases Q (codes "axudp" ==ₛ type)
                    (then-Gives _ _ (instantiate_axudp c filters node gps) _
                      (instantiate_axudp-Gives c filters node gps) (λ d p. p))
                    (if_cases Q (codes "beacon" ==ₛ type)
                      (then-Gives _ _ (instantiate_beacon c node gps) _
                        (instantiate_beacon-Gives c node gps) (λ d p. p))
                      (if_cases Q (codes "database" ==ₛ type)
                        (then-Gives _ _ (instantiate_db c node gps) _
                          (instantiate_db-Gives c node gps) (λ d p. p))
                        (if_cases Q (codes "mqtt" ==ₛ type)
                          (then-Gives _ _ (instantiate_mqtt c node gps) _
                            (instantiate_mqtt-Gives c node gps) (λ d p. p))
                          (if_cases Q (codes "http-ws" ==ₛ type)
                            (then-Gives _ _ (instantiate_ws c (databases tranceivers) node gps) _
                              (instantiate_ws-Gives c (databases tranceivers) node gps) (λ d p. p))
                            (tt))))))))))
