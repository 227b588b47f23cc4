-- ===== src/Config/Names/Radios.antt =====
-- The settings of the tranceivers with a radio or a kernel behind them.
use ham_router.Common.{ℕ, ◌≤◌, List, [], ◌∷◌, length, false, Option, ◌≡◌, refl, codes}
use ham_router.Settings.{Libconfig, loaded, exits, settings}
use ham_router.Settings.Known.{Gives, Gives-map, then-Gives, is_one_of, AreKnown, settings-AreKnown}
use ham_router.Config.Limits.{GpsConnector}
use ham_router.Config.Devices.{Device}
use ham_router.Config.Names.{none_of, checked-Gives}
use ham_router.Config.Devices.Radios.{
  KissKernel, KissTty, LoraSx1278, Beacon, kiss_kernel_setting, kiss_tty_setting,
  lora_sx1278_setting, beacon_setting, instantiate_kiss_kernel, instantiate_kiss_tty,
  instantiate_lora_sx1278, instantiate_beacon,
}

abbrev pub known_to_kiss_kernel : List (List ℕ)
known_to_kiss_kernel =
    codes "id"
    ∷ codes "repetition-rate-limiting"
    ∷ codes "callsign"
    ∷ codes "if-up"
    ∷ codes "type"
    ∷ []

abbrev pub known_to_kiss_tty : List (List ℕ)
known_to_kiss_tty =
    codes "id"
    ∷ codes "repetition-rate-limiting"
    ∷ codes "tty-device"
    ∷ codes "tty-baudrate"
    ∷ codes "type"
    ∷ []

abbrev pub known_to_lora_sx1278 : List (List ℕ)
known_to_lora_sx1278 =
    codes "id"
    ∷ codes "repetition-rate-limiting"
    ∷ codes "dio0-pin"
    ∷ codes "reset-pin"
    ∷ codes "digipeater"
    ∷ codes "type"
    ∷ []

abbrev pub known_to_beacon : List (List ℕ)
known_to_beacon =
    codes "id"
    ∷ codes "text"
    ∷ codes "source-callsign"
    ∷ codes "interval"
    ∷ codes "aprs-symbol-table"
    ∷ codes "aprs-symbol"
    ∷ codes "mode"
    ∷ codes "type"
    ∷ []

module _ (c : Libconfig) where
  open c use {Setting, elements}

  kiss_kernel_setting-unknown :
      (node_in : Setting) (type : List ℕ) (node : Setting) (d : Device KissKernel)
      → is_one_of known_to_kiss_kernel type ≡ false
      → kiss_kernel_setting c node_in type node d ≡ exits
  unfolding kiss_kernel_setting
  kiss_kernel_setting-unknown node_in type node d u =
      let (e1, (e2, (e3, (e4, (e5, _))))) = none_of known_to_kiss_kernel type u in
      rw (e1, e2, e3, e4, e5) refl

  kiss_kernel-AreKnown :
      (node_in : Setting) (d : Device KissKernel)
      → Gives
          (λ _. AreKnown c known_to_kiss_kernel node_in)
          (settings c (kiss_kernel_setting c node_in) node_in d)
  kiss_kernel-AreKnown node_in d =
      settings-AreKnown c known_to_kiss_kernel (kiss_kernel_setting c node_in)
        (kiss_kernel_setting-unknown node_in) node_in d

  pub instantiate_kiss_kernel-Gives :
      (node_in : Setting) (gps : Option GpsConnector)
      → Gives
          (λ d. AreKnown c known_to_kiss_kernel node_in × (1 ≤ length d.kind.callsign))
          (instantiate_kiss_kernel c node_in gps)
  unfolding instantiate_kiss_kernel
  instantiate_kiss_kernel-Gives node_in gps =
      then-Gives _ _ (settings c (kiss_kernel_setting c node_in) node_in _) _
        (kiss_kernel-AreKnown node_in _)
        (λ d k. checked-Gives _ (length d.kind.callsign) (loaded d) (λ p. (k, p)))

  kiss_tty_setting-unknown :
      (node_in : Setting) (type : List ℕ) (node : Setting) (d : Device KissTty)
      → is_one_of known_to_kiss_tty type ≡ false
      → kiss_tty_setting c node_in type node d ≡ exits
  unfolding kiss_tty_setting
  kiss_tty_setting-unknown node_in type node d u =
      let (e1, (e2, (e3, (e4, (e5, _))))) = none_of known_to_kiss_tty type u in
      rw (e1, e2, e3, e4, e5) refl

  kiss_tty-AreKnown :
      (node_in : Setting) (d : Device KissTty)
      → Gives
          (λ _. AreKnown c known_to_kiss_tty node_in)
          (settings c (kiss_tty_setting c node_in) node_in d)
  kiss_tty-AreKnown node_in d =
      settings-AreKnown c known_to_kiss_tty (kiss_tty_setting c node_in)
        (kiss_tty_setting-unknown node_in) node_in d

  pub instantiate_kiss_tty-Gives :
      (node_in : Setting) (gps : Option GpsConnector)
      → Gives
          (λ d. AreKnown c known_to_kiss_tty node_in × Unit {0})
          (instantiate_kiss_tty c node_in gps)
  unfolding instantiate_kiss_tty
  instantiate_kiss_tty-Gives node_in gps =
      Gives-map _ _ (settings c (kiss_tty_setting c node_in) node_in _) (λ d k. (k, tt))
        (kiss_tty-AreKnown node_in _)

  lora_sx1278_setting-unknown :
      (node_in : Setting) (type : List ℕ) (node : Setting) (d : Device LoraSx1278)
      → is_one_of known_to_lora_sx1278 type ≡ false
      → lora_sx1278_setting c node_in type node d ≡ exits
  unfolding lora_sx1278_setting
  lora_sx1278_setting-unknown node_in type node d u =
      let (e1, (e2, (e3, (e4, (e5, (e6, _)))))) = none_of known_to_lora_sx1278 type u in
      rw (e1, e2, e3, e4, e5, e6) refl

  lora_sx1278-AreKnown :
      (node_in : Setting) (d : Device LoraSx1278)
      → Gives
          (λ _. AreKnown c known_to_lora_sx1278 node_in)
          (settings c (lora_sx1278_setting c node_in) node_in d)
  lora_sx1278-AreKnown node_in d =
      settings-AreKnown c known_to_lora_sx1278 (lora_sx1278_setting c node_in)
        (lora_sx1278_setting-unknown node_in) node_in d

  pub instantiate_lora_sx1278-Gives :
      (node_in : Setting) (gps : Option GpsConnector)
      → Gives
          (λ d. AreKnown c known_to_lora_sx1278 node_in × Unit {0})
          (instantiate_lora_sx1278 c node_in gps)
  unfolding instantiate_lora_sx1278
  instantiate_lora_sx1278-Gives node_in gps =
      Gives-map _ _ (settings c (lora_sx1278_setting c node_in) node_in _) (λ d k. (k, tt))
        (lora_sx1278-AreKnown node_in _)

  beacon_setting-unknown :
      (node_in : Setting) (type : List ℕ) (node : Setting) (d : Device Beacon)
      → is_one_of known_to_beacon type ≡ false
      → beacon_setting c node_in type node d ≡ exits
  unfolding beacon_setting
  beacon_setting-unknown node_in type node d u =
      let (e1, (e2, (e3, (e4, (e5, (e6, (e7, (e8, _)))))))) = none_of known_to_beacon type u in
      rw (e1, e2, e3, e4, e5, e6, e7, e8) refl

  beacon-AreKnown :
      (node_in : Setting) (d : Device Beacon)
      → Gives
          (λ _. AreKnown c known_to_beacon node_in)
          (settings c (beacon_setting c node_in) node_in d)
  beacon-AreKnown node_in d =
      settings-AreKnown c known_to_beacon (beacon_setting c node_in)
        (beacon_setting-unknown node_in) node_in d

  pub instantiate_beacon-Gives :
      (node_in : Setting) (gps : Option GpsConnector)
      → Gives
          (λ d. AreKnown c known_to_beacon node_in × (1 ≤ length d.kind.callsign))
          (instantiate_beacon c node_in gps)
  unfolding instantiate_beacon
  instantiate_beacon-Gives node_in gps =
      then-Gives _ _ (settings c (beacon_setting c node_in) node_in _) _ (beacon-AreKnown node_in _)
        (λ d k. checked-Gives _ (length d.kind.callsign) (loaded d) (λ p. (k, p)))
