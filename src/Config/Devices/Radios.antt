-- ===== src/Config/Devices/Radios.antt =====
-- `instantiate` of tranceiver-kiss-kernel.cpp, tranceiver-kiss-tty.cpp, tranceiver-lora-sx1278.cpp and
-- tranceiver-beacon.cpp.
use ham_router.Common.{
  ℕ, List, [], length, get_or, Bool, false, ◌==◌, ◌==ₛ◌, if◌then◌else◌, Option, codes,
}
use ham_router.Settings.{
  Libconfig, Loaded, loaded, exits, ◌>>=◌, minus_one, text_at, int_at, bool_at, settings,
}
use ham_router.Config.Limits.{GpsConnector}
use ham_router.Config.Devices.{Device, device, own, id_or, limits_or, type_or_exit}

pub record KissKernel : Type 0 where
  pub callsign : List ℕ
  pub if_up : List ℕ

pub record KissTty : Type 0 where
  pub tty_device : List ℕ
  pub tty_baudrate : ℕ

pub record LoraSx1278 : Type 0 where
  pub dio0_pin : ℕ
  pub reset_pin : ℕ
  pub digipeater : Bool

pub data BeaconMode : Type 0 where
  beacon_mode_aprs beacon_mode_ax25 : BeaconMode

pub record Beacon : Type 0 where
  pub beacon_text : List ℕ
  pub beacon_interval : ℕ
  pub bm : BeaconMode
  pub callsign : List ℕ
  pub aprs_symbol_table : ℕ
  pub aprs_symbol : List ℕ

abbrev default_text : List ℕ
default_text =
    codes
      "HAM-router - https://github.com/folkertvanheusden/HAM-router - https://www.vanheusden.com/"

-- The two modes of a beacon.
abbrev pub mode_of : List ℕ → Loaded BeaconMode
mode_of mode =
    if codes "aprs" ==ₛ mode
    then loaded beacon_mode_aprs
    else if codes "ax25" ==ₛ mode
    then loaded beacon_mode_ax25
    else exits

-- A text that is not empty, else the program ends.
abbrev pub need {ℓ} : {A : Type ℓ} → List ℕ → A → Loaded A
need text a = if length text == 0 then exits else loaded a

module _ (c : Libconfig) where
  open c use {Setting}

  unfoldable pub kiss_kernel_setting :
      Setting → List ℕ → Setting → Device KissKernel → Loaded (Device KissKernel)
  kiss_kernel_setting node_in type node d =
      let k = d.kind in
      id_or c node_in type d (
        limits_or c exits node type d (
          if codes "callsign" ==ₛ type
          then own d (text_at c node_in type) (λ v. record k { callsign = v })
          else if codes "if-up" ==ₛ type
          then own d (text_at c node_in type) (λ v. record k { if_up = v })
          else type_or_exit type d))

  unfoldable pub instantiate_kiss_kernel :
      Setting → Option GpsConnector → Loaded (Device KissKernel)
  unfolding kiss_kernel_setting
  instantiate_kiss_kernel node_in gps =
      settings c (kiss_kernel_setting node_in) node_in
        (device gps (record { callsign = []; if_up = [] }))
      >>= λ d. need d.kind.callsign d

  unfoldable pub kiss_tty_setting :
      Setting → List ℕ → Setting → Device KissTty → Loaded (Device KissTty)
  kiss_tty_setting node_in type node d =
      let k = d.kind in
      id_or c node_in type d (
        limits_or c exits node type d (
          if codes "tty-device" ==ₛ type
          then own d (text_at c node_in type) (λ v. record k { tty_device = v })
          else if codes "tty-baudrate" ==ₛ type
          then own d (int_at c node_in type) (λ v. record k { tty_baudrate = v })
          else type_or_exit type d))

  unfoldable pub instantiate_kiss_tty : Setting → Option GpsConnector → Loaded (Device KissTty)
  unfolding kiss_tty_setting
  instantiate_kiss_tty node_in gps =
      settings c (kiss_tty_setting node_in) node_in
        (device gps (record { tty_device = []; tty_baudrate = 9600 }))

  unfoldable pub lora_sx1278_setting :
      Setting → List ℕ → Setting → Device LoraSx1278 → Loaded (Device LoraSx1278)
  lora_sx1278_setting node_in type node d =
      let k = d.kind in
      id_or c node_in type d (
        limits_or c exits node type d (
          if codes "dio0-pin" ==ₛ type
          then own d (int_at c node_in type) (λ v. record k { dio0_pin = v })
          else if codes "reset-pin" ==ₛ type
          then own d (int_at c node_in type) (λ v. record k { reset_pin = v })
          else if codes "digipeater" ==ₛ type
          then own d (bool_at c node_in type) (λ v. record k { digipeater = v })
          else type_or_exit type d))

  unfoldable pub instantiate_lora_sx1278 :
      Setting → Option GpsConnector → Loaded (Device LoraSx1278)
  unfolding lora_sx1278_setting
  instantiate_lora_sx1278 node_in gps =
      settings c (lora_sx1278_setting node_in) node_in
        (device gps (record { dio0_pin = minus_one; reset_pin = minus_one; digipeater = false }))

  unfoldable pub beacon_setting :
      Setting → List ℕ → Setting → Device Beacon → Loaded (Device Beacon)
  beacon_setting node_in type node d =
      let k = d.kind in
      id_or c node_in type d (
        if codes "text" ==ₛ type
        then own d (text_at c node_in type) (λ v. record k { beacon_text = v })
        else if codes "source-callsign" ==ₛ type
        then own d (text_at c node_in type) (λ v. record k { callsign = v })
        else if codes "interval" ==ₛ type
        then own d (int_at c node_in type) (λ v. record k { beacon_interval = v })
        else if codes "aprs-symbol-table" ==ₛ type
        then own d (text_at c node_in type) (λ v. record k { aprs_symbol_table = get_or v 0 0 })
        else if codes "aprs-symbol" ==ₛ type
        then own d (text_at c node_in type) (λ v. record k { aprs_symbol = v })
        else if codes "mode" ==ₛ type
        then own d (text_at c node_in type >>= mode_of) (λ v. record k { bm = v })
        else type_or_exit type d)

  unfoldable pub instantiate_beacon : Setting → Option GpsConnector → Loaded (Device Beacon)
  unfolding beacon_setting
  instantiate_beacon node_in gps =
      settings c (beacon_setting node_in) node_in (
        device gps (record {
          beacon_text = default_text;
          beacon_interval = 60;
          bm = beacon_mode_aprs;
          callsign = [];
          aprs_symbol_table = b'L';
          aprs_symbol = codes "&L";
        }))
      >>= λ d. need d.kind.callsign d
