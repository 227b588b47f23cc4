-- ===== src/Config/Devices.antt =====
-- The functions `instantiate` of tranceiver.cpp and of the files tranceiver-*.cpp: what each kind of
-- tranceiver is configured with. The libraries for MQTT, MongoDB, HTTP and websockets are compiled in.
pub mod Radios
pub mod Servers
pub mod Kinds
use ham_router.Common.{ℕ, List, [], ◌==ₛ◌, if◌then◌else◌, Option, none, some, codes}
use ham_router.Settings.{Libconfig, Loaded, loaded, exits, ◌>>=◌, set, text_at}
use ham_router.Config.Limits.{GpsConnector, SeenT, instantiate_seen}

-- What every tranceiver has, and what its kind has.
pub record Device {ℓ} (K : Type ℓ) : Type ℓ where
  pub id : List ℕ
  pub s : Option SeenT
  pub gps : Option GpsConnector
  pub kind : K

abbrev pub device {ℓ} : {K : Type ℓ} → Option GpsConnector → K → Device K
device gps kind = record { id = []; s = none; gps = gps; kind = kind }

-- A variable of the kind's own that is set from a value that is read.
abbrev pub own {ℓ κ} : {K : Type ℓ} {V : Type κ} → Device K → Loaded V → (V → K) → Loaded (Device K)
own d r f = set r (λ v. record d { kind = f v })

-- The last branch: "type" was read before.
abbrev pub type_or_exit {ℓ} : {K : Type ℓ} → List ℕ → Device K → Loaded (Device K)
type_or_exit type d = if codes "type" ==ₛ type then loaded d else exits

abbrev pub set_kind {ℓ κ} : {K : Type ℓ} {L : Type κ} → (K → L) → Device K → Device L
set_kind f d = record { id = d.id; s = d.s; gps = d.gps; kind = f d.kind }

module _ (c : Libconfig) where
  open c use {Setting}

  -- The branch of the loops on "id".
  abbrev pub id_or {ℓ} :
      {K : Type ℓ} → Setting → List ℕ → Device K → Loaded (Device K) → Loaded (Device K)
  id_or node_in type d other =
      if codes "id" ==ₛ type then set (text_at c node_in type) (λ v. record d { id = v }) else other

  -- The branch on "repetition-rate-limiting": what it does if that is set already, and otherwise.
  abbrev pub limits_or {ℓ} :
      {K : Type ℓ}
      → Loaded (Device K)
      → Setting
      → List ℕ
      → Device K
      → Loaded (Device K)
      → Loaded (Device K)
  limits_or twice node type d other =
      if codes "repetition-rate-limiting" ==ₛ type
      then elim d.s [
        | some s ↦ twice
        | none ↦ set (instantiate_seen c node) (λ v. record d { s = some v })
      ]
      else other
