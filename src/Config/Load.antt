-- ===== src/Config/Load.antt =====
-- configuration.cpp: the sections of the configuration file.
use ham_router.Common.{
  ℕ, ◌+◌, List, [], ◌∷◌, ◌++◌, length, ◌==◌, ◌==ₛ◌, if◌then◌else◌, Option, none, some, map, codes,
}
use ham_router.Switchboard.{Switchboard}
use ham_router.Snmp.{si_integer}
use ham_router.Snmp.Data.{
  Nodes, Content, static_text, static_int, running_since, object, register_oid,
}
use ham_router.Settings.{
  Libconfig, Loaded, loaded, exits, ◌>>=◌, set, minus_one, text_at, int_at, settings,
}
use ham_router.Config.Limits.{GpsConnector, SeenT, instantiate_gps, instantiate_seen}
use ham_router.Config.Devices.{Device}
use ham_router.Config.Devices.Kinds.{Kind, get_type_name, instantiate}
use ham_router.Config.Filters.{Filters, load_filters}
use ham_router.Config.Mappings.{load_bridge_switchboard, load_routing_switchboard}
use ham_router.Config.Registry.{Registry, Host, constructed, register_snmp_counters}

-- The switchboard is the null pointer until a section makes it; `R` are the regular expressions.
pub record Configuration (R : Type 0) : Type 0 where
  pub tranceivers : List (Device Kind)
  pub sb : Option (Switchboard R)
  pub snmp_port : ℕ
  pub logfile : List ℕ
  pub gps : Option GpsConnector
  pub filters : Filters
  pub global_repetition_filter : Option SeenT
  pub registry : Registry

-- Before the file is read.
abbrev pub no_configuration : {R : Type 0} → Registry → Configuration R
no_configuration registry = record {
  tranceivers = [];
  sb = none;
  snmp_port = minus_one;
  logfile = codes "gateway.log";
  gps = none;
  filters = [];
  global_repetition_filter = none;
  registry = registry;
}

abbrev pub ids : {R : Type 0} → Configuration R → List (List ℕ)
ids cfg = map (λ t. t.id) cfg.tranceivers

abbrev pub board : {R : Type 0} → Option (Switchboard R) → Switchboard R
board none = record { bridge_map = []; routing_map = [] }
board (some sb) = sb

-- What `load_snmp` registers, for a program that runs since `start`.
abbrev system_group : ℕ → List (List ℕ × Content)
system_group start =
    (codes "1.3.6.1.2.1.1.1.0", static_text (codes "lora_aprs_gw"))
    ∷ (codes "1.3.6.1.2.1.1.2.0", object (codes "1.3.6.1.2.1.4.57850.2"))
    ∷ (codes "1.3.6.1.2.1.1.3.0", running_since start)
    ∷ (codes "1.3.6.1.2.1.1.4.0", static_text (codes "Folkert van Heusden <mail@vanheusden.com>"))
    ∷ (codes "1.3.6.1.2.1.1.5.0", static_text (codes "lora_aprs_gw"))
    ∷ (codes "1.3.6.1.2.1.1.6.0", static_text (codes "Earth"))
    ∷ (codes "1.3.6.1.2.1.1.7.0", static_int si_integer 254)
    ∷ (codes "1.3.6.1.2.1.1.8.0", static_int si_integer 0)
    ∷ []

-- What the last loop of `load_tranceivers` registers for an interface.
abbrev pub interface_group : List ℕ → ℕ → Device Kind → List (List ℕ × Content)
interface_group n nr t =
    (codes "1.3.6.1.2.1.2.2.1.1." ++ n, static_int si_integer nr)
    ∷ (codes "1.3.6.1.2.1.31.1.1.1.1." ++ n, static_text t.id)
    ∷ (codes "1.3.6.1.2.1.2.2.1.2.1." ++ n, static_text (get_type_name t.kind))
    ∷ (codes "1.3.6.1.2.1.17.1.4.1." ++ n, static_int si_integer 1)
    ∷ []

module _ (h : Host) where
  open h use {atoi, format}

  unfoldable pub register_oids : List (List ℕ × Content) → Nodes → Nodes
  register_oids [] sd = sd
  register_oids ((oid, e) ∷ more) sd = register_oids more (register_oid atoi oid e sd)

  -- The second loop: the interfaces for SNMP.
  unfoldable pub register_interfaces : ℕ → List (Device Kind) → Registry → Loaded Registry
  unfolding register_oids
  register_interfaces interface_nr [] r = loaded r
  register_interfaces interface_nr (t ∷ ts) r =
      register_snmp_counters h interface_nr t (record r {
        sd = register_oids (interface_group (format interface_nr) interface_nr t) r.sd;
      })
      >>= λ r'. register_interfaces (interface_nr + 1) ts r'

-- What follows the loop of `load_general`.
unfoldable pub with_gps : {R : Type 0} → Configuration R → Loaded (Configuration R)
with_gps cfg = elim cfg.gps [ none ↦ exits | some gps ↦ loaded cfg ]

module _ (c : Libconfig) where
  open c use {Setting}

  unfoldable pub snmp_setting : Setting → List ℕ → Setting → ℕ → Loaded ℕ
  snmp_setting node_in type node snmp_port =
      if codes "port" ==ₛ type then int_at c node_in type else exits

module _ (c : Libconfig) (h : Host) {R : Type 0} (regcomp : List ℕ → Option R) (start : ℕ) where
  open c use {Setting, elements}
  open h use {atoi}

  -- The first loop of `load_tranceivers`: a tranceiver sees the ones before it, and the position that
  -- is set so far.
  unfoldable pub add_tranceiver : ℕ → Setting → Configuration R → Loaded (Configuration R)
  add_tranceiver device_nr node cfg =
      instantiate c cfg.filters cfg.tranceivers cfg.gps node >>= λ t.
      constructed h device_nr t cfg.registry >>= λ registry.
      loaded (record cfg { tranceivers = cfg.tranceivers ++ t ∷ []; registry = registry })

  unfoldable pub add_tranceivers : ℕ → List Setting → Configuration R → Loaded (Configuration R)
  unfolding add_tranceiver
  add_tranceivers i [] cfg = loaded cfg
  add_tranceivers i (node ∷ more) cfg =
      add_tranceiver (i + 1) node cfg >>= λ cfg'. add_tranceivers (i + 1) more cfg'

  unfoldable pub load_tranceivers : Setting → Configuration R → Loaded (Configuration R)
  unfolding add_tranceivers register_interfaces
  load_tranceivers node_in cfg = add_tranceivers 0 (elements node_in) cfg >>= λ cfg'.
      set
        (register_interfaces h 1 cfg'.tranceivers (record cfg'.registry {
          sd =
              register_oid atoi (codes "1.3.6.1.2.1.2.1.0")
                (static_int si_integer (length cfg'.tranceivers)) cfg'.registry.sd;
        }))
        (λ r. record cfg' { registry = r })

  unfoldable pub load_snmp : Setting → Configuration R → Loaded (Configuration R)
  unfolding snmp_setting register_oids
  load_snmp node_in cfg = settings c (snmp_setting c node_in) node_in cfg.snmp_port >>= λ port.
      loaded (record cfg {
        snmp_port = port;
        registry =
            if port == minus_one
            then cfg.registry
            else record cfg.registry { sd = register_oids h (system_group start) cfg.registry.sd };
      })

  unfoldable pub general_setting :
      Setting → List ℕ → Setting → Configuration R → Loaded (Configuration R)
  general_setting node_in type node cfg =
      if codes "gps" ==ₛ type
      then set (instantiate_gps c node) (λ v. record cfg { gps = some v })
      else if codes "logfile" ==ₛ type
      then set (text_at c node_in type) (λ v. record cfg { logfile = v })
      else if codes "repetition-rate-limiting" ==ₛ type
      then elim cfg.global_repetition_filter [
        | some s ↦ exits
        | none ↦
            set (instantiate_seen c node) (λ v. record cfg { global_repetition_filter = some v })
      ]
      else exits

  unfoldable pub load_general : Setting → Configuration R → Loaded (Configuration R)
  unfolding general_setting with_gps
  load_general node_in cfg =
      settings c (general_setting node_in) node_in cfg >>= λ cfg'. with_gps cfg'

  -- A round of the loop of the constructor.
  unfoldable pub section : List ℕ → Setting → Configuration R → Loaded (Configuration R)
  unfolding load_general load_tranceivers load_snmp
  section node_name node cfg =
      if codes "filters" ==ₛ node_name
      then set (load_filters c node cfg.filters) (λ v. record cfg { filters = v })
      else if codes "general" ==ₛ node_name
      then load_general node cfg
      else if codes "tranceivers" ==ₛ node_name
      then load_tranceivers node cfg
      else if codes "bridge-mappings" ==ₛ node_name
      then set (load_bridge_switchboard c cfg.filters (ids cfg) node (board cfg.sb))
          (λ v. record cfg { sb = some v })
      else if codes "routing-mappings" ==ₛ node_name
      then set (load_routing_switchboard c regcomp (ids cfg) node (board cfg.sb))
          (λ v. record cfg { sb = some v })
      else if codes "snmp" ==ₛ node_name
      then load_snmp node cfg
      else exits

  -- The constructor, for a file that libconfig can read: the registry is that of the program so far.
  unfoldable pub configuration : Setting → Registry → Loaded (Configuration R)
  unfolding section
  configuration root registry = settings c section root (no_configuration registry)
