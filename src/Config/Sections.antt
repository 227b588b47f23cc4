-- ===== src/Config/Sections.antt =====
-- What every section of the configuration file keeps.
use ham_router.Common.{
  ℕ, ◌+◌, ◌≤◌, List, [], ◌∷◌, ◌++◌, length, get_elem?, ◌==ₛ◌, if_cases, Option, none, some,
  length-append, length-map, ◌≡◌, subst, arith, codes,
}
use ham_router.Switchboard.{Switchboard}
use ham_router.Settings.{Libconfig, Loaded, loaded, exits, set, text_at, settings}
use ham_router.Settings.Known.{Gives, then-Gives, then-Gives_any, settings-Gives}
use ham_router.Config.Limits.{instantiate_gps, instantiate_seen, SeenT, GpsConnector}
use ham_router.Config.Devices.{Device}
use ham_router.Config.Devices.Kinds.{Kind, instantiate}
use ham_router.Config.Filters.{load_filters}
use ham_router.Config.Mappings.{find_tranceiver}
use ham_router.Config.Registry.{Registry, Host, constructed}
use ham_router.Config.Load.{
  Configuration, no_configuration, ids, board, register_interfaces, add_tranceiver, add_tranceivers,
  load_tranceivers, snmp_setting, load_snmp, general_setting, with_gps, load_general, section,
  configuration,
}
use ham_router.Config.Connections.{
  IsConnected, IsConnected-more, load_bridge_switchboard-Gives, load_routing_switchboard-Gives,
}
use ham_router.Config.Identities.{
  AreDistinct, register_interfaces-AreDistinct, find_tranceiver-AreDistinct,
}

-- A switchboard, if there is one, refers to the first `n` tranceivers only.
abbrev pub IsJoined : {R : Type 0} → ℕ → Option (Switchboard R) → Type 0
IsJoined n none = Unit
IsJoined n (some sb) = IsConnected n sb

-- The switchboard refers to tranceivers of the configuration only, and no two of these have the same id.
abbrev pub IsSound : {R : Type 0} → Configuration R → Type 0
IsSound cfg = IsJoined (length cfg.tranceivers) cfg.sb × AreDistinct (ids cfg)

module _ {R : Type 0} where
  IsJoined-more : (n m : ℕ) (sb : Option (Switchboard R)) → n ≤ m → IsJoined n sb → IsJoined m sb
  IsJoined-more n m none l h = tt
  IsJoined-more n m (some sb) l h = IsConnected-more n m sb l h

  connected :
      (cfg : Configuration R)
      → IsJoined (length cfg.tranceivers) cfg.sb
      → IsConnected (length (ids cfg)) (board cfg.sb)
  connected cfg h = rw (length-map (λ (t : Device Kind). t.id) cfg.tranceivers) (one cfg.sb h)
    where
      one :
          (sb : Option (Switchboard R))
          → IsJoined (length cfg.tranceivers) sb
          → IsConnected (length cfg.tranceivers) (board sb)
      one none h = (tt, tt)
      one (some sb) h = h

  with_board :
      (cfg : Configuration R) (r : Loaded (Switchboard R))
      → AreDistinct (ids cfg)
      → Gives (IsConnected (length (ids cfg))) r
      → Gives IsSound (set r (λ v. record cfg { sb = some v }))
  with_board cfg r d h =
      then-Gives _ IsSound r _ h
        (λ v g. (subst (λ n. IsConnected n v) (length-map _ cfg.tranceivers) g, d))

module _ (c : Libconfig) (h : Host) {R : Type 0} (regcomp : List ℕ → Option R) (start : ℕ) where
  open c use {Setting, elements}

  add_tranceiver-Gives :
      (i : ℕ) (node : Setting) (cfg : Configuration R)
      → IsJoined (length cfg.tranceivers) cfg.sb
      → Gives
          (λ cfg'. IsJoined (length cfg'.tranceivers) cfg'.sb)
          (add_tranceiver c h regcomp start i node cfg)
  unfolding add_tranceiver
  add_tranceiver-Gives i node cfg j =
      then-Gives_any _ (instantiate c cfg.filters cfg.tranceivers cfg.gps node) _ λ t.
        then-Gives_any _ (constructed h i t cfg.registry) _ λ registry.
          let l = length-append cfg.tranceivers (t ∷ []) in
          IsJoined-more (length cfg.tranceivers) (length (cfg.tranceivers ++ t ∷ [])) cfg.sb
            (omega arith) j

  add_tranceivers-Gives :
      (i : ℕ) (nodes : List Setting) (cfg : Configuration R)
      → IsJoined (length cfg.tranceivers) cfg.sb
      → Gives
          (λ cfg'. IsJoined (length cfg'.tranceivers) cfg'.sb)
          (add_tranceivers c h regcomp start i nodes cfg)
  unfolding add_tranceivers
  add_tranceivers-Gives i [] cfg j = j
  add_tranceivers-Gives i (node ∷ more) cfg j =
      then-Gives _ _ (add_tranceiver c h regcomp start (i + 1) node cfg) _
        (add_tranceiver-Gives (i + 1) node cfg j) (add_tranceivers-Gives (i + 1) more)

  -- `load_tranceivers` keeps the ids apart, whatever they were before.
  load_tranceivers-Gives :
      (node_in : Setting) (cfg : Configuration R)
      → IsJoined (length cfg.tranceivers) cfg.sb
      → Gives IsSound (load_tranceivers c h regcomp start node_in cfg)
  unfolding load_tranceivers
  load_tranceivers-Gives node_in cfg j =
      then-Gives _ IsSound (add_tranceivers c h regcomp start 0 (elements node_in) cfg) _
        (add_tranceivers-Gives 0 (elements node_in) cfg j)
        (λ cfg' j'.
          then-Gives _ IsSound (register_interfaces h 1 cfg'.tranceivers _) _
            (register_interfaces-AreDistinct h 1 cfg'.tranceivers _) (λ r (free, d). (j', d)))

  load_snmp-Gives :
      (node_in : Setting) (cfg : Configuration R)
      → IsSound cfg
      → Gives IsSound (load_snmp c h regcomp start node_in cfg)
  unfolding load_snmp
  load_snmp-Gives node_in cfg s =
      then-Gives_any IsSound (settings c (snmp_setting c node_in) node_in cfg.snmp_port) _ λ port. s

  with_gps-Gives : (cfg : Configuration R) → IsSound cfg → Gives IsSound (with_gps cfg)
  unfolding with_gps
  with_gps-Gives cfg s = one cfg.gps
    where
      one :
          (gps : Option GpsConnector)
          → Gives {A = Configuration R} IsSound (elim gps [ none ↦ exits | some g ↦ loaded cfg ])
      one none = tt
      one (some g) = s

  general_setting-Gives :
      (node_in : Setting) (type : List ℕ) (node : Setting) (cfg : Configuration R)
      → IsSound cfg
      → Gives IsSound (general_setting c h regcomp start node_in type node cfg)
  unfolding general_setting
  general_setting-Gives node_in type node cfg s =
      if_cases (Gives IsSound) (codes "gps" ==ₛ type)
        (then-Gives_any IsSound (instantiate_gps c node) _ λ v. s)
        (if_cases (Gives IsSound) (codes "logfile" ==ₛ type)
          (then-Gives_any IsSound (text_at c node_in type) _ λ v. s)
          (if_cases (Gives IsSound) (codes "repetition-rate-limiting" ==ₛ type)
            (one cfg.global_repetition_filter) tt))
    where
      one :
          (f : Option SeenT)
          → Gives {A = Configuration R} IsSound (elim f [
            | some s ↦ exits
            | none ↦
                set
                  (instantiate_seen c node)
                  (λ v. record cfg { global_repetition_filter = some v })
          ])
      one (some f) = tt
      one none = then-Gives_any IsSound (instantiate_seen c node) _ λ v. s

  section-Gives :
      (name : List ℕ) (node : Setting) (cfg : Configuration R)
      → IsSound cfg
      → Gives IsSound (section c h regcomp start name node cfg)
  unfolding section load_general
  section-Gives name node cfg (j, d) =
      if_cases (Gives IsSound) (codes "filters" ==ₛ name)
        (then-Gives_any IsSound (load_filters c node cfg.filters) _ λ v. (j, d))
        (if_cases (Gives IsSound) (codes "general" ==ₛ name)
          (then-Gives IsSound IsSound (settings c (general_setting c h regcomp start node) node cfg)
            _
            (settings-Gives c IsSound (general_setting c h regcomp start node)
              (general_setting-Gives node) node cfg (j, d))
            with_gps-Gives)
          (if_cases (Gives IsSound) (codes "tranceivers" ==ₛ name)
            (load_tranceivers-Gives node cfg j)
            (if_cases (Gives IsSound) (codes "bridge-mappings" ==ₛ name)
              (with_board cfg _ d (
                load_bridge_switchboard-Gives c cfg.filters (ids cfg) node (board cfg.sb)
                  (connected cfg j)))
              (if_cases (Gives IsSound) (codes "routing-mappings" ==ₛ name)
                (with_board cfg _ d (
                  load_routing_switchboard-Gives c regcomp (ids cfg) node (board cfg.sb)
                    (connected cfg j)))
                (if_cases (Gives IsSound) (codes "snmp" ==ₛ name) (load_snmp-Gives node cfg (j, d))
                  tt)))))

  -- In every configuration that is loaded, whatever the file says, the switchboard refers to tranceivers of
  -- the configuration only, every bridge that it has leads to at least one of them, and no two of them have
  -- the same id.
  pub configuration-IsSound :
      (root : Setting) (registry : Registry) (cfg : Configuration R)
      → configuration c h regcomp start root registry ≡ loaded cfg
      → IsSound cfg
  unfolding configuration
  configuration-IsSound root registry cfg e = subst (Gives IsSound) e (
      settings-Gives c IsSound (section c h regcomp start) section-Gives root
        (no_configuration registry) (tt, tt))

  -- In a configuration that is loaded, the tranceiver at a place is the one that its id finds.
  pub configuration-find_tranceiver :
      (root : Setting) (registry : Registry) (cfg : Configuration R) (i : ℕ) (id : List ℕ)
      → configuration c h regcomp start root registry ≡ loaded cfg
      → get_elem? (ids cfg) i ≡ some id
      → find_tranceiver id (ids cfg) ≡ some i
  configuration-find_tranceiver root registry cfg i id e f =
      find_tranceiver-AreDistinct (ids cfg) i id (configuration-IsSound root registry cfg e).1 f
