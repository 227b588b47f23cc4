-- ===== src/Config/Registry.antt =====
-- The statistics and the SNMP data that the tranceivers of the configuration file register: `stats::
-- register_stat` with its OID, `register_snmp_counters` of tranceiver.cpp and seen.cpp, and the
-- constructors of tranceiver-aprs-si.cpp and tranceiver-lora-sx1278.cpp.
use ham_router.Common.{ℕ, List, [], ◌∷◌, ◌++◌, length, ◌==◌, if◌then◌else◌, none, some, codes}
use ham_router.Common.Int.{ℤ}
use ham_router.Snmp.{IntegerType, si_counter32, si_counter64}
use ham_router.Snmp.Data.{Nodes, counter, register_oid}
use ham_router.Stats.{Stats, register_stat}
use ham_router.Settings.{Loaded, loaded, exits, ◌>>=◌, each}
use ham_router.Config.Devices.{Device}
use ham_router.Config.Devices.Kinds.{
  Kind, aprs_si, kiss_kernel, kiss_tty, lora_sx1278, axudp, beacon, tranceiver_db, mqtt, ws,
}

pub record Registry : Type 0 where
  pub sd : Nodes
  pub st : Stats

-- What a counter is registered with: its name, its OID and its type.
pub record Counter : Type 0 where
  pub name : List ℕ
  pub oid : List ℕ
  pub type : IntegerType

-- `atoi`, and the format `%zu`, of the C library; and what the constructors ask of the operating system
-- and of the libraries, to open a device, a socket or a connection.
pub record Host : Type 0 where
  pub atoi : List ℕ → ℤ
  pub format : ℕ → List ℕ
  pub construct : Device Kind → Loaded (Unit {0})

-- The counters of the functions below, where `n` is a number in text and `id` the tranceiver's name.
abbrev pub interface_counters : List ℕ → List ℕ → List Counter
interface_counters id n =
    record {
      name = id ++ codes "-ifInOctets";
      oid = codes "1.3.6.1.2.1.2.2.1.10." ++ n;
      type = si_counter32;
    }
    ∷ record {
      name = id ++ codes "-ifHCInOctets";
      oid = codes "1.3.6.1.2.1.31.1.1.1.6." ++ n;
      type = si_counter64;
    }
    ∷ record {
      name = id ++ codes "-ifInUcastPkts";
      oid = codes "1.3.6.1.2.1.2.2.1.11." ++ n;
      type = si_counter32;
    }
    ∷ record {
      name = id ++ codes "-ifOutOctets";
      oid = codes "1.3.6.1.2.1.2.2.1.16." ++ n;
      type = si_counter32;
    }
    ∷ record {
      name = id ++ codes "-ifHCOutOctets";
      oid = codes "1.3.6.1.2.1.31.1.1.1.10." ++ n;
      type = si_counter64;
    }
    ∷ record {
      name = id ++ codes "-ifOutUcastPkts";
      oid = codes "1.3.6.1.2.1.2.2.1.17." ++ n;
      type = si_counter32;
    }
    ∷ []

abbrev pub own_counter : List ℕ → List ℕ → List ℕ → List ℕ → List ℕ → Counter
own_counter name group n nr id = record {
  name = id ++ name;
  oid = codes "1.3.6.1.2.1.4.57850.2." ++ (group ++ (codes "." ++ (n ++ (codes "." ++ nr))));
  type = si_counter64;
}

abbrev pub seen_counters : List ℕ → List ℕ → List Counter
seen_counters id n =
    own_counter (id ++ codes "-hit") (codes "3") n (codes "1") (codes "seen-")
    ∷ own_counter (id ++ codes "-miss") (codes "3") n (codes "2") (codes "seen-")
    ∷ []

abbrev pub constructor_counters : Kind → List ℕ → List ℕ → List Counter
constructor_counters (aprs_si k) id n =
    own_counter (codes "-aprs-frames") (codes "4") n (codes "1") id
    ∷ own_counter (codes "-aprs-frames-rate-limited") (codes "4") n (codes "2") id
    ∷ own_counter (codes "-aprs-frames-invalid") (codes "4") n (codes "3") id
    ∷ []
constructor_counters (lora_sx1278 k) id n =
    own_counter (codes "-valid-packets") (codes "5") n (codes "1") id
    ∷ own_counter (codes "-invalid-packets") (codes "5") n (codes "2") id
    ∷ []
constructor_counters (kiss_kernel k) id n = []
constructor_counters (kiss_tty k) id n = []
constructor_counters (axudp k) id n = []
constructor_counters (beacon k) id n = []
constructor_counters (tranceiver_db k) id n = []
constructor_counters (mqtt k) id n = []
constructor_counters (ws k) id n = []

module _ (h : Host) where
  open h use {atoi, format, construct}

  -- `register_stat`. An empty OID is not registered.
  unfoldable pub register : Counter → Registry → Loaded Registry
  register k r = elim (register_stat k.name k.oid r.st) [
    | none ↦ exits
    | some (p, st') ↦ loaded (record {
      sd = if length k.oid == 0 then r.sd else register_oid atoi k.oid (counter k.type p) r.sd;
      st = st';
    })
  ]

  -- What the constructor of a tranceiver does.
  unfoldable pub constructed : ℕ → Device Kind → Registry → Loaded Registry
  unfolding register
  constructed device_nr d r =
      each register (constructor_counters d.kind d.id (format device_nr)) r >>= λ r'.
      construct d >>= λ _. loaded r'

  unfoldable pub register_snmp_counters : ℕ → Device Kind → Registry → Loaded Registry
  unfolding register
  register_snmp_counters device_nr d r =
      each register (interface_counters d.id (format device_nr)) r >>= λ r'. elim d.s [
        | none ↦ loaded r'
        | some s ↦ each register (seen_counters d.id (format device_nr)) r'
      ]
