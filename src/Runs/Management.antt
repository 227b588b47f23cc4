-- ===== src/Runs/Management.antt =====
-- SNMP elements and the statistics at concrete inputs.
use ham_router.Common.Assoc
use ham_router.Stats.{Stats, register_stat, find_stat}
use ham_router.Stats.Entries.{IsLaid, register_stat-find_stat}
use ham_router.Common.{
  ℕ, List, ◌+◌, ◌≤◌, All, some, ◌==ₛ◌, if◌then◌else◌, [], ◌∷◌, ◌≡◌, refl, arith,
}
use ham_router.Snmp.{Elem, sequence, null, octet_string, no_more, add, get_size, get_payload}
use ham_router.Snmp.Encoding.{get_payload-encoding}

abbrev reply : Elem
reply = sequence (add null (add (octet_string (1 ∷ 2 ∷ [])) (add null no_more)))

get_payload-encoding_example :
    (get_size reply ≡ 8) × (get_payload reply ≡ 0x30 ∷ 8 ∷ 5 ∷ 0 ∷ 4 ∷ 2 ∷ 1 ∷ 2 ∷ 5 ∷ 0 ∷ [])
get_payload-encoding_example =
    get_payload-encoding reply ((tt, (omega arith, (tt, tt))), omega arith)

abbrev fresh : Stats
fresh = record {
  size = 96;
  len = 48;
  lut = (1 ∷ [], record { p = 0; oid = [] }) ∷ [];
  cells = λ i. 5;
  names = λ i. [];
}

register_stat-find_stat_example :
    (s' : Stats) × (register_stat (2 ∷ []) [] fresh ≡ some (48, s'))
    × IsLaid s'
    × All (λ e. e.1.p + 48 ≤ 48) fresh.lut
    × (s'.cells 48 ≡ 0)
    × ((k : List ℕ) → find_stat k s' ≡ (if (2 ∷ []) ==ₛ k then some 48 else find_stat k fresh))
unfolding Assoc.find
register_stat-find_stat_example =
    register_stat-find_stat (2 ∷ []) [] fresh ((omega arith, tt), omega arith) refl (omega arith)
