-- ===== src/Runs/Agents.antt =====
-- The SNMP agent at concrete inputs.
use ham_router.Common.{
  ℕ, zero, suc, ◌-◌, List, [], ◌∷◌, ◌++◌, true, false, ◌==◌, if◌then◌else◌, some, codes, All, ◌≡◌,
  refl, ap, arith,
}
use ham_router.Common.Int.{ℤ, pos}
use ham_router.Text.{one_of, split, find}
use ham_router.Snmp.Oids.{snmp_oid}
use ham_router.Snmp.Oids.RoundTrip.{IsDecimal, dotted, get_oid-snmp_oid}
use ham_router.Snmp.Requests.{Agent, get_oid}
use ham_router.Snmp.Data.{
  static_text, no_nodes, get_data, register_oid, find_by_oid, find_path, keys, find_node,
}
use ham_router.Snmp.Data.Lookup.{find_by_oid-register_oid}

-- Numbers that are written and read as rows of the digit 1, one more than the number.
abbrev row : ℕ → List ℕ
row zero = []
row (suc n) = b'1' ∷ row n

abbrev ones : List ℕ → ℕ
ones [] = 0
ones (c ∷ cs) = if c == b'1' then suc (ones cs) else 0

abbrev format : ℕ → List ℕ
format n = row (suc n)

abbrev atoll : List ℕ → ℕ
atoll text = ones text - 1

ones-row : (n : ℕ) → ones (row n) ≡ n
ones-row zero = refl
ones-row (suc n) = ap suc (ones-row n)

ones-row_next : (n : ℕ) (rest : List ℕ) → ones (row n ++ b'.' ∷ rest) ≡ n
ones-row_next zero rest = refl
ones-row_next (suc n) rest = ap suc (ones-row_next n rest)

row_no_dot : (n : ℕ) → All (λ c. one_of (codes ".") c ≡ false) (row n)
row_no_dot zero = tt
row_no_dot (suc n) = (refl, row_no_dot n)

rows : IsDecimal format atoll
rows = record {
  read_last = λ n h. omega (arith, ones-row n);
  read_next = λ n rest h. omega (arith, ones-row_next n rest);
  not_empty = λ n. omega arith;
  no_dot = λ n. row_no_dot (suc n);
}

get_oid-snmp_oid_example :
    get_oid format (snmp_oid atoll (codes "1.3" ++ dotted format (6 ∷ 1 ∷ [])))
    ≡ (true, codes "1.3.1111111.11")
get_oid-snmp_oid_example =
    get_oid-snmp_oid format atoll rows 6 (1 ∷ []) (omega arith) (omega arith, tt)

abbrev index : List ℕ → ℤ
index text = pos (atoll text)

find_by_oid-register_oid_example :
    (find_by_oid atoll
        (λ p. 0)
        9
        (codes "1.3")
        (register_oid index (codes "1.3") (static_text (codes "me")) no_nodes)
      ≡ some (get_data atoll (λ p. 0) 9 (static_text (codes "me"))))
    × (find_by_oid atoll
          (λ p. 0)
          9
          (codes "1.4")
          (register_oid index (codes "1.3") (static_text (codes "me")) no_nodes)
        ≡ find_by_oid atoll (λ p. 0) 9 (codes "1.4") no_nodes)
unfolding split find find_by_oid find_path keys find_node
find_by_oid-register_oid_example =
    find_by_oid-register_oid index atoll (λ p. 0) 9 (codes "1.3") (codes "1.4")
      (static_text (codes "me")) no_nodes (omega arith) refl refl

abbrev deaf : Agent
deaf = record { format = format; find_next_oid = λ text. [] }

-- A GetRequest for 1.3.6.
abbrev request : List ℕ
request =
    0x30 ∷ 0x1b ∷ 2 ∷ 1 ∷ 1 ∷ 4 ∷ 1 ∷ b'p' ∷ 0xa0 ∷ 0x13 ∷ 2 ∷ 1 ∷ 7 ∷ 2 ∷ 1 ∷ 0 ∷ 2 ∷ 1 ∷ 0 ∷ 0x30
    ∷ 8 ∷ 0x30 ∷ 6 ∷ 6 ∷ 2 ∷ 43 ∷ 6 ∷ 5 ∷ 0 ∷ []
