-- ===== src/Router/Interleavings.antt =====
-- The work list of main.cpp and the queues of the tranceivers, whatever the order of the threads' steps.
use ham_router.Common.{
  ℕ, ◌+◌, ◌≤◌, List, [], ◌∷◌, ◌++◌, length, true, ◌==◌, if◌then◌else◌, Option, none, some, ◌≡◌, ap,
  arith, ==_iff, ==_refl, Bool-cases, Option-cases, inl, inr, length-append,
}
use ham_router.Message.{Message}
use ham_router.Tranceiver.{Tranceiver, peek, get_message}
use ham_router.Router.{Shared, Step, arrives, lists, takes, gets, Reach, here, next}

unfoldable pub count : ℕ → List ℕ → ℕ
count i [] = 0
count i (j ∷ xs) = (if j == i then 1 else 0) + count i xs

abbrev pub count_held : ℕ → Option ℕ → ℕ
count_held i none = 0
count_held i (some j) = if j == i then 1 else 0

-- Each tranceiver is on its way to the main thread as often as it has messages in its queue.
abbrev pub IsBalanced : Shared → Type 0
IsBalanced st =
    (i : ℕ)
    → length (st.tranceivers i).incoming
      ≡ count i st.announced + count i st.work_list + count_held i st.held

count-append : (i : ℕ) (xs ys : List ℕ) → count i (xs ++ ys) ≡ count i xs + count i ys
unfolding count
count-append i [] ys = omega arith
count-append i (x ∷ xs) ys = omega (arith, count-append i xs ys)

length-get_message :
    (t : Tranceiver)
    → 1 ≤ length t.incoming
    → length (get_message t).1.incoming + 1 ≡ length t.incoming
unfolding get_message
length-get_message t h = ground arith

Step-IsBalanced : {st u : Shared} → Step st u → IsBalanced st → IsBalanced u
unfolding count
Step-IsBalanced (arrives st j m) h i =
    let old = h i in
    ground (arith, ==_iff i j, ==_iff j i, length-append (st.tranceivers i).incoming (m ∷ []))
Step-IsBalanced (lists st xs ys j e) h i = omega (
  arith,
  h i,
  ap (count i) e,
  count-append i xs (j ∷ ys),
  count-append i xs ys,
  count-append i st.work_list (j ∷ []),
)
Step-IsBalanced (takes st j more e f) h i = omega (arith, h i, ap (count i) f, ap (count_held i) e)
Step-IsBalanced (gets st j e) h i = elim (Bool-cases (i == j)) [
  | inl same ↦
      let e' : i ≡ j = (==_iff i j).0 same in
      let full : count_held i st.held ≡ 1 = rw (e, e') (ap (λ b. if b then 1 else 0) (==_refl j)) in
      let here = ap (λ k. length (st.tranceivers k).incoming) e' in
      rw same (
        omega (
          arith,
          h i,
          full,
          here,
          length-get_message (st.tranceivers j) (omega (arith, h i, full, here)),
        ))
  | inr other ↦
      let empty : count_held i st.held ≡ 0 =
        ground (arith, ap (count_held i) e, ==_iff i j, ==_iff j i) in
      rw other (omega (arith, h i, empty))
]

Reach-IsBalanced : {st u : Shared} → IsBalanced st → Reach st u → IsBalanced u
Reach-IsBalanced h here = h
Reach-IsBalanced h (next r step) = Step-IsBalanced step (Reach-IsBalanced h r)

peek-length : (t : Tranceiver) → 1 ≤ length t.incoming → peek t ≡ true
unfolding peek
peek-length t h = ground arith

get_message-length :
    (t : Tranceiver) → 1 ≤ length t.incoming → (m : Message) × ((get_message t).0 ≡ some m)
unfolding get_message
get_message-length t h = elim (Option-cases (get_message t).0) [
  | inl empty ↦ absurd (ground arith)
  | inr found ↦ found
]

-- From a state in which each tranceiver is on the work list as often as it has messages, whatever the
-- threads do and in whatever order: when the main thread has taken a tranceiver, its assertion holds
-- and the tranceiver gives it a message.
pub held_has_message :
    (st u : Shared) (i : ℕ)
    → IsBalanced st
    → Reach st u
    → u.held ≡ some i
    → (peek (u.tranceivers i) ≡ true)
      × ((m : Message) × ((get_message (u.tranceivers i)).0 ≡ some m))
unfolding count
held_has_message st u i h r e =
    let one : count_held i u.held ≡ 1 = ground (arith, ap (count_held i) e, ==_refl i) in
    let full : 1 ≤ length (u.tranceivers i).incoming = omega (arith, Reach-IsBalanced h r i, one) in
    (peek-length (u.tranceivers i) full, get_message-length (u.tranceivers i) full)

-- No message is left behind: when no tranceiver is about to be listed, listed or taken, every queue is
-- empty.
pub nothing_left :
    (st u : Shared) (i : ℕ)
    → IsBalanced st
    → Reach st u
    → u.announced ≡ []
    → u.work_list ≡ []
    → u.held ≡ none
    → (u.tranceivers i).incoming ≡ []
unfolding count
nothing_left st u i h r a w e =
    let balance = Reach-IsBalanced h r i in
    let zero_a : count i u.announced ≡ 0 = ap (count i) a in
    let zero_w : count i u.work_list ≡ 0 = ap (count i) w in
    let zero_h : count_held i u.held ≡ 0 = ap (count_held i) e in
    let empty : length (u.tranceivers i).incoming ≡ 0 =
      omega (arith, balance, zero_a, zero_w, zero_h) in
    ground arith
