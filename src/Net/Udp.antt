-- ===== src/Net/Udp.antt =====
-- transmit_udp of net.cpp, over the calls of the operating system that it makes.
use ham_router.Common.{
  ℕ, ◌+◌, List, [], ◌∷◌, length, take, drop, Bool, true, false, ◌==◌, Option, none, some, codes,
}
use ham_router.Common.Int.{ℤ, pos, negsuc}
use ham_router.Text.{find, c_str}

-- `getaddrinfo` gives addresses or an error, `socket` gives a descriptor or an error, and `sendto`
-- the number of bytes it sent or -1. They work on the state of the network.
pub record Sockets : Type 1 where
  pub Network : Type 0
  pub Address : Type 0
  pub getaddrinfo : List ℕ → List ℕ → Network → Option (List Address) × Network
  pub socket : Address → Network → Option ℕ × Network
  pub sendto : ℕ → List ℕ → Address → Network → ℤ × Network
  pub close : ℕ → Network → Network

abbrev is_count : ℤ → ℕ → Bool
is_count (pos n) m = n == m
is_count (negsuc n) m = false

module _ (s : Sockets) where
  open s use {Network, Address, getaddrinfo, socket, sendto, close}

  -- The loop over the addresses, which ends with the first one that has a socket. Where none has
  -- one, nothing is sent and the result is `true`.
  unfoldable pub send_first : List Address → List ℕ → Network → Bool × Network
  send_first [] bytes w = (true, w)
  send_first (a ∷ more) bytes w =
      let (opened, w') = socket a w in
      let rest = send_first more bytes w' in
      elim opened [
        | none ↦ rest
        | some fd ↦
            let (n, sent) = sendto fd bytes a w' in (is_count n (length bytes), close fd sent)
      ]

  abbrev to_addresses : Option (List Address) → List ℕ → Network → Bool × Network
  to_addresses none bytes w = (false, w)
  to_addresses (some found) bytes w = send_first found bytes w

  unfoldable pub transmit_udp : List ℕ → List ℕ → Network → Bool × Network
  unfolding send_first
  transmit_udp dest bytes w = elim (find (codes ":") dest) [
    | none ↦ (false, w)
    | some colon ↦
        let (found, w') = getaddrinfo (c_str (take colon dest)) (c_str (drop (colon + 1) dest)) w in
        to_addresses found bytes w'
  ]
