-- ===== src/Axudp/Sending.antt =====
-- What put_message_low of tranceiver-axudp.cpp sends, and to whom.
use ham_router.Common.{
  ℕ, ◌+◌, ◌-◌, ◌/◌, ◌%◌, ◌^◌, ◌<◌, List, [], ◌∷◌, ◌++◌, length, take, true, false, All, IsByte, ◌≡◌,
  refl, ap, ◌∙◌, arith, length-append, take-append,
}
use ham_router.Common.Bits.{bit_xor_lt}
use ham_router.Crc.Ppp.{compute_crc, ok_crc, pppfcs, pppinitfcs}
use ham_router.Crc.Ppp.Frames.{ok_crc-compute_crc, pppfcs_lt}
use ham_router.Net.Udp.{Sockets, transmit_udp}
use ham_router.Transmit.{te_ok, te_hardware}
use ham_router.Message.{Message, get_content}
use ham_router.Axudp.{Peer, Axudp, with_crc, send_all, put_message_low}

compute_crc_lt : (buf : List ℕ) → All IsByte buf → compute_crc buf < 2 ^ 16
unfolding compute_crc
compute_crc_lt buf h =
    bit_xor_lt 16 (pppfcs pppinitfcs buf) 0xffff (pppfcs_lt pppinitfcs buf h (omega arith))
      (omega arith)

pub ok_crc-with_crc : (content : List ℕ) → All IsByte content → ok_crc (with_crc content) ≡ true
ok_crc-with_crc content h =
    let crc = compute_crc content in
    let high : crc / 256 % 256 ≡ crc / 256 = omega (arith, compute_crc_lt content h) in
    ap (λ b. ok_crc (content ++ crc % 256 ∷ b ∷ [])) high ∙ ok_crc-compute_crc content h

pub length-with_crc : (content : List ℕ) → length (with_crc content) ≡ length content + 2
length-with_crc content =
    let crc = compute_crc content in
    omega (arith, length-append content (crc % 256 ∷ crc / 256 % 256 ∷ []))

pub take-with_crc :
    (content : List ℕ) → take (length (with_crc content) - 2) (with_crc content) ≡ content
take-with_crc content =
    let crc = compute_crc content in
    let n : length (with_crc content) - 2 ≡ length content =
      omega (arith, length-with_crc content) in
    ap (λ k. take k (with_crc content)) n ∙ take-append content (crc % 256 ∷ crc / 256 % 256 ∷ [])

module _ (s : Sockets) where
  open s use {Network}

  -- The network after the bytes were given to `transmit_udp` for each of the peers.
  unfoldable pub transmitted : List Peer → List ℕ → Network → Network
  transmitted [] bytes w = w
  transmitted (p ∷ more) bytes w = transmitted more bytes (transmit_udp s p.0 bytes w).1

  -- Every transmission to the peers succeeds.
  unfoldable pub AllSent : List Peer → List ℕ → Network → Type 0
  AllSent [] bytes w = Unit
  AllSent (p ∷ more) bytes w =
      ((transmit_udp s p.0 bytes w).0 ≡ true) × AllSent more bytes (transmit_udp s p.0 bytes w).1

  send_all_continues :
      (peers : List Peer) (bytes : List ℕ) (w : Network)
      → send_all s true peers bytes w ≡ (te_ok, transmitted peers bytes w)
  unfolding send_all transmitted
  send_all_continues [] bytes w = refl
  send_all_continues (p ∷ more) bytes w =
      let (sent, w') = transmit_udp s p.0 bytes w in
      let ih = send_all_continues more bytes w' in ground arith

  send_all_stops :
      (xs ys : List Peer) (p : Peer) (bytes : List ℕ) (w : Network)
      → AllSent xs bytes w
      → (transmit_udp s p.0 bytes (transmitted xs bytes w)).0 ≡ false
      → send_all s false (xs ++ p ∷ ys) bytes w
        ≡ (te_hardware, (transmit_udp s p.0 bytes (transmitted xs bytes w)).1)
  unfolding send_all transmitted AllSent
  send_all_stops [] ys p bytes w h f = rw f refl
  send_all_stops (x ∷ xs) ys p bytes w (sent, h) f =
      rw sent (send_all_stops xs ys p bytes (transmit_udp s x.0 bytes w).1 h f)

  -- With `continue_on_error` each peer is sent the content with its check sequence, and the result is
  -- TE_ok whatever failed; the datagram is one that `ok_crc` accepts.
  pub put_message_low_continues :
      (x : Axudp) (m : Message) (w : Network)
      → All IsByte (get_content m)
      → x.continue_on_error ≡ true
      → (put_message_low s x m w ≡ (te_ok, transmitted x.peers (with_crc (get_content m)) w))
        × (ok_crc (with_crc (get_content m)) ≡ true)
  unfolding put_message_low
  put_message_low_continues x m w bytes e = (
    ap (λ c. send_all s c x.peers (with_crc (get_content m)) w) e
        ∙ send_all_continues x.peers (with_crc (get_content m)) w,
    ok_crc-with_crc (get_content m) bytes,
  )

  -- Without it, the first peer that cannot be sent to ends the transmission with TE_hardware, and
  -- those behind it are sent nothing.
  pub put_message_low_stops :
      (x : Axudp) (m : Message) (w : Network) (xs ys : List Peer) (p : Peer)
      → x.continue_on_error ≡ false
      → x.peers ≡ xs ++ p ∷ ys
      → AllSent xs (with_crc (get_content m)) w
      → (transmit_udp s p.0
          (with_crc (get_content m))
          (transmitted xs (with_crc (get_content m)) w)).0
        ≡ false
      → put_message_low s x m w ≡ (
        te_hardware,
        (transmit_udp s p.0
            (with_crc (get_content m))
            (transmitted xs (with_crc (get_content m)) w)).1,
      )
  unfolding put_message_low
  put_message_low_stops x m w xs ys p e peers h f =
      rw (e, peers) (send_all_stops xs ys p (with_crc (get_content m)) w h f)
