-- ===== src/Axudp/Distribution.antt =====
-- What the filters of the peers do when tranceiver-axudp.cpp passes a datagram on: the message that
-- they are asked about is made of the datagram alone and has no fields.
use ham_router.Common.{
  subst, ℕ, ◌-◌, ◌^◌, ◌<◌, List, [], ◌∷◌, length, take, map, Bool, true, false, ltb, ◌==ₛ◌,
  if◌then◌else◌, Option, some, none, All, ◌≡◌, refl, sym, ap, ◌∙◌, arith,
}
use ham_router.Common.Assoc.{find}
use ham_router.Net.Udp.{Sockets, transmit_udp}
use ham_router.Transmit.{te_ok}
use ham_router.Message.{Message, message, get_content}
use ham_router.Filter.{FilterT, Outcome, ok, exits}
use ham_router.Filter.Syntax.{
  Term, Expr, test, group, one, join, print, IsExpr, field_passes, meaning, meaning_term,
}
use ham_router.Filter.Meaning.{execute_filter-meaning}
use ham_router.Seen.{Cells}
use ham_router.Tranceiver.{Site, Tranceiver, returned, Queued, queue_incoming_message}
use ham_router.Axudp.{
  Peer, Axudp, Datagram, exited, let_through, send_to_other_axudp_targets, came_from, max_pkt_len,
  pass_on, receive,
}
use ham_router.Axudp.Receiving.{receive_queued}

-- Without fields everything passes, or the program ends.
abbrev unasked : Bool → Outcome Bool
unasked true = ok true
unasked false = exits

both_true : (both : Bool) → (if both then true else true) ≡ true
both_true true = refl
both_true false = refl

mutual
  unfolding meaning meaning_term field_passes find

  meaning_term-no_fields : (ignore : Bool) (t : Term) → meaning_term ignore [] t ≡ unasked ignore
  meaning_term-no_fields true (test field equals quoted value) = refl
  meaning_term-no_fields false (test field equals quoted value) = refl
  meaning_term-no_fields ignore (group e) = meaning-no_fields ignore e

  meaning-no_fields : (ignore : Bool) (e : Expr) → meaning ignore [] e ≡ unasked ignore
  meaning-no_fields ignore (one t) = meaning_term-no_fields ignore t
  meaning-no_fields true (join e both t) =
      rw (meaning-no_fields true e, meaning_term-no_fields true t) (ap ok (both_true both))
  meaning-no_fields false (join e both t) = rw (meaning-no_fields false e) refl

-- A filter that is written as an expression that the fuel is enough for.
abbrev pub IsExpression : ℕ → FilterT → Type 0
IsExpression fuel f =
    (e : Expr) × (f.pattern ≡ print e)
    × IsExpr e
    × (length f.pattern < 2 ^ 63)
    × (length f.pattern < fuel)

let_through-no_fields :
    (fuel : ℕ) (m : Message) (f : FilterT)
    → m.meta ≡ []
    → IsExpression fuel f
    → let_through fuel m (some f) ≡ unasked f.ignore_if_field_is_missing
let_through-no_fields fuel m f none_known (e, p, h, small, enough) =
    rw (none_known, p)
      (execute_filter-meaning e f.ignore_if_field_is_missing [] fuel h
          (subst (λ l. length l < 2 ^ 63) p small) (subst (λ l. length l < fuel) p enough)
        ∙ meaning-no_fields f.ignore_if_field_is_missing e)

abbrev without_filter : Peer → Peer
without_filter p = (p.0, none)

-- No filter, or one that lets a message pass whose fields are missing.
abbrev pub IsLenient : ℕ → Option FilterT → Type 0
IsLenient fuel none = Unit
IsLenient fuel (some f) = IsExpression fuel f × (f.ignore_if_field_is_missing ≡ true)

lenient_passes :
    (fuel : ℕ) (m : Message) (f : Option FilterT)
    → m.meta ≡ []
    → IsLenient fuel f
    → let_through fuel m f ≡ ok true
lenient_passes fuel m none h k = refl
lenient_passes fuel m (some f) h (k, ignored) =
    let_through-no_fields fuel m f h k ∙ ap unasked ignored

module _ (s : Sockets) (c : Bool) where
  open s use {Network}

  send_unfiltered :
      (fuel : ℕ) (peers : List Peer) (m : Message) (from : List ℕ) (w : Network)
      → m.meta ≡ []
      → All (λ p. IsLenient fuel p.1) peers
      → send_to_other_axudp_targets s c fuel peers m from w
        ≡ send_to_other_axudp_targets s c fuel (map without_filter peers) m from w
  unfolding send_to_other_axudp_targets
  send_unfiltered fuel [] m from w h k = refl
  send_unfiltered fuel (p ∷ more) m from w h (k, ks) =
      let (sent, w') = transmit_udp s p.0 (get_content m) w in
      let passes = lenient_passes fuel m p.1 h k in
      let skip = send_unfiltered fuel more m from w h ks in
      let rest = send_unfiltered fuel more m from w' h ks in rw (passes, skip, rest) refl

  -- The first peer that is not the sender ends the program if its filter wants all fields.
  send_ends :
      (fuel : ℕ) (p : Peer) (f : FilterT) (more : List Peer) (m : Message) (from : List ℕ)
      (w : Network)
      → m.meta ≡ []
      → (p.0 ==ₛ from) ≡ false
      → p.1 ≡ some f
      → IsExpression fuel f
      → f.ignore_if_field_is_missing ≡ false
      → send_to_other_axudp_targets s c fuel (p ∷ more) m from w ≡ (exits, w)
  unfolding send_to_other_axudp_targets
  send_ends fuel p f more m from w h other g k strict =
      let ends : let_through fuel m p.1 ≡ exits =
        ap (let_through fuel m) g ∙ let_through-no_fields fuel m f h k ∙ ap unasked strict in
      rw (other, ends) refl

module _ (s : Sockets) (site : Site) (fuel self : ℕ) (x : Axudp) where
  open s use {Network}

  pass_on_unfiltered :
      (m : Message) (from : List ℕ) (r : Queued) (w : Network)
      → m.meta ≡ []
      → All (λ p. IsLenient fuel p.1) x.peers
      → pass_on s site fuel self x m from r w
        ≡ pass_on s site fuel self (record x { peers = map without_filter x.peers }) m from r w
  unfolding pass_on
  pass_on_unfiltered m from r w h k =
      let same = send_unfiltered s x.continue_on_error fuel x.peers m from w h k in ground arith

  -- The filters of the peers do not filter: where they are expressions that let a message pass whose
  -- fields are missing, a datagram is handled as it would be if no peer had a filter.
  pub receive_unfiltered :
      (tv msg_id : ℕ) (g : Datagram) (t : Tranceiver) (cells : Cells) (work : List ℕ) (w : Network)
      → All (λ p. IsLenient fuel p.1) x.peers
      → receive s site fuel self x tv msg_id g t cells work w
        ≡ receive s site fuel self
            (record x { peers = map without_filter x.peers })
            tv
            msg_id
            g
            t
            cells
            work
            w
  unfolding receive
  receive_unfiltered tv msg_id g t cells work w k =
      let buffer = take max_pkt_len g.bytes in
      rw
        (pass_on_unfiltered (message tv (some self) msg_id buffer) (came_from g)
          (queue_incoming_message site self
            (message tv (some self) msg_id (take (length buffer - 2) buffer)) t cells work)
          w refl k)
        refl

  -- If distribution is on, the first peer is not the sender, and its filter is an expression that
  -- wants all fields, then a datagram of more than two bytes, whose packet the limiter lets in and
  -- is queued, ends the program.
  pub receive_ends :
      (tv msg_id : ℕ) (g : Datagram) (t : Tranceiver) (cells : Cells) (work : List ℕ) (w : Network)
      (p : Peer) (f : FilterT) (more : List Peer)
      → x.distribute ≡ true
      → x.peers ≡ p ∷ more
      → (p.0 ==ₛ came_from g) ≡ false
      → p.1 ≡ some f
      → IsExpression fuel f
      → f.ignore_if_field_is_missing ≡ false
      → 2 < length (take max_pkt_len g.bytes)
      → (receive s site fuel self x tv msg_id g t cells work w).queued.answer ≡ returned te_ok
      → (receive s site fuel self x tv msg_id g t cells work w).handling ≡ exited
  unfolding receive pass_on
  receive_ends tv msg_id g t cells work w p f more dist peers other g' k strict long ok_answer =
      let buffer = take max_pkt_len g.bytes in
      let m : Message = message tv (some self) msg_id buffer in
      let r =
        queue_incoming_message site self
          (message tv (some self) msg_id (take (length buffer - 2) buffer)) t cells work in
      let longer : ltb 2 (length buffer) ≡ true = ground arith in
      let ends : send_to_other_axudp_targets s x.continue_on_error fuel x.peers m (came_from g) w
          ≡ (exits, w) =
        ap (λ ps. send_to_other_axudp_targets s x.continue_on_error fuel ps m (came_from g) w) peers
        ∙ send_ends s x.continue_on_error fuel p f more m (came_from g) w refl other g' k strict in
      let queued : r.answer ≡ returned te_ok =
        ap (λ q. q.answer) (sym (receive_queued s site fuel self x tv msg_id g t cells work w long))
        ∙ ok_answer in
      rw (longer, queued, dist, ends) refl
