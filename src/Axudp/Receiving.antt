-- ===== src/Axudp/Receiving.antt =====
-- What the thread of tranceiver-axudp.cpp queues of a datagram.
use ham_router.Common.{
  ℕ, ◌-◌, ◌≤◌, ◌<◌, subst, List, [], ◌∷◌, ◌++◌, length, take, true, false, ltb, min, some, inl, inr,
  ◌⊎◌, ◌≡◌, refl, sym, ap, ◌∙◌, arith, length-take, take_all, take-take, Bool-cases,
}
use ham_router.Net.Udp.{Sockets}
use ham_router.Message.{Message, message, get_content}
use ham_router.Seen.{Cells}
use ham_router.Tranceiver.{Site, Tranceiver, Queued, queue_incoming_message}
use ham_router.Tranceiver.Queue.{Outcome, queue_incoming_message_queues}
use ham_router.Axudp.{Axudp, Datagram, with_crc, max_pkt_len, pass_on, receive}
use ham_router.Axudp.Sending.{length-with_crc, take-with_crc}

module _ (s : Sockets) (site : Site) (fuel self : ℕ) (x : Axudp) where
  open s use {Network}

  -- Passing on leaves the queue as it is.
  pass_on_queued :
      (m : Message) (from : List ℕ) (r : Queued) (w : Network)
      → (pass_on s site fuel self x m from r w).queued ≡ r
  unfolding pass_on
  pass_on_queued m from r w = ground arith

  pub receive_queued :
      (tv msg_id : ℕ) (g : Datagram) (t : Tranceiver) (cells : Cells) (work : List ℕ) (w : Network)
      → 2 < length (take max_pkt_len g.bytes)
      → (receive s site fuel self x tv msg_id g t cells work w).queued
        ≡ queue_incoming_message site self
            (message tv
              (some self)
              msg_id
              (take (length (take max_pkt_len g.bytes) - 2) (take max_pkt_len g.bytes)))
            t
            cells
            work
  unfolding receive
  receive_queued tv msg_id g t cells work w h =
      let long : ltb 2 (length (take max_pkt_len g.bytes)) ≡ true = ground arith in
      rw long (pass_on_queued _ _ _ _)

  short_kept :
      (tv msg_id : ℕ) (g : Datagram) (t : Tranceiver) (cells : Cells) (work : List ℕ) (w : Network)
      → ltb 2 (length (take max_pkt_len g.bytes)) ≡ false
      → let r = receive s site fuel self x tv msg_id g t cells work w in
        (r.queued.tranceiver.incoming ≡ t.incoming) × (r.queued.work_list ≡ work)
  unfolding receive
  short_kept tv msg_id g t cells work w h = rw h (refl, refl)

  -- A datagram that put_message_low sends of a content of 1 to 1598 bytes is a message with that content
  -- to the receiver, which queues it as its own, or refuses it and leaves its queue as it was.
  pub receive-with_crc :
      (tv msg_id : ℕ) (g : Datagram) (content : List ℕ) (t : Tranceiver) (cells : Cells)
      (work : List ℕ) (w : Network)
      → g.bytes ≡ with_crc content
      → 1 ≤ length content
      → length content ≤ 1598
      → Outcome self
          (message tv (some self) msg_id content)
          t
          work
          (receive s site fuel self x tv msg_id g t cells work w).queued
  receive-with_crc tv msg_id g content t cells work w e more less =
      let whole : take max_pkt_len g.bytes ≡ with_crc content =
        ap (take max_pkt_len) e
        ∙ take_all max_pkt_len (with_crc content) (omega (arith, length-with_crc content)) in
      let cut : take (length (take max_pkt_len g.bytes) - 2) (take max_pkt_len g.bytes) ≡ content =
        ap (λ b. take (length b - 2) b) whole ∙ take-with_crc content in
      let long : 2 < length (take max_pkt_len g.bytes) =
        omega (arith, ap length whole, length-with_crc content) in
      let queued = receive_queued tv msg_id g t cells work w long in
      subst (Outcome self (message tv (some self) msg_id content) t work)
        (sym (
          queued
          ∙ ap
              (λ c. queue_incoming_message site self (message tv (some self) msg_id c) t cells work)
              cut))
        (queue_incoming_message_queues site self (message tv (some self) msg_id content) t cells
          work)

  -- The queue as it was, or one message more, of all of the datagram that fits but its last two bytes.
  abbrev pub TakesIn : Datagram → Tranceiver → List ℕ → Queued → Type 0
  TakesIn g t work r =
      ((r.tranceiver.incoming ≡ t.incoming) × (r.work_list ≡ work))
      ⊎ ((q : Message) × (r.tranceiver.incoming ≡ t.incoming ++ q ∷ [])
          × (r.work_list ≡ work ++ self ∷ [])
          × (get_content q ≡ take (min 1600 (length g.bytes) - 2) g.bytes)
          × (1 ≤ length (get_content q)))

  grown-TakesIn :
      (g : Datagram) (t : Tranceiver) (work : List ℕ) (m : Message) (r : Queued)
      → get_content m ≡ take (min 1600 (length g.bytes) - 2) g.bytes
      → 1 ≤ length (get_content m)
      → Outcome self m t work r
      → TakesIn g t work r
  grown-TakesIn g t work m r c n (inl (q, _, grown, more, same, _, _)) =
      inr (q, grown, more, same ∙ c, omega (arith, ap length same))
  grown-TakesIn g t work m r c n (inr (_, same, work_same)) = inl (same, work_same)

  -- Whatever the datagram is: at most one message comes of it, which is never empty and holds its
  -- bytes up to the 1600th but for the last two of them; else the queue stays as it was.
  pub receive-TakesIn :
      (tv msg_id : ℕ) (g : Datagram) (t : Tranceiver) (cells : Cells) (work : List ℕ) (w : Network)
      → TakesIn g t work (receive s site fuel self x tv msg_id g t cells work w).queued
  receive-TakesIn tv msg_id g t cells work w =
      let buffer = take max_pkt_len g.bytes in
      let n : length buffer ≡ min 1600 (length g.bytes) = length-take max_pkt_len g.bytes in
      let content : take (length buffer - 2) buffer ≡ take (min 1600 (length g.bytes) - 2) g.bytes =
        ap (λ k. take (k - 2) buffer) n
        ∙ take-take (min 1600 (length g.bytes) - 2) max_pkt_len g.bytes (omega arith) in
      elim (Bool-cases (ltb 2 (length buffer))) [
        | inl long ↦
            let longer : 2 < length buffer = ground arith in
            let m : Message = message tv (some self) msg_id (take (length buffer - 2) buffer) in
            subst (TakesIn g t work)
              (sym (receive_queued tv msg_id g t cells work w (ground arith)))
              (grown-TakesIn g t work m (queue_incoming_message site self m t cells work) content
                (omega (arith, length-take (length buffer - 2) buffer, longer))
                (queue_incoming_message_queues site self m t cells work))
        | inr short ↦ inl (short_kept tv msg_id g t cells work w short)
      ]
