-- ===== src/Lora/Waiting.antt =====
-- The waits of the radio.
use ham_router.Common.{
  ℕ, zero, suc, ◌+◌, ◌-◌, ◌*◌, ◌%◌, ◌^◌, ◌≤◌, ◌<◌, ltb, if_cases, if_split, length, Bool, not,
  Option, some, none, ◌≡◌, refl, arith, ap,
}
use ham_router.Transmit.{TransmitError}
use ham_router.Message.{Message, get_content}
use ham_router.Lora.{Modem, wait, since, send_packet, put_message_low, sent, finished}

-- The clock is not set while the radio is used, and no signal ends a sleep: a sleep takes the 101 ms that
-- it is asked for at least, and neither a sleep nor the start of a transmission takes more than 2^62
-- microseconds.
pub record IsSteady (modem : Modem) : Type 0 where
  pub sleeps : (w : modem.World) → modem.clock w + 101000 ≤ modem.clock (modem.usleep w)
  pub sleeps_end : (w : modem.World) → modem.clock (modem.usleep w) ≤ modem.clock w + 2 ^ 62
  pub sends : (w : modem.World) → modem.clock w ≤ modem.clock (modem.send w)
  pub sends_end : (w : modem.World) → modem.clock (modem.send w) ≤ modem.clock w + 2 ^ 62

module _ (modem : Modem) (steady : IsSteady modem) where
  open modem use {World, clock, terminate, is_standby, usleep, stop_receive, set_data, send}
  open steady use {sleeps, sleeps_end, sends, sends_end}

  -- From `start` on the clock has not wrapped, so it tells the time that passed.
  since_start :
      (start : ℕ) (w : World)
      → start ≤ clock w
      → clock w < start + 2 ^ 64
      → since modem (start % 2 ^ 64) w ≡ clock w - start
  since_start start w low high = omega arith

  -- Where a wait that comes out leaves the clock.
  abbrev Over : ℕ → ℕ → Option World → Type 0
  Over bound start none = ⊥
  Over bound start (some w) = (start ≤ clock w) × (clock w < start + bound)

  -- A round: the thread only goes on while the time is not up.
  round-Over :
      (bound n start : ℕ) (w : World)
      → 2 ^ 63 ≤ bound
      → bound ≤ 2 ^ 64
      → start ≤ clock w
      → clock w < start + bound
      → (clock w < start + 60000000 → Over bound start (wait modem n (start % 2 ^ 64) (usleep w)))
      → Over bound start (wait modem (suc n) (start % 2 ^ 64) w)
  unfolding wait
  round-Over bound n start w wide narrow low high rest =
      let passed = since_start start w low (omega arith) in
      if_cases (Over bound start) (is_standby w) (low, high)
        (if_cases (Over bound start) (terminate w) (low, high)
          (if_split (Over bound start) (ltb (since modem (start % 2 ^ 64) w) 60000000)
            (λ y. rest (ground (arith, passed))) (λ n. (low, high))))

  -- Waiting is over when the time that is left is up.
  wait-Over :
      (bound n start : ℕ) (w : World)
      → 2 ^ 63 ≤ bound
      → bound ≤ 2 ^ 64
      → start ≤ clock w
      → clock w < start + bound
      → start + 60000000 ≤ clock w + 101000 * n
      → Over bound start (wait modem (suc n) (start % 2 ^ 64) w)
  wait-Over bound zero start w wide narrow low high fuel =
      round-Over bound zero start w wide narrow low high (λ b. absurd (omega arith))
  wait-Over bound (suc k) start w wide narrow low high fuel =
      round-Over bound (suc k) start w wide narrow low high (λ b.
        wait-Over bound k start (usleep w) wide narrow (omega (arith, sleeps w))
          (omega (arith, sleeps_end w)) (omega (arith, sleeps w)))

  wait_ends :
      (bound fuel start : ℕ) (w : World)
      → 2 ^ 63 ≤ bound
      → bound ≤ 2 ^ 64
      → 596 ≤ fuel
      → start ≤ clock w
      → clock w < start + bound
      → Over bound start (wait modem fuel (start % 2 ^ 64) w)
  wait_ends bound zero start w wide narrow h low high = absurd (omega arith)
  wait_ends bound (suc n) start w wide narrow h low high =
      wait-Over bound n start w wide narrow low high (omega arith)

  abbrev Ends {ℓ} : {A : Type ℓ} → Option A → Type ℓ
  Ends {A = A} r = (a : A) × (r ≡ some a)

  send_packet-Ends :
      (fuel start : ℕ) (w : World)
      → 596 ≤ fuel
      → start ≤ clock w
      → clock w < start + 2 ^ 63
      → Ends (send_packet modem fuel (start % 2 ^ 64) w)
  unfolding send_packet
  send_packet-Ends fuel start w h low high =
      let second =
        wait_ends (2 ^ 63 + 2 ^ 62) fuel start (send w) (omega arith) (omega arith) h
          (omega (arith, sends w)) (omega (arith, sends_end w)) in
      if_cases Ends (not (is_standby w)) (_, refl)
        (out (wait modem fuel (start % 2 ^ 64) (send w)) second)
    where
      out : (r : Option World) → Over (2 ^ 63 + 2 ^ 62) start r → Ends (sent modem r)
      out none o = absurd o
      out (some w) o = (_, refl)

  -- Sending by radio comes to its end, with a result, where the clock of the system is not set
  -- meanwhile and no signal ends a sleep, so that a sleep takes its 101 ms at least, and neither a
  -- sleep nor the start of a transmission takes more than 2^62 microseconds: 596 rounds are enough
  -- for each of its two waits, whatever the radio does.
  pub put_message_low_ends :
      (fuel : ℕ) (m : Message) (w : World)
      → 596 ≤ fuel
      → (r : TransmitError × World) × (put_message_low modem fuel m w ≡ some r)
  unfolding put_message_low
  put_message_low_ends fuel m w h =
      if_cases Ends (ltb 255 (length (get_content m))) (_, refl)
        (both (wait modem fuel (clock begun % 2 ^ 64) begun) (
          wait_ends (2 ^ 63) fuel (clock begun) begun (omega arith) (omega arith) h (omega arith)
            (omega arith)))
    where
      begun : World
      begun = stop_receive (set_data (get_content m) w)

      done : (r : Option (Bool × World)) → Ends r → Ends (finished modem r)
      done r (a, e) = (_, ap (finished modem) e)

      both :
          (r : Option World)
          → Over (2 ^ 63) (clock begun) r
          → Ends (elim r [
            | none ↦ none
            | some w2 ↦ finished modem (send_packet modem fuel (clock begun % 2 ^ 64) w2)
          ])
      both none o = absurd o
      both (some w2) (low, high) =
          done (send_packet modem fuel (clock begun % 2 ^ 64) w2)
            (send_packet-Ends fuel (clock begun) w2 h low high)
