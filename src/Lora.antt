-- ===== src/Lora.antt =====
-- tranceiver-lora-sx1278.cpp: packets by radio, where the program is built with HAS_GPIO. The driver of the radio is a copied library, and a
-- parameter with the clock and the formats of the C library.
pub mod Waiting
use ham_router.Common.{
  ℕ, zero, suc, ◌+◌, ◌-◌, ◌%◌, ◌^◌, ◌≤◌, List, [], ◌∷◌, length, take, Bool, true, false, not, ◌||◌,
  ltb, leb, ◌==◌, if◌then◌else◌, some, none, codes, Option,
}
use ham_router.Common.Assoc.{insert}
use ham_router.Transmit.{TransmitError, te_ok, te_hardware}
use ham_router.Message.{
  Message, Meta, message, set_meta, get_content, db_record_gen_string, db_record_gen_double,
}
use ham_router.Stats.{stats_inc_counter}
use ham_router.Seen.{Cells}
use ham_router.Tranceiver.{
  Site, Tranceiver, Queued, returned, threw, read_outside, queue_incoming_message, put_message,
}

-- What the driver hands over: `size` bytes of `buf`, and whether the check sequence failed.
pub record RxData : Type 0 where
  pub size : ℕ
  pub crc : Bool
  pub last_time : ℕ
  pub buf : List ℕ
  pub rssi : ℕ
  pub tpkt : ℕ

-- The driver of the radio, and the clock of the system in microseconds, which the program reads modulo
-- 2^64.
pub record Modem : Type 1 where
  pub World : Type 0
  pub clock : World → ℕ
  pub terminate : World → Bool
  pub is_standby : World → Bool
  pub usleep : World → World
  pub stop_receive : World → World
  pub set_data : List ℕ → World → World
  pub send : World → World
  pub receive : World → World

-- The offsets of the two counters, and whether every packet is sent again.
pub record LoraSx1278 : Type 0 where
  pub valid_pkts : ℕ
  pub invalid_pkts : ℕ
  pub digipeater : Bool

unfoldable pub count_packets : LoraSx1278 → Bool → Cells → Cells
count_packets l valid cells =
    stats_inc_counter (some (if valid then l.valid_pkts else l.invalid_pkts)) cells

-- The message of a packet; `format` is the format `%ddBm`.
unfoldable pub received : (ℕ → List ℕ) → ℕ → ℕ → RxData → Message
received format self msg_id rx =
    set_meta (message rx.last_time (some self) msg_id (take rx.size rx.buf)) (
      insert (codes "air-time") (db_record_gen_double rx.tpkt)
        (insert (codes "rssi") (db_record_gen_string (format rx.rssi)) []))

module _ (modem : Modem) where
  open modem use {
    World, clock, terminate, is_standby, usleep, stop_receive, set_data, send, receive,
  }

  -- `get_us()`, and how long ago it gave `start_ts`.
  abbrev pub get_us : World → ℕ
  get_us w = clock w % 2 ^ 64

  abbrev pub since : ℕ → World → ℕ
  since start_ts w = (get_us w + 2 ^ 64 - start_ts) % 2 ^ 64

  -- The two loops that wait for the radio: the time is up after 60 seconds. The fuel is the number of
  -- rounds; with none left the thread still waits.
  unfoldable pub wait : ℕ → ℕ → World → Option World
  wait zero start_ts w = none
  wait (suc fuel) start_ts w =
      let rest = wait fuel start_ts (usleep w) in
      if is_standby w
      then some w
      else if terminate w
      then some w
      else if ltb (since start_ts w) 60000000
      then rest
      else some w

  -- Whether the second wait failed.
  abbrev pub sent : Option World → Option (Bool × World)
  sent none = none
  sent (some w) = some (not (is_standby w), w)

  -- What follows the first wait: whether it failed, and the radio.
  unfoldable pub send_packet : ℕ → ℕ → World → Option (Bool × World)
  unfolding wait
  send_packet fuel start_ts w =
      if not (is_standby w) then some (true, w) else sent (wait fuel start_ts (send w))

  abbrev pub finished : Option (Bool × World) → Option (TransmitError × World)
  finished none = none
  finished (some (fail, w)) = some (if fail then te_hardware else te_ok, receive w)

  -- `none` where the thread still waits.
  unfoldable pub put_message_low : ℕ → Message → World → Option (TransmitError × World)
  unfolding wait send_packet
  put_message_low fuel m w =
      let content = get_content m in
      if ltb 255 (length content)
      then some (te_hardware, w)
      else (let w1 = stop_receive (set_data content w) in
          let start_ts = get_us w1 in
          elim (wait fuel start_ts w1) [
            | none ↦ none
            | some w2 ↦ finished (send_packet fuel start_ts w2)
          ])

  -- What `rx_f` leaves.
  pub record Heard : Type 0 where
    pub tranceiver : Tranceiver
    pub cells : Cells
    pub work_list : List ℕ
    pub world : World

  -- How the callback comes out: an exception that it does not catch, a read behind the packet, a wait that is
  -- not over, or what it leaves.
  pub data Reception : Type 0 where
    throws outside waits : Reception
    heard : Heard → Reception

  -- A packet is sent again; the result is only logged. Where the wait is not over there is no world.
  abbrev put_again : ℕ → Message → Option World → TransmitError × Option World
  put_again fuel m none = (te_hardware, none)
  put_again fuel m (some w) = elim (put_message_low fuel m w) [
    | none ↦ (te_hardware, none)
    | some (rc, w') ↦ (rc, some w')
  ]

  -- After the message is queued.
  unfoldable pub repeated : ℕ → LoraSx1278 → Message → Queued → World → Reception
  unfolding put_message_low
  repeated fuel l m q world =
      let (rc, cells, w) = put_message (put_again fuel) m q.tranceiver q.cells (some world) in
      if l.digipeater
      then elim w [
        | none ↦ waits
        | some w' ↦ heard (record {
          tranceiver = q.tranceiver;
          cells = cells;
          work_list = q.work_list;
          world = w';
        })
      ]
      else heard (record {
        tranceiver = q.tranceiver;
        cells = q.cells;
        work_list = q.work_list;
        world = world;
      })

  -- `rx_f`, the callback of the driver.
  unfoldable pub rx_f : ℕ → LoraSx1278 → (ℕ → List ℕ) → Site → ℕ → ℕ → RxData → Heard → Reception
  unfolding count_packets received repeated
  rx_f fuel l format site self msg_id rx h =
      if rx.size == 0 || rx.crc
      then heard (record h { cells = count_packets l false h.cells })
      else (let m = received format self msg_id rx in
          let q =
            queue_incoming_message site self m h.tranceiver (count_packets l true h.cells)
              h.work_list in
          elim q.answer [
            | returned rc ↦ repeated fuel l m q h.world
            | threw ↦ throws
            | read_outside ↦ outside
          ])
