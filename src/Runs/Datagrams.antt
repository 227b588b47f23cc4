-- ===== src/Runs/Datagrams.antt =====
-- The AXUDP tranceiver and the main program at concrete inputs.
use ham_router.Common.{
  ℕ, List, [], ◌∷◌, ◌++◌, length, true, false, ◌==ₛ◌, leb, if◌then◌else◌, some, none, codes, ◌≡◌,
  refl, arith,
}
use ham_router.Common.Int.{pos}
use ham_router.Net.Udp.{Sockets}
use ham_router.Transmit.{te_ok, te_filter}
use ham_router.Stats.{store}
use ham_router.Message.{Message, message, get_content}
use ham_router.Dissect.{dissect_packet, parse_ax25, parse_aprs}
use ham_router.Filter.{FilterT}
use ham_router.Filter.Syntax.{Expr, test, one, print}
use ham_router.Tranceiver.{peek, get_message, ask_seen, queue_incoming_message, enqueue}
use ham_router.Tranceiver.Queue.{Outcome}
use ham_router.Axudp.{Axudp, Datagram, exited, with_crc, pass_on, receive}
use ham_router.Axudp.Receiving.{receive-with_crc}
use ham_router.Axudp.Distribution.{receive_unfiltered, receive_ends}
use ham_router.Switchboard
use ham_router.Switchboard.{Outside, Switchboard, put_message, bridges_of, passes}
use ham_router.Switchboard.Targets.{targets, handed}
use ham_router.Router.{
  Router, Shared, push_incoming, arrives, lists, takes, gets, Reach, here, next, put, process_round,
}
use ham_router.Router.Interleavings.{IsBalanced, count, held_has_message, nothing_left}
use ham_router.Router.Delivery.{arrived, queued_and_handed}
use ham_router.Runs.Routing.{lab, board}
use ham_router.Runs.Packets.{site, idle}

-- A network that keeps what is sent, on which only the host `up` is known.
abbrev net : Sockets
net = record {
  Network = List (List ℕ);
  Address = List ℕ;
  getaddrinfo = λ host port w. (if host ==ₛ codes "up" then some (host ∷ []) else none, w);
  socket = λ a w. (some 5, w);
  sendto = λ fd bytes a w. (pos (length bytes), w ++ bytes ∷ []);
  close = λ fd w. w;
}

abbrev wants_me : Expr
wants_me = one (test (codes "to") true false (codes "me"))

abbrev strict : FilterT
strict = record { ignore_if_field_is_missing = false; pattern = codes "to=me" }

abbrev lenient : FilterT
lenient = record { ignore_if_field_is_missing = true; pattern = codes "to=me" }

abbrev node : Axudp
node = record {
  peers = (codes "up:1", some lenient) ∷ (codes "off:1", none) ∷ (codes "up:2", none) ∷ [];
  continue_on_error = true;
  distribute = true;
}

abbrev picky : Axudp
picky = record node { peers = (codes "up:1", some strict) ∷ []; continue_on_error = false }

abbrev text : Message
text = message 0 (some 3) 9 (1 ∷ 2 ∷ [])

abbrev datagram : Datagram
datagram = record { address = codes "1.2.3.4"; sin_port = codes "5"; bytes = with_crc (1 ∷ 2 ∷ []) }

receive-with_crc_example :
    Outcome 3
      (message 0 (some 3) 9 (1 ∷ 2 ∷ []))
      idle
      []
      (receive net site 40 3 node 0 9 datagram idle (λ i. 0) [] []).queued
receive-with_crc_example =
    receive-with_crc net site 40 3 node 0 9 datagram (1 ∷ 2 ∷ []) idle (λ i. 0) [] [] refl
      (omega arith) (omega arith)

receive_unfiltered_example :
    receive net site 40 3 node 0 9 datagram idle (λ i. 0) [] []
    ≡ receive net site 40 3
        (record node {
          peers = (codes "up:1", none) ∷ (codes "off:1", none) ∷ (codes "up:2", none) ∷ [];
        })
        0
        9
        datagram
        idle
        (λ i. 0)
        []
        []
unfolding print
receive_unfiltered_example =
    receive_unfiltered net site 40 3 node 0 9 datagram idle (λ i. 0) [] []
      (
        (
          (
            wants_me,
            refl,
            (omega arith, (refl, (refl, tt)), (refl, (refl, tt))),
            omega arith,
            omega arith,
          ),
          refl,
        ),
        (tt, (tt, tt)),
      )

receive_ends_example :
    (receive net site 40 3 picky 0 9 datagram idle (λ i. 0) [] []).handling ≡ exited
unfolding print receive pass_on queue_incoming_message ask_seen enqueue dissect_packet parse_ax25
    parse_aprs
receive_ends_example =
    receive_ends net site 40 3 picky 0 9 datagram idle (λ i. 0) [] [] (codes "up:1", some strict)
      strict [] refl refl refl refl
      (
        wants_me,
        refl,
        (omega arith, (refl, (refl, tt)), (refl, (refl, tt))),
        omega arith,
        omega arith,
      )
      refl (omega arith) refl

abbrev quiet : Shared
quiet = record { tranceivers = λ i. idle; announced = []; work_list = []; held = none }

abbrev told : Shared
told = push_incoming 4 text (push_incoming 3 text quiet)

-- The tranceiver 3 lists itself before the tranceiver 4, and the main thread takes it.
abbrev taken : Shared
taken = record told { announced = 4 ∷ []; work_list = []; held = some 3 }

taken_reached : Reach quiet taken
taken_reached =
    next
      (next (next (next here (arrives quiet 3 text)) (arrives (push_incoming 3 text quiet) 4 text))
        (lists told (4 ∷ []) [] 3 refl))
      (takes (record told { announced = 4 ∷ []; work_list = 3 ∷ [] }) 3 [] refl refl)

quiet-IsBalanced : IsBalanced quiet
unfolding count
quiet-IsBalanced i = omega arith

held_has_message_example :
    (peek (taken.tranceivers 3) ≡ true)
    × ((m : Message) × ((get_message (taken.tranceivers 3)).0 ≡ some m))
held_has_message_example = held_has_message quiet taken 3 quiet-IsBalanced taken_reached refl

abbrev asked : Shared
asked = record (push_incoming 3 text quiet) { announced = []; held = some 3 }

-- A message arrived at the tranceiver 3 and was taken.
abbrev drained : Shared
drained = record asked {
  tranceivers = store 3 (get_message (asked.tranceivers 3)).1 asked.tranceivers;
  held = none;
}

drained_reached : Reach quiet drained
drained_reached =
    next
      (next
        (next (next here (arrives quiet 3 text)) (lists (push_incoming 3 text quiet) [] [] 3 refl))
        (takes (record (push_incoming 3 text quiet) { announced = []; work_list = 3 ∷ [] }) 3 []
          refl refl))
      (gets asked 3 refl)

nothing_left_example : (drained.tranceivers 3).incoming ≡ []
nothing_left_example = nothing_left quiet drained 3 quiet-IsBalanced drained_reached refl refl refl

abbrev center : Router (List ℕ)
center = record { tranceivers = λ i. idle; work_list = []; s = none; cells = λ i. 0; world = [] }

queued_and_handed_example :
    (m' : Message) × (r' : Router (List ℕ)) × ((queue_incoming_message site 1 text idle
        (λ i. 0)
        []).tranceiver.incoming
      ≡ m' ∷ [])
    × (get_content m' ≡ 1 ∷ 2 ∷ [])
    × (m'.source ≡ some 3)
    × (process_round lab site.doubles 10 9 board
          (arrived 1 (queue_incoming_message site 1 text idle (λ i. 0) []) center)
        ≡ put
            (Switchboard.returned
              (if leb 1 (length (targets lab true m' 9 1 board)) then te_ok else te_filter)
              (handed lab m' (targets lab true m' 9 1 board) []))
            r')
    × (r'.work_list ≡ [])
    × ((r'.tranceivers 1).incoming ≡ [])
unfolding queue_incoming_message ask_seen enqueue dissect_packet parse_ax25 parse_aprs bridges_of
    passes
queued_and_handed_example =
    queued_and_handed lab site.doubles 10 9 board site 1 3 text center refl refl refl refl refl
      (λ m' h. ((omega arith, refl), tt))
