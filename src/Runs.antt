-- ===== src/Runs.antt =====
-- Concrete runs, and the theorems at concrete inputs.
pub mod Routing
pub mod Management
mod Sorting
mod Lines
pub mod Packets
pub mod Datagrams
pub mod Agents
mod Settings
mod Outlets
use ham_router.Common.{
  ℕ, zero, suc, ◌+◌, ◌-◌, ◌*◌, ◌/◌, ◌%◌, ◌≤◌, ◌<◌, ◌^◌, ◌≡◌, ◌≢◌, refl, sym, ap, ◌∙◌, List, [], ◌∷◌,
  ◌++◌, length, take, Bool, true, false, Option, some, none, All, IsByte, arith, append-nil, map,
}
use ham_router.Common.Assoc
use ham_router.Common.Int.{ℤ, pos, negsuc}
use ham_router.Crc.Register.{serial, message_bits}
use ham_router.Crc.Ppp
use ham_router.Crc.Ppp.Frames.{pppfcs-serial, ok_crc-compute_crc, ok_crc_detects}
use ham_router.Crc.Ccitt32
use ham_router.Crc.Ccitt32.Messages.{calc_crc32-serial, calc_crc32_detects}
use ham_router.Net.{get_net_short, get_net_long, get_net_long_long, put_net_long, put_net_long_long}
use ham_router.Net.ByteOrder.{
  get_net_short_value, get_net_long-put_net_long, get_net_long_long-put_net_long_long,
}
use ham_router.Net.Write.{Stream, write_all, write_loop, write_all_sent}
use ham_router.Buffer.{Buffer, Outcome, ok, out_of_range, make, get_variable_size_integer}
use ham_router.Buffer.Reads.{exec, decode, net_short, number, exec-decode}
use ham_router.Buffer.Integers.{digits, get_variable_size_integer-digits}
use ham_router.Kiss.{fend, Event, byte, eof, interrupted, recv_mkiss, frame, max_len}
use ham_router.Kiss.Stuffing.{frame_shape, frame_overflow, IsPlain}
use ham_router.Kiss.RoundTrip.{recv_mkiss-frame}
use ham_router.Kiss.Receive.{uninterrupted, recv_mkiss-uninterrupted, recv_mkiss_fits}
use ham_router.Message.{Meta, db_record_gen_string}
use ham_router.Filter.{execute_filter, retrieve_subfilter, runs_on}
use ham_router.Filter.Syntax.{Term, Expr, test, group, one, join, print, meaning, field_passes}
use ham_router.Filter.Nesting.{retrieve_subfilter-print}
use ham_router.Filter.Meaning.{execute_filter-meaning}
use ham_router.Runs.Lines.{slow}
use ham_router.Filter.Endless.{unclosed, execute_filter_endless}

pppfcs-serial_example :
    Ppp.pppfcs 0xffff (1 ∷ 2 ∷ []) ≡ serial Ppp.polynomial 0xffff (message_bits (1 ∷ 2 ∷ []))
pppfcs-serial_example = pppfcs-serial 0xffff (1 ∷ 2 ∷ []) (omega arith)

ok_crc-compute_crc_example :
    Ppp.ok_crc
      ((1 ∷ 2 ∷ []) ++ Ppp.compute_crc (1 ∷ 2 ∷ []) % 256 ∷ Ppp.compute_crc (1 ∷ 2 ∷ []) / 256 ∷ [])
    ≡ true
ok_crc-compute_crc_example = ok_crc-compute_crc (1 ∷ 2 ∷ []) (omega arith)

-- The check value of the nine digits.
compute_crc_digits :
    Ppp.compute_crc (b'1' ∷ b'2' ∷ b'3' ∷ b'4' ∷ b'5' ∷ b'6' ∷ b'7' ∷ b'8' ∷ b'9' ∷ []) ≡ 0x906e
unfolding Ppp.compute_crc Ppp.pppfcs
compute_crc_digits = refl

crc_bytes :
    All IsByte
      (Ppp.compute_crc (5 ∷ 1 ∷ 2 ∷ []) % 256 ∷ Ppp.compute_crc (5 ∷ 1 ∷ 2 ∷ []) / 256 ∷ [])
unfolding Ppp.compute_crc Ppp.pppfcs
crc_bytes = omega arith

good_frame :
    Ppp.ok_crc (
      (5 ∷ [])
      ++ 1
        ∷ 2
        ∷ Ppp.compute_crc (5 ∷ 1 ∷ 2 ∷ []) % 256
        ∷ Ppp.compute_crc (5 ∷ 1 ∷ 2 ∷ []) / 256
        ∷ [])
    ≡ true
good_frame = ok_crc-compute_crc (5 ∷ 1 ∷ 2 ∷ []) (omega arith)

ok_crc_detects_example : (◌≡◌ {A = ℕ} 1 1) × (◌≡◌ {A = ℕ} 2 2)
ok_crc_detects_example =
    ok_crc_detects (5 ∷ [])
      (Ppp.compute_crc (5 ∷ 1 ∷ 2 ∷ []) % 256 ∷ Ppp.compute_crc (5 ∷ 1 ∷ 2 ∷ []) / 256 ∷ []) 1 2 1 2
      (omega arith) (crc_bytes) (omega arith) good_frame good_frame

exec-decode_example :
    exec net_short (record { p = 1 ∷ 2 ∷ 3 ∷ []; o = 1 })
    ≡ ok (number 515) (record { p = 1 ∷ 2 ∷ 3 ∷ []; o = 3 })
unfolding decode get_net_short
exec-decode_example =
    exec-decode net_short (record { p = 1 ∷ 2 ∷ 3 ∷ []; o = 1 }) (omega arith) (omega arith)

recv_mkiss-frame_example :
    recv_mkiss (map byte (frame 0 2 (1 ∷ fend ∷ [])) ++ (eof ∷ []))
    ≡ (some (1 ∷ fend ∷ []), eof ∷ [])
recv_mkiss-frame_example =
    recv_mkiss-frame 0 2 (1 ∷ fend ∷ []) (eof ∷ []) (omega arith) (omega arith) (omega arith)

received : (recv_mkiss (map byte (frame 0 2 (1 ∷ [])) ++ [])).0 ≡ some (1 ∷ [])
received =
    ap (λ r. r.0) (recv_mkiss-frame 0 2 (1 ∷ []) [] (omega arith) (omega arith) (omega arith))

-- `to=me&&(from!="you" || aprs=1)` written with spaces, and a message for it.
abbrev filter_expr : Expr
filter_expr =
    join (one (test (b't' ∷ b'o' ∷ []) true false (b'm' ∷ b'e' ∷ []))) true
      (group (join (one (test (b'f' ∷ []) false true (b'y' ∷ []))) false (one_term)))
  where
    one_term : Term
    one_term = test (b'a' ∷ []) true false (b'1' ∷ [])

abbrev filter_meta : Meta
filter_meta =
    (b't' ∷ b'o' ∷ [], db_record_gen_string (b'm' ∷ b'e' ∷ []))
    ∷ (b'f' ∷ [], db_record_gen_string (b'y' ∷ []))
    ∷ []

execute_filter-meaning_example :
    execute_filter 40 (print filter_expr) true filter_meta ≡ meaning true filter_meta filter_expr
unfolding print
execute_filter-meaning_example =
    execute_filter-meaning filter_expr true filter_meta 40
      (
        (omega arith, (refl, (refl, tt)), (refl, (refl, tt))),
        ((omega arith, (refl, tt), (refl, tt)), (omega arith, (refl, tt), (refl, tt))),
      )
      (omega arith) (omega arith)

execute_filter_endless_example :
    execute_filter 100 (unclosed (b'a' ∷ []) true (b'1' ∷ [])) true [] ≡ runs_on
unfolding field_passes Assoc.find
execute_filter_endless_example =
    execute_filter_endless 100 (b'a' ∷ []) (b'1' ∷ []) true true true [] (omega arith) (refl, tt)
      (refl, tt) (omega arith) refl
