-- ===== src/Transmit.antt =====
-- tranceiver.h: what a transmission reports.
use ham_router.Common.{Bool, true, false}

pub data TransmitError : Type 0 where
  te_ok te_hardware te_ratelimiting te_filter : TransmitError

abbrev pub is_ok : TransmitError → Bool
is_ok te_ok = true
is_ok te_hardware = false
is_ok te_ratelimiting = false
is_ok te_filter = false
