-- ===== src/Seen.antt =====
-- rate-limiter.h, rate-limiter.cpp, seen.h and seen.cpp: how often the same packet may pass. A double is
-- its bits, and the arithmetic on doubles is a parameter. The memory of the counters is a state beside.
pub mod Burst
pub mod Limiters
pub mod Cleaning
use ham_router.Common.{
  ℕ, ◌+◌, ◌-◌, ◌*◌, ◌/◌, ◌≤◌, List, [], ◌∷◌, ◌++◌, length, take, Bool, true, false, not, ◌&&◌, ◌||◌,
  ltb, ◌==◌, if◌then◌else◌, Option, none, some, All, map, ◌≡◌,
}
use ham_router.Crc.Ccitt32.{calc_crc32}
use ham_router.Stats.{stats_inc_counter}

pub record Doubles : Type 0 where
  pub add : ℕ → ℕ → ℕ
  pub sub : ℕ → ℕ → ℕ
  pub mul : ℕ → ℕ → ℕ
  pub div : ℕ → ℕ → ℕ
  pub lt : ℕ → ℕ → Bool
  pub of_int : ℕ → ℕ
  pub to_time : ℕ → ℕ

pub record RateLimiter : Type 0 where
  pub max_per_dt : ℕ
  pub dt : ℕ
  pub last_ts : ℕ
  pub allowance : ℕ

abbrev pub rate_limiter : ℕ → ℕ → RateLimiter
rate_limiter max_per_dt dt = record { max_per_dt = max_per_dt; dt = dt; last_ts = 0; allowance = 0 }

module _ (d : Doubles) where
  open d use {add, sub, mul, div, lt, of_int, to_time}

  -- The allowance after the time that passed, at most the rate.
  unfoldable pub refill : ℕ → RateLimiter → ℕ
  refill now l =
      let rate = of_int l.max_per_dt in
      let allowance = add l.allowance (mul (sub now l.last_ts) (div rate l.dt)) in
      if lt rate allowance then rate else allowance

  -- `rate_limiter::check` at the time `now`.
  unfoldable pub check_rate : ℕ → RateLimiter → Bool × RateLimiter
  unfolding refill
  check_rate now l =
      let allowance = refill now l in
      if lt allowance (of_int 1)
      then (false, record l { last_ts = now; allowance = allowance })
      else (true, record l { last_ts = now; allowance = sub allowance (of_int 1) })

  abbrev pub get_last_ts : RateLimiter → ℕ
  get_last_ts l = to_time l.last_ts

pub record Seen : Type 0 where
  pub max_per_dt : ℕ
  pub dt : ℕ
  pub max_n : ℕ
  pub history : List (ℕ × RateLimiter)
  pub counter_hit : Option ℕ
  pub counter_miss : Option ℕ

abbrev pub seen : ℕ → ℕ → ℕ → Seen
seen max_per_dt dt max_n = record {
  max_per_dt = max_per_dt;
  dt = dt;
  max_n = max_n;
  history = [];
  counter_hit = none;
  counter_miss = none;
}

unfoldable pub limiter_of : ℕ → List (ℕ × RateLimiter) → Option RateLimiter
limiter_of hash [] = none
limiter_of hash ((h, l) ∷ more) = if h == hash then some l else limiter_of hash more

unfoldable pub put_limiter : ℕ → RateLimiter → List (ℕ × RateLimiter) → List (ℕ × RateLimiter)
put_limiter hash l [] = (hash, l) ∷ []
put_limiter hash l ((h, k) ∷ more) =
    if h == hash then (h, l) ∷ more else (h, k) ∷ put_limiter hash l more

abbrev pub or_new : ℕ → ℕ → Option RateLimiter → RateLimiter
or_new max_per_dt dt none = rate_limiter max_per_dt dt
or_new max_per_dt dt (some l) = l

abbrev pub Cells : Type 0
Cells = ℕ → ℕ

-- `seen::check`: whether the packet may pass, and its hash.
unfoldable pub check : Doubles → ℕ → List ℕ → Seen → Cells → (Bool × ℕ) × Seen × Cells
check d now p s cells =
    let hash = calc_crc32 p in
    let r = or_new s.max_per_dt s.dt (limiter_of hash s.history) in
    let (rc, r') = check_rate d now r in
    (
      (rc, hash),
      record s { history = put_limiter hash r' s.history },
      stats_inc_counter (if rc then s.counter_hit else s.counter_miss) cells,
    )

-- Later entries before earlier ones.
abbrev pub Descending : List (ℕ × ℕ) → Type 0
Descending [] = Unit {0}
Descending (x ∷ xs) = All (λ y. y.1 ≤ x.1) xs × Descending xs

-- `std::sort` with the program's comparison: the later of two entries comes first, as many come out as
-- went in, and what holds of all that comes out holds of all that went in.
pub record Sorting : Type 1 where
  pub sort : List (ℕ × ℕ) → List (ℕ × ℕ)
  pub sorted : (xs : List (ℕ × ℕ)) → Descending (sort xs)
  pub length_sort : (xs : List (ℕ × ℕ)) → length (sort xs) ≡ length xs
  pub kept_all : (P : ℕ × ℕ → Type 0) (xs : List (ℕ × ℕ)) → All P (sort xs) → All P xs

unfoldable pub has_hash : ℕ → List (ℕ × ℕ) → Bool
has_hash h [] = false
has_hash h (x ∷ xs) = x.0 == h || has_hash h xs

-- The loop that erases the entries with these hashes.
unfoldable pub erase : List (ℕ × ℕ) → List (ℕ × RateLimiter) → List (ℕ × RateLimiter)
unfolding has_hash
erase gone [] = []
erase gone ((h, l) ∷ more) =
    let rest = erase gone more in if has_hash h gone then rest else (h, l) ∷ rest

abbrev pub stamps : Doubles → List (ℕ × RateLimiter) → List (ℕ × ℕ)
stamps d = map (λ e. (e.0, get_last_ts d e.1))

-- How many rounds the loop that erases has: where the number is negative, none.
abbrev pub lower_bound : Seen → ℕ
lower_bound s = length s.history + s.max_n / 10 - s.max_n

-- The entries that a round of the thread erases.
abbrev pub erased : Sorting → Doubles → Seen → List (ℕ × ℕ)
erased o d s = take (lower_bound s) (o.sort (stamps d s.history))

-- A round of `seen::operator()`, which waits until the history is full or the program terminates.
unfoldable pub clean : Sorting → Doubles → Bool → Seen → Seen
unfolding erase
clean o d terminate s =
    if ltb (length s.history) s.max_n && not terminate
    then s
    else record s { history = erase (erased o d s) s.history }
