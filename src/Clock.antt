-- ===== src/Clock.antt =====
-- time.cpp: the clock in microseconds, and a sleep that the end of the program cuts short.
use ham_router.Common.{
  ℕ, zero, suc, ◌+◌, ◌-◌, ◌*◌, ◌/◌, ◌%◌, ◌^◌, ◌≤◌, ◌<◌, List, [], ◌∷◌, Bool, false, ltb, ◌==◌,
  if◌then◌else◌, if_split, All, ◌≡◌, arith,
}

-- `get_us`, of the seconds and nanoseconds of the system's clock.
unfoldable pub get_us : ℕ → ℕ → ℕ
get_us tv_sec tv_nsec = (tv_sec * 1000000 + tv_nsec / 1000) % 2 ^ 64

-- END_CHECK_INTERVAL_us
abbrev pub check_interval : ℕ
check_interval = 100000

-- The loop of `myusleep`: how long it sleeps in each round, where `terminate i` is what the flag is when
-- it is read for round `i`.
unfoldable pub sleeps : ℕ → (ℕ → Bool) → ℕ → ℕ → List ℕ
sleeps zero terminate i left = []
sleeps (suc fuel) terminate i left =
    let rest = sleeps fuel terminate (suc i) (left - check_interval) in
    if left == 0
    then []
    else if terminate i
    then []
    else if ltb left check_interval
    then left ∷ []
    else check_interval ∷ rest

-- A round takes an interval away, so this is fuel enough.
unfoldable pub myusleep : ℕ → (ℕ → Bool) → List ℕ
unfolding sleeps
myusleep duration terminate = sleeps (suc (duration / check_interval)) terminate 0 duration

abbrev pub sum : List ℕ → ℕ
sum [] = 0
sum (x ∷ xs) = x + sum xs

sleeps_bound :
    (fuel i left : ℕ) (terminate : ℕ → Bool)
    → (sum (sleeps fuel terminate i left) ≤ left)
      × All (λ x. (0 < x) × (x ≤ check_interval)) (sleeps fuel terminate i left)
unfolding sleeps
sleeps_bound zero i left terminate = (omega arith, tt)
sleeps_bound (suc fuel) i left terminate =
    let (s, a) = sleeps_bound fuel (suc i) (left - check_interval) terminate in
    let P : List ℕ → Type 0 =
      λ xs. (sum xs ≤ left) × All (λ x. (0 < x) × (x ≤ check_interval)) xs in
    if_split P (left == 0) (λ e. (omega arith, tt))
      (λ some_left.
        if_split P (terminate i) (λ e. (omega arith, tt))
          (λ e.
            if_split P (ltb left check_interval)
              (λ e. (omega arith, ((ground arith, ground arith), tt)))
              (λ e. (ground arith, ((omega arith, omega arith), a)))))

sleeps_all :
    (fuel i left : ℕ) (terminate : ℕ → Bool)
    → left < fuel * check_interval
    → ((j : ℕ) → terminate j ≡ false)
    → sum (sleeps fuel terminate i left) ≡ left
unfolding sleeps
sleeps_all zero i left terminate h go = absurd (omega arith)
sleeps_all (suc fuel) i left terminate h go =
    let P : List ℕ → Type 0 = λ xs. sum xs ≡ left in
    if_split P (left == 0) (λ e. ground arith)
      (λ some_left. rw (go i) (
        if_split P (ltb left check_interval) (λ e. omega arith)
          (λ e.
            let ih = sleeps_all fuel (suc i) (left - check_interval) terminate (ground arith) go in
            ground arith)))

-- `myusleep` sleeps in parts of at least a microsecond and at most the interval in which it checks whether
-- to end, and never longer than its duration all together, however often it checks.
pub myusleep-sum :
    (duration : ℕ) (terminate : ℕ → Bool)
    → (sum (myusleep duration terminate) ≤ duration)
      × All (λ x. (0 < x) × (x ≤ check_interval)) (myusleep duration terminate)
unfolding myusleep
myusleep-sum duration terminate =
    sleeps_bound (suc (duration / check_interval)) 0 duration terminate

-- It sleeps exactly as long as its duration if it is not told to end.
pub myusleep-sum_never :
    (duration : ℕ) (terminate : ℕ → Bool)
    → ((j : ℕ) → terminate j ≡ false)
    → sum (myusleep duration terminate) ≡ duration
unfolding myusleep
myusleep-sum_never duration terminate go =
    sleeps_all (suc (duration / check_interval)) 0 duration terminate (omega arith) go
