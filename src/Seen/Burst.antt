-- ===== src/Seen/Burst.antt =====
-- How many packets pass at one moment.
use ham_router.Common.{ℕ, zero, suc, ◌≤◌, ◌<◌, ◌^◌, List, [], ◌∷◌, Bool, true, false, ltb, ◌≡◌}
use ham_router.Seen.{Doubles, RateLimiter, check_rate}

-- The decisions of a limiter that is asked `n` times at the time `now`.
unfoldable pub decisions : Doubles → ℕ → ℕ → RateLimiter → List Bool
decisions d now zero l = []
decisions d now (suc n) l = let (rc, l') = check_rate d now l in rc ∷ decisions d now n l'

-- The first `k` of `n` pass.
unfoldable pub first_pass : ℕ → ℕ → List Bool
first_pass k zero = []
first_pass zero (suc n) = false ∷ first_pass zero n
first_pass (suc k) (suc n) = true ∷ first_pass k n

-- What is used of the arithmetic on doubles, which is exact on integers of up to 53 bits: at the time
-- `now` no time passes, and nothing is added then.
pub record IsExact (d : Doubles) (now ratio : ℕ) : Type 0 where
  pub sub_now : d.sub now now ≡ d.of_int 0
  pub mul_zero : d.mul (d.of_int 0) ratio ≡ d.of_int 0
  pub add_zero : (k : ℕ) → k ≤ 2 ^ 53 → d.add (d.of_int k) (d.of_int 0) ≡ d.of_int k
  pub sub_one : (k : ℕ) → k < 2 ^ 53 → d.sub (d.of_int (suc k)) (d.of_int 1) ≡ d.of_int k
  pub lt_int : (a b : ℕ) → a ≤ 2 ^ 53 → b ≤ 2 ^ 53 → d.lt (d.of_int a) (d.of_int b) ≡ ltb a b

module _ (d : Doubles) (now rate dt : ℕ) (x : IsExact d now (d.div (d.of_int rate) dt))
    (fits : rate ≤ 2 ^ 53) where
  abbrev limiter : ℕ → ℕ → RateLimiter
  limiter last_ts allowance = record {
    max_per_dt = rate;
    dt = dt;
    last_ts = last_ts;
    allowance = allowance;
  }
