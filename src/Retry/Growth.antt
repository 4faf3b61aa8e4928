-- ===== src/Retry/Growth.antt =====
-- How the delays grow with the attempt, and their bounds.
use Prim.Native.Nat.{zero, min}
use durable_effect.Prelude.{
  ℕ, suc, refl, sym, ◌+◌, ◌-◌, ◌*◌, ◌^◌, ◌≤◌, ◌<◌, ◌≡◌, Option, none, some, arith, or_else,
}
use native.Mathlib.Nat.{pow-zero, pow-suc}
use durable_effect.Program.{BackoffStrategy, constant, linear, exponential}
use durable_effect.Retry.{calculate_backoff_delay, capped, exponential_strategy, add_jitter_scaled}

-- one more factor
pow-next : (m n : ℕ) → 1 ≤ n → m ^ (n + 1 - 1) ≡ m ^ (n - 1) * m
pow-next m n h = let e : n + 1 - 1 ≡ suc (n - 1) = omega arith in rw e (rw pow-suc)

-- the cap of a strategy, if it has one
abbrev pub cap_of : BackoffStrategy → Option ℕ
cap_of (constant _) = none
cap_of (linear _ _ cap) = cap
cap_of (exponential _ _ cap) = cap

-- the delay that a strategy begins with
abbrev pub initial_delay : BackoffStrategy → ℕ
initial_delay (constant d) = d
initial_delay (linear initial _ _) = initial
initial_delay (exponential initial _ _) = initial

-- the delay that follows a delay, before any cap
abbrev pub next_delay : BackoffStrategy → ℕ → ℕ
next_delay (constant _) delay = delay
next_delay (linear _ increment _) delay = delay + increment
next_delay (exponential _ multiplier _) delay = delay * or_else multiplier 2

-- the delay after so many retries, before any cap
abbrev pub nth_delay : BackoffStrategy → ℕ → ℕ
nth_delay s zero = initial_delay s
nth_delay s (suc k) = next_delay s (nth_delay s k)

-- the least of a delay and a cap, if there is one
abbrev pub at_most : Option ℕ → ℕ → ℕ
at_most none delay = delay
at_most (some cap_ms) delay = min delay cap_ms

capped-at_most : (o : Option ℕ) (delay : ℕ) → capped o delay ≡ at_most o delay
capped-at_most none delay = refl
capped-at_most (some cap_ms) delay = refl

previous : (k : ℕ) → k + 1 - 1 ≡ k
previous k = omega arith

nth_delay-constant : (d k : ℕ) → nth_delay (constant d) k ≡ d
nth_delay-constant d zero = refl
nth_delay-constant d (suc k) = nth_delay-constant d k

nth_delay-linear :
    (initial increment : ℕ) (o : Option ℕ) (k : ℕ)
    → nth_delay (linear initial increment o) k ≡ initial + increment * k
nth_delay-linear initial increment o zero = omega arith
nth_delay-linear initial increment o (suc k) =
    let e = nth_delay-linear initial increment o k in rw e (grind arith)

nth_delay-exponential :
    (initial : ℕ) (m o : Option ℕ) (k : ℕ)
    → nth_delay (exponential initial m o) k ≡ initial * or_else m 2 ^ k
nth_delay-exponential initial m o zero = rw pow-zero (omega arith)
nth_delay-exponential initial m o (suc k) =
    let e = nth_delay-exponential initial m o k in rw e (rw pow-suc (grind arith))

-- For every strategy, the delay that the code's formula gives to attempt k + 1 is the one that k
-- steps from the initial delay lead to, with the cap applied at the end: a step leaves a constant
-- delay, adds the increment to a linear one, and multiplies an exponential one by the multiplier,
-- which is a whole number here and 2 where none is given.
pub calculate_backoff_delay-nth :
    (s : BackoffStrategy) (k : ℕ)
    → calculate_backoff_delay s (k + 1) ≡ at_most (cap_of s) (nth_delay s k)
unfolding calculate_backoff_delay
calculate_backoff_delay-nth (constant d) k = sym (nth_delay-constant d k)
calculate_backoff_delay-nth (linear initial increment o) k =
    rw (nth_delay-linear initial increment o k)
      (rw (previous k) (capped-at_most o (initial + increment * k)))
calculate_backoff_delay-nth (exponential initial m o) k =
    rw (nth_delay-exponential initial m o k)
      (rw (previous k) (capped-at_most o (initial * or_else m 2 ^ k)))

-- No delay passes the strategy's cap.
pub calculate_backoff_delay-le-cap :
    (s : BackoffStrategy) (attempt cap : ℕ)
    → cap_of s ≡ some cap
    → calculate_backoff_delay s attempt ≤ cap
unfolding calculate_backoff_delay
calculate_backoff_delay-le-cap (constant d) n cap h = cc
calculate_backoff_delay-le-cap (linear i inc o) n cap h = rw h (omega arith)
calculate_backoff_delay-le-cap (exponential i m o) n cap h = rw h (omega arith)

-- With the default multiplier each delay is twice the one before, up to the cap: the formula of the
-- code, with its power, is the doubling that its comments show.
pub exponential_doubles :
    (initial cap attempt : ℕ)
    → 1 ≤ attempt
    → let delay = calculate_backoff_delay (exponential_strategy initial none (some cap)) in
      delay (attempt + 1) ≡ min (2 * delay attempt) cap
unfolding calculate_backoff_delay
exponential_doubles initial cap n one =
    rw (pow-next 2 n one) (let p : ℕ = initial * 2 ^ (n - 1) in omega arith)

-- The jitter moves a delay by a tenth of it at most: between 9 / 10 and 11 / 10 of the delay.
pub add_jitter_scaled_bounds :
    (k d delay_ms : ℕ)
    → k < d
    → (9 * d * delay_ms ≤ add_jitter_scaled k d delay_ms)
      × (add_jitter_scaled k d delay_ms ≤ 11 * d * delay_ms)
unfolding add_jitter_scaled
add_jitter_scaled_bounds k d t h = grind arith
