-- ===== src/Daemon/Reconcile/Backoff.antt =====
-- internal/daemon/reconcile.go: reconcileBackoff. A duration is an
-- int64 of nanoseconds, here its 64 bits: the bits from 2 ^ 63 up are the negative durations. Doubling
-- wraps, and the limit is positive.
use thunder_device_plugin.Base.{
  ℕ, zero, suc, ◌+◌, ◌-◌, ◌*◌, ◌%◌, ◌^◌, ◌≤◌, ◌<◌, min, ◌≡◌, Bool, ◌&&◌, arith, ltb, leb,
  if◌then◌else◌,
}
use native.Mathlib.Nat.{pow-suc, pow-succ', mul_assoc}
use native.Mathlib.Decide.{dec_le}

abbrev int64 : ℕ → ℕ
int64 n = n % 2 ^ 64

-- `max <= delay` and `max < delay` on the signed values.
abbrev at_most : ℕ → ℕ → Bool
at_most limit delay = ltb delay (2 ^ 63) && leb limit delay

abbrev below : ℕ → ℕ → Bool
below limit delay = ltb delay (2 ^ 63) && ltb limit delay

-- The loop over the failures after the first.
double_while_below : ℕ → ℕ → ℕ → ℕ
double_while_below limit zero delay = delay
double_while_below limit (suc rounds) delay =
    let next = double_while_below limit rounds (int64 (delay * 2)) in
    if at_most limit delay then delay else next

unfoldable pub reconcile_backoff : ℕ → ℕ → ℕ → ℕ
unfolding double_while_below
reconcile_backoff base limit failures =
    let delay = double_while_below limit (failures - 1) base in
    if below limit delay then limit else delay

le-mul-pow : (d n : ℕ) → d ≤ d * 2 ^ n
le-mul-pow d zero = omega arith
le-mul-pow d (suc n) = omega (arith, le-mul-pow d n, doubled d n)
  where
    doubled : (d n : ℕ) → d * 2 ^ suc n ≡ d * 2 ^ n + d * 2 ^ n
    doubled d n = rw pow-suc (omega (arith, mul_assoc d (2 ^ n) 2))

mul-pow-suc : (d n : ℕ) → d * 2 * 2 ^ n ≡ d * 2 ^ suc n
mul-pow-suc d n = rw (pow-succ', mul_assoc)

double_while_below_lem :
    (limit rounds delay : ℕ)
    → limit ≤ 2 ^ 62
    → delay < 2 ^ 63
    → (double_while_below limit rounds delay < 2 ^ 63)
      × (min (double_while_below limit rounds delay) limit ≡ min (delay * 2 ^ rounds) limit)
unfolding double_while_below
double_while_below_lem limit zero delay h bound = (bound, omega arith)
double_while_below_lem limit (suc rounds) delay h bound = elim (dec_le limit delay) [
  | yes above ↦ ground (arith, le-mul-pow delay (suc rounds))
  | no under ↦
      let exact : int64 (delay * 2) ≡ delay * 2 = omega arith in
      ground (
        arith,
        exact,
        double_while_below_lem limit rounds (delay * 2) h (omega arith),
        mul-pow-suc delay rounds,
      )
]

-- After `failures` failures in a row the wait is the interval doubled once for each failure after
-- the first, up to the limit, for an interval that is not negative and a limit of at most 2 ^ 62: no
-- doubling then leaves int64.
pub reconcile_backoff_lem :
    (base limit failures : ℕ)
    → limit ≤ 2 ^ 62
    → base < 2 ^ 63
    → reconcile_backoff base limit failures ≡ min (base * 2 ^ (failures - 1)) limit
unfolding reconcile_backoff
reconcile_backoff_lem base limit failures h bound =
    ground (arith, double_while_below_lem limit (failures - 1) base h bound)
