-- ===== src/Outbox/Backoff.antt =====
-- pkg/integration/outbox/dispatcher.go: backoff. Durations are natural numbers; Go's int64 agrees
-- while `max` is below 2^62 nanoseconds, about 146 years, since only a value below `max` is doubled.
use piper.Prelude.{
  ap, ◌∙◌, ◌<◌, inr, inl, Bool-cases, ◌≤◌, ◌≡◌, arith, ltb, ◌+◌, ◌-◌, ◌==◌, ◌*◌, if◌then◌else◌, suc,
  zero, ℕ,
}

-- The loop, with the doublings that are left.
unfoldable pub double_up : ℕ → ℕ → ℕ → ℕ
double_up zero d max = d
double_up (suc n) d max =
    let rest = double_up n (d * 2) max in
    if ltb d max then (if ltb max (d * 2) then max else rest) else d

-- The value of `d` behind the loop and the cap.
unfoldable pub window : ℕ → ℕ → ℕ → ℕ
window base max attempts = let d = double_up (attempts - 1) base max in if ltb max d then max else d

-- backoff; `jitter n` is rand.Int63n(n).
unfoldable pub backoff : (ℕ → ℕ) → ℕ → ℕ → ℕ → ℕ
backoff jitter base max attempts =
    let d = window base max attempts in if d == 0 then 0 else jitter (d + 1)

-- 2 ^ n
abbrev pub power : ℕ → ℕ
power zero = 1
power (suc n) = power n + power n

abbrev pub smaller : ℕ → ℕ → ℕ
smaller a b = if ltb b a then b else a

power-pos : (n : ℕ) → 1 ≤ power n
power-pos zero = omega arith
power-pos (suc n) = omega (arith, power-pos n)

mul-power-suc : (d n : ℕ) → d * power (suc n) ≡ d * power n + d * power n
mul-power-suc d n = omega arith

mul-power-ge : (d n : ℕ) → d ≤ d * power n
mul-power-ge d zero = omega arith
mul-power-ge d (suc n) = omega (arith, mul-power-ge d n, mul-power-suc d n)

mul-power-twice : (d n : ℕ) → d * 2 * power n ≡ d * power (suc n)
mul-power-twice d n = omega arith

double_up-cap : (n d max : ℕ) → smaller (double_up n d max) max ≡ smaller (d * power n) max
unfolding double_up
double_up-cap zero d max = ground arith
double_up-cap (suc n) d max = elim (Bool-cases (ltb d max)) [
  | inl below ↦ elim (Bool-cases (ltb max (d * 2))) [
    | inl over ↦
        rw (below, over) (ground (arith, over, mul-power-ge (d * 2) n, mul-power-twice d n))
    | inr fits ↦
        rw (below, fits)
          (double_up-cap n (d * 2) max ∙ ap (λ x. smaller x max) (mul-power-twice d n))
  ]
  | inr above ↦ rw above (ground (arith, above, mul-power-ge d (suc n)))
]

-- The loop, in closed form: the largest delay after some attempts is the base doubled once for each
-- attempt after the first, or the maximum if that is less.
pub window-power :
    (base max attempts : ℕ) → window base max attempts ≡ smaller (base * power (attempts - 1)) max
unfolding window
window-power base max attempts = double_up-cap (attempts - 1) base max

-- With a random source that stays below its argument, the delay is at most the doubled base, and at
-- most the maximum.
pub backoff_bounded :
    (jitter : ℕ → ℕ) (base max attempts : ℕ)
    → ((n : ℕ) → jitter (suc n) < suc n)
    → (backoff jitter base max attempts ≤ base * power (attempts - 1))
      × (backoff jitter base max attempts ≤ max)
unfolding backoff
backoff_bounded jitter base max attempts below =
    let w = window base max attempts in
    let closed = window-power base max attempts in
    let drawn = below w in
    elim (Bool-cases (w == 0)) [
      | inl t ↦ rw t (omega arith, omega arith)
      | inr t ↦ rw t (ground (arith, closed, drawn), ground (arith, closed, drawn))
    ]
