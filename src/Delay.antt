-- ===== src/Delay.antt =====
-- `delay` of src/service_user_space/clientI2C/src/detect_usb.c, which src/service_user_space/client/client.c
-- has too: it waits until the clock has gone on by 1000 for each second.
use embeded_linux_gateway.Prelude.{
  ℕ, zero, suc, ◌+◌, ◌*◌, ◌≤◌, ◌<◌, ◌≡◌, false, Option, none, some, ltb, if◌then◌else◌, arith,
  Bool-cases, inl, inr, ==_iff, ◌==◌, ltb→lt, sym,
}
use mathlib.Core.Path.{subst}

-- The `while`, which reads the clock for the `i`-th time first; `none` if `fuel` readings do not end it,
-- else the number of the reading that does.
unfoldable wait : ℕ → ℕ → ℕ → (ℕ → ℕ) → Option ℕ
wait zero i until clock = none
wait (suc fuel) i until clock =
    let rest = wait fuel (i + 1) until clock in if ltb (clock i) until then rest else some i

-- `delay`, for at most 2147483 seconds, so that the product is in the range of `int`; the reading 0 is the
-- start time.
unfoldable pub delay : ℕ → ℕ → (ℕ → ℕ) → Option ℕ
unfolding wait
delay fuel number_of_seconds clock = wait fuel 1 (clock 0 + 1000 * number_of_seconds) clock

-- The reading `i` is the first from `from` on that is not below `until`.
pub record IsFirst (from i until : ℕ) (clock : ℕ → ℕ) : Type 0 where
  pub after : from ≤ i
  pub reached : until ≤ clock i
  pub before : (j : ℕ) → from ≤ j → j < i → clock j < until

not_below : (a b : ℕ) → b ≤ a → ltb a b ≡ false
not_below a b h = ground arith

wait-IsFirst :
    (fuel k i until : ℕ) (clock : ℕ → ℕ)
    → k < fuel
    → until ≤ clock (i + k)
    → (n : ℕ) × (wait fuel i until clock ≡ some n) × IsFirst i n until clock × (n ≤ i + k)
unfolding wait
wait-IsFirst zero k i until clock h g = absurd (omega arith)
wait-IsFirst (suc fuel) zero i until clock h g =
    let here : i + 0 ≡ i = omega arith in
    let reached : until ≤ clock i = subst (λ m. until ≤ clock m) here g in
    (
      i,
      rw (wait, not_below (clock i) until reached),
      record { after = omega arith; reached = reached; before = λ j a b. absurd (omega arith) },
      omega arith,
    )
wait-IsFirst (suc fuel) (suc k) i until clock h g = elim (Bool-cases (ltb (clock i) until)) [
  | inl early ↦
      let shift : i + suc k ≡ i + 1 + k = omega arith in
      let (n, e, first, near) =
        wait-IsFirst fuel k (i + 1) until clock (omega arith)
          (subst (λ m. until ≤ clock m) shift g) in
      (
        n,
        rw (wait, early) e,
        record {
          after = omega (arith, first.after);
          reached = first.reached;
          before = λ j a b. elim (Bool-cases (j == i)) [
            | inl same ↦
                let e : j ≡ i = (==_iff j i).0 same in
                subst (λ m. clock m < until) (sym e) (ltb→lt (clock i) until early)
            | inr other ↦ first.before j (ground arith) b
          ];
        },
        omega arith,
      )
  | inr late ↦ (
    i,
    rw (wait, late),
    record { after = omega arith; reached = ground arith; before = λ j a b. absurd (omega arith) },
    omega arith,
  )
]

-- If some reading of the clock after the first is by 1000 for each second above it, then the wait ends, and
-- it ends at the first such reading.
pub delay-IsFirst :
    (number_of_seconds k : ℕ) (clock : ℕ → ℕ)
    → clock 0 + 1000 * number_of_seconds ≤ clock (1 + k)
    → (n : ℕ) × (delay (suc k) number_of_seconds clock ≡ some n)
      × IsFirst 1 n (clock 0 + 1000 * number_of_seconds) clock
      × (n ≤ 1 + k)
unfolding delay
delay-IsFirst number_of_seconds k clock h =
    wait-IsFirst (suc k) k 1 (clock 0 + 1000 * number_of_seconds) clock (omega arith) h
