-- ===== src/Prelude/Bytes.antt =====
-- Bytes: facts about the bit operations that are checked at all 256 values, and C strings.
use Prim.Native.Nat.{ℕ, zero, suc, ◌<◌, bit_and, bit_or}
use mathlib.Core.Path.{◌≡◌, refl, ap}
use mathlib.Core.Bool.{Bool, true, false}
use mathlib.Core.List.{List, [], ◌∷◌, ◌++◌}
use native.Mathlib.Omega.{arith}
use embeded_linux_gateway.Prelude.Tests.{ltb, ltb→lt, if◌then◌else◌}

-- Whether a test succeeds on all the numbers under a bound.
unfoldable pub checked_to : ℕ → (ℕ → Bool) → Bool
checked_to zero test = true
checked_to (suc k) test = let rest = checked_to k test in if test k then rest else false

pub checked_to_sound :
    (bound : ℕ) (test : ℕ → Bool) (i : ℕ) → checked_to bound test ≡ true → i < bound → test i ≡ true
unfolding checked_to
checked_to_sound zero test i ok small = absurd (omega arith)
checked_to_sound (suc k) test i ok small = grind (arith, checked_to_sound k test i)

-- The string that a `char` array with a 0 holds: up to the first one. C reads on past the end of an array without
-- a 0, which this does not follow: it stops there.
abbrev pub c_string : List ℕ → List ℕ
c_string [] = []
c_string (zero ∷ xs) = []
c_string (suc c ∷ xs) = suc c ∷ c_string xs

-- No byte is 0.
abbrev pub NoNul : List ℕ → Type 0
NoNul [] = Unit
NoNul (x ∷ xs) = (0 < x) × NoNul xs

pub c_string-append : (xs ys : List ℕ) → NoNul xs → c_string (xs ++ ys) ≡ xs ++ c_string ys
c_string-append [] ys h = refl
c_string-append (zero ∷ xs) ys h = absurd (omega arith)
c_string-append (suc x ∷ xs) ys h = ap (λ t. suc x ∷ t) (c_string-append xs ys h.1)

and_table : checked_to 256 (λ a. checked_to 256 (λ b. ltb (bit_and a b) 256)) ≡ true
unfolding checked_to
and_table = refl

or_table : checked_to 256 (λ a. checked_to 256 (λ b. ltb (bit_or a b) 256)) ≡ true
unfolding checked_to
or_table = refl

pub bit_and-lt : (a b : ℕ) → a < 256 → b < 256 → bit_and a b < 256
bit_and-lt a b p q = ltb→lt _ _ (
    checked_to_sound 256 (λ y. ltb (bit_and a y) 256) b
      (checked_to_sound 256 (λ x. checked_to 256 (λ y. ltb (bit_and x y) 256)) a and_table p) q)

pub bit_or-lt : (a b : ℕ) → a < 256 → b < 256 → bit_or a b < 256
bit_or-lt a b p q = ltb→lt _ _ (
    checked_to_sound 256 (λ y. ltb (bit_or a y) 256) b
      (checked_to_sound 256 (λ x. checked_to 256 (λ y. ltb (bit_or x y) 256)) a or_table p) q)
