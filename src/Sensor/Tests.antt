-- ===== src/Sensor/Tests.antt =====
-- The sketches' theorems at concrete inputs, with stand-ins for the Arduino library's printing and for the parser.
mod Radio
mod Wired
mod Network
use embeded_linux_gateway.Prelude.{
  ℕ, ◌+◌, ◌%◌, ◌/◌, ◌<◌, List, [], ◌∷◌, ℤ, pos, negsuc, NoNul, ltb, if◌then◌else◌, Bool-cases, inl,
  inr, arith,
}
use embeded_linux_gateway.Sensor.{Printing}

-- The last two digits, or the sign and the last one.
abbrev pub two_digits : ℤ → List ℕ
two_digits (pos n) =
    if ltb n 10 then (48 + n % 10) ∷ [] else (48 + n / 10 % 10) ∷ (48 + n % 10) ∷ []
two_digits (negsuc n) = 45 ∷ (48 + (n + 1) % 10) ∷ []

pub two_digits-NoNul : (n : ℤ) → NoNul (two_digits n)
two_digits-NoNul (pos n) = elim (Bool-cases (ltb n 10)) [
  | inl small ↦ rw small (omega arith, tt)
  | inr large ↦ rw large (omega arith, (omega arith, tt))
]
two_digits-NoNul (negsuc n) = (omega arith, (omega arith, tt))

abbrev pub printing : Printing
printing = record {
  Float = ℤ;
  show = two_digits;
  show_float = two_digits;
  show-NoNul = two_digits-NoNul;
  show_float-NoNul = two_digits-NoNul;
}
