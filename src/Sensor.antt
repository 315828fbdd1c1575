-- ===== src/Sensor.antt =====
-- The sketches of the sensor nodes under src/node and src/esp: what they send to the gateway, and how they take
-- its requests. The conversions of numbers to text of the Arduino library are parameters.
pub mod Spi
pub mod I2c
pub mod Bluetooth
pub mod Lora
pub mod Rf24
pub mod Wifi
mod Tests
use embeded_linux_gateway.Prelude.{
  ℕ, zero, suc, refl, ◌∙◌, ap, overlay, overlay-eq, drop, replicate, length-replicate, c_string,
  c_string-append, append-nil, ◌+◌, ◌<◌, ◌≡◌, ◌≤◌, ◌⊎◌, ℤ, NoNul, length, length-append, ◌++◌,
  arith, ltb, Bool, true, false, ◌&&◌, List, [], ◌∷◌, ◌==◌, if◌then◌else◌,
}

-- `a.equals(b)`.
abbrev pub equals : List ℕ → List ℕ → Bool
equals [] [] = true
equals (x ∷ xs) (y ∷ ys) = x == y && equals xs ys
equals _ _ = false

-- A digit or the sign of a number.
abbrev pub IsFigure : ℕ → Type 0
IsFigure c = (c ≡ b'-') ⊎ ((b'0' ≤ c) × (c ≤ b'9'))

abbrev pub AllFigures : List ℕ → Type 0
AllFigures [] = Unit
AllFigures (c ∷ cs) = IsFigure c × AllFigures cs

-- How the Arduino library appends numbers to a `String`: as texts without a 0 character.
pub record Printing : Type 1 where
  pub Float : Type 0
  pub show : ℤ → List ℕ
  pub show_float : Float → List ℕ
  pub show-NoNul : (n : ℤ) → NoNul (show n)
  pub show_float-NoNul : (x : Float) → NoNul (show_float x)

pub NoNul-append : (xs ys : List ℕ) → NoNul xs → NoNul ys → NoNul (xs ++ ys)
NoNul-append [] ys h g = g
NoNul-append (x ∷ xs) ys h g = (h.0, NoNul-append xs ys h.1 g)

-- The test for a constant text.
abbrev pub has_no_nul : List ℕ → Bool
has_no_nul [] = true
has_no_nul (c ∷ cs) = ltb 0 c && has_no_nul cs

pub has_no_nul-NoNul : (cs : List ℕ) → has_no_nul cs ≡ true → NoNul cs
has_no_nul-NoNul [] h = tt
has_no_nul-NoNul (c ∷ cs) h = (ground arith, has_no_nul-NoNul cs (ground arith))

-- Pieces of a text one after the other.
abbrev pub joined : List (List ℕ) → List ℕ
joined [] = []
joined (p ∷ ps) = p ++ joined ps

abbrev pub AllClean : List (List ℕ) → Type 0
AllClean [] = Unit
AllClean (p ∷ ps) = NoNul p × AllClean ps

pub joined-NoNul : (ps : List (List ℕ)) → AllClean ps → NoNul (joined ps)
joined-NoNul [] h = tt
joined-NoNul (p ∷ ps) h = NoNul-append p (joined ps) h.0 (joined-NoNul ps h.1)

abbrev pub size : List (List ℕ) → ℕ
size [] = 0
size (p ∷ ps) = length p + size ps

pub length-joined : (ps : List (List ℕ)) → length (joined ps) ≡ size ps
length-joined [] = omega arith
length-joined (p ∷ ps) = omega (arith, length-append p (joined ps), length-joined ps)

-- A text without a 0 that is copied over a buffer, read as a string: what the buffer held behind it up to a 0 is
-- read too.
pub c_string-overlay :
    (cs buf : List ℕ)
    → NoNul cs
    → length cs ≤ length buf
    → c_string (overlay cs buf) ≡ cs ++ c_string (drop (length cs) buf)
c_string-overlay cs buf h fits =
    ap c_string (overlay-eq cs buf fits) ∙ c_string-append cs (drop (length cs) buf) h

pub c_string-zeros : (k n : ℕ) → c_string (drop k (replicate n 0)) ≡ []
c_string-zeros zero zero = refl
c_string-zeros zero (suc n) = refl
c_string-zeros (suc k) zero = refl
c_string-zeros (suc k) (suc n) = c_string-zeros k n

pub c_string-blank :
    (cs : List ℕ) (n : ℕ) → NoNul cs → length cs ≤ n → c_string (overlay cs (replicate n 0)) ≡ cs
c_string-blank cs n h fits =
    c_string-overlay cs (replicate n 0) h (omega (arith, length-replicate {A = ℕ} n 0))
    ∙ ap (λ l. cs ++ l) (c_string-zeros (length cs) n)
    ∙ append-nil cs

-- What stands behind a place in a text that was copied to a zeroed buffer.
pub c_string-drop :
    (n : ℕ) (cs : List ℕ) (size : ℕ)
    → NoNul cs
    → length cs ≤ size
    → c_string (drop n (overlay cs (replicate size 0))) ≡ drop n cs
c_string-drop zero cs size h fits = c_string-blank cs size h fits
c_string-drop (suc n) [] size h fits = c_string-zeros (suc n) size
c_string-drop (suc n) (c ∷ cs) zero h fits = absurd (omega arith)
c_string-drop (suc n) (c ∷ cs) (suc size) h fits = c_string-drop n cs size h.1 (omega arith)
