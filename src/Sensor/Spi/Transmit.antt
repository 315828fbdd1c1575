-- ===== src/Sensor/Spi/Transmit.antt =====
-- The node puts its answer to the data register; the answer is a text that the daemon can take.
use embeded_linux_gateway.Prelude.{
  ℕ, zero, suc, ◌+◌, ◌<◌, ◌≡◌, refl, sym, ◌∙◌, ap, Bool, true, false, some, List, [], ◌∷◌, ◌++◌, ℤ,
  append_assoc, ◌==◌, ltb, not, ◌&&◌, get_or, get_or-append, length, length-append, arith, inl, inr,
}
use embeded_linux_gateway.Server.{codes}
use embeded_linux_gateway.Sensor.{AllFigures, IsFigure}
use embeded_linux_gateway.Sensor.Spi.{Slave, key_data, closing, count_char, string_data, transmit}
use embeded_linux_gateway.Node.{opening}
use embeded_linux_gateway.Node.Framing.{IsInner, AllInner}

count_char-closing :
    (cs : List ℕ) → AllInner cs → count_char (cs ++ (closing ∷ [])) ≡ some (length cs + 1)
unfolding count_char
count_char-closing [] h = refl
count_char-closing (c ∷ cs) h =
    let other : (c == closing) ≡ false = ground (arith, h.0.1) in
    let sum : length cs + 1 + 1 ≡ suc (length cs) + 1 = omega arith in
    rw (count_char, other, count_char-closing cs h.1) (ap some sum)

pub opening-IsInner : IsInner opening
opening-IsInner = (omega arith, ground arith, ground arith, ground arith, ground arith)

figure-IsInner : (c : ℕ) → IsFigure c → IsInner c
figure-IsInner c (inl e) =
    rw e (omega arith, ground arith, ground arith, ground arith, ground arith)
figure-IsInner c (inr h) = (omega arith, omega arith, omega arith, omega arith, omega arith)

AllFigures-AllInner : (cs : List ℕ) → AllFigures cs → AllInner cs
AllFigures-AllInner [] h = tt
AllFigures-AllInner (c ∷ cs) h = (figure-IsInner c h.0, AllFigures-AllInner cs h.1)

AllInner-append : (xs ys : List ℕ) → AllInner xs → AllInner ys → AllInner (xs ++ ys)
AllInner-append [] ys h g = g
AllInner-append (x ∷ xs) ys h g = (h.0, AllInner-append xs ys h.1 g)

-- The test for a constant text.
abbrev may_stand : List ℕ → Bool
may_stand [] = true
may_stand (c ∷ cs) =
    ltb 0 c
    && (not (c == 125) && (not (c == 46) && (not (c == 97) && (not (c == 98) && may_stand cs))))

may_stand-AllInner : (cs : List ℕ) → may_stand cs ≡ true → AllInner cs
may_stand-AllInner [] h = tt
may_stand-AllInner (c ∷ cs) h = (
  (ground arith, ground arith, ground arith, ground arith, ground arith),
  may_stand-AllInner cs (ground arith),
)

-- The answer between its braces.
abbrev pub inside : List ℕ → List ℕ → List ℕ
inside key_text temp_text = codes "\"keynode\":" ++ (key_text ++ (codes ",\"Temp\":" ++ temp_text))

pub inside-AllInner : (xs ys : List ℕ) → AllFigures xs → AllFigures ys → AllInner (inside xs ys)
inside-AllInner xs ys h g =
    AllInner-append (codes "\"keynode\":") (xs ++ (codes ",\"Temp\":" ++ ys))
      (may_stand-AllInner (codes "\"keynode\":") refl)
      (AllInner-append xs (codes ",\"Temp\":" ++ ys) (AllFigures-AllInner xs h) (
        AllInner-append (codes ",\"Temp\":") ys (may_stand-AllInner (codes ",\"Temp\":") refl)
          (AllFigures-AllInner ys g)))

pub inside-length : (xs ys : List ℕ) → length (inside xs ys) ≡ 18 + length xs + length ys
inside-length xs ys = omega (arith, length-append xs (codes ",\"Temp\":" ++ ys))

module _ (show : ℤ → List ℕ) where
  -- A round of the loop, before the last character and at it.
  transmit-on :
      (fuel : ℕ) (text : List ℕ) (y n : ℕ) (s : Slave)
      → count_char text ≡ some n
      → get_or text s.k 0 ≡ y
      → s.k + 1 < n
      → transmit show (suc fuel) text s
        ≡ transmit show fuel text (record s { spdr = s.spdr ++ (y ∷ []); k = s.k + 1 })
  unfolding transmit
  transmit-on fuel text y n s e g h =
      let early : (s.k + 1 == n) ≡ false = ground arith in simp (transmit, e, g, early) refl

  transmit-end :
      (fuel : ℕ) (text : List ℕ) (y n : ℕ) (s : Slave)
      → count_char text ≡ some n
      → get_or text s.k 0 ≡ y
      → s.k + 1 ≡ n
      → transmit show (suc fuel) text s ≡ some (record s { spdr = s.spdr ++ (y ∷ []); k = 0 })
  unfolding transmit
  transmit-end fuel text y n s e g h =
      let late : (s.k + 1 == n) ≡ true = ground arith in simp (transmit, e, g, late) refl

  transmit-rest :
      (fuel : ℕ) (xs ys : List ℕ) (y : ℕ) (s : Slave)
      → count_char (xs ++ (y ∷ ys)) ≡ some (length xs + suc (length ys))
      → s.k ≡ length xs
      → length ys < fuel
      → transmit show fuel (xs ++ (y ∷ ys)) s ≡ some (record s { spdr = s.spdr ++ (y ∷ ys); k = 0 })
  transmit-rest zero xs ys y s e k h = absurd (omega arith)
  transmit-rest (suc fuel) xs [] y s e k h =
      transmit-end fuel (xs ++ (y ∷ [])) y (length xs + 1) s e
        (ap (λ n. get_or (xs ++ (y ∷ [])) n 0) k ∙ get_or-append xs [] y 0) (omega arith)
  transmit-rest (suc fuel) xs (z ∷ ys) y s e k h =
      let t = record s { spdr = s.spdr ++ (y ∷ []); k = s.k + 1 } in
      let text = xs ++ (y ∷ z ∷ ys) in
      let one =
        transmit-on fuel text y (length xs + suc (suc (length ys))) s e
          (ap (λ n. get_or text n 0) k ∙ get_or-append xs (z ∷ ys) y 0) (omega arith) in
      let same : (xs ++ (y ∷ [])) ++ (z ∷ ys) ≡ text = append_assoc xs (y ∷ []) (z ∷ ys) in
      let size : length (xs ++ (y ∷ [])) ≡ length xs + 1 = length-append xs (y ∷ []) in
      let sum : length xs + suc (suc (length ys)) ≡ length (xs ++ (y ∷ [])) + suc (length ys) =
        omega arith in
      let rest =
        transmit-rest fuel (xs ++ (y ∷ [])) ys z t (ap count_char same ∙ e ∙ ap some sum)
          (omega arith) (omega arith) in
      one
      ∙ ap (λ l. transmit show fuel l t) (sym same)
      ∙ rest
      ∙ ap (λ l. some (record s { spdr = l; k = 0 })) (append_assoc s.spdr (y ∷ []) (z ∷ ys))

  -- A text that ends at its first '}' is put to the data register character by character.
  pub transmit_lem :
      (fuel : ℕ) (cs : List ℕ) (s : Slave)
      → AllInner cs
      → s.k ≡ 0
      → length cs + 1 < fuel
      → transmit show fuel (opening ∷ cs ++ (closing ∷ [])) s
        ≡ some (record s { spdr = s.spdr ++ (opening ∷ cs ++ (closing ∷ [])); k = 0 })
  transmit_lem fuel cs s h k f =
      let sum : length (opening ∷ cs) + 1 ≡ 0 + suc (length (cs ++ (closing ∷ []))) =
        omega (arith, length-append cs (closing ∷ [])) in
      transmit-rest fuel [] (cs ++ (closing ∷ [])) opening s
        (count_char-closing (opening ∷ cs) (opening-IsInner, h) ∙ ap some sum) k
        (omega (arith, length-append cs (closing ∷ [])))

  pub string_data-inside :
      (s : Slave)
      → string_data show s ≡ opening ∷ inside (show key_data) (show s.temp) ++ (closing ∷ [])
  unfolding string_data
  string_data-inside s = rw (append_assoc, append_assoc) refl

  pub count_char-string_data :
      (s : Slave)
      → AllFigures (show key_data)
      → AllFigures (show s.temp)
      → count_char (string_data show s) ≡ some (length (string_data show s))
  count_char-string_data s h g =
      let cs = inside (show key_data) (show s.temp) in
      let sum : length (opening ∷ cs) + 1 ≡ length (opening ∷ cs ++ (closing ∷ [])) =
        omega (arith, length-append cs (closing ∷ [])) in
      ap count_char (string_data-inside s)
      ∙ count_char-closing (opening ∷ cs)
          (opening-IsInner, inside-AllInner (show key_data) (show s.temp) h g)
      ∙ ap some sum
      ∙ ap (λ l. some (length l)) (sym (string_data-inside s))
