-- ===== src/Sensor/Spi/Words.antt =====
-- The node takes a request as a word that ends in '*', whatever other bytes come in between.
use embeded_linux_gateway.Prelude.{
  ℕ, ◌≡◌, ◌≢◌, refl, sym, ◌∙◌, ap, true, false, List, [], ◌∷◌, ◌++◌, append-nil, append_assoc, ◌==◌,
  if◌then◌else◌, arith, Bool-cases, inl, inr,
}
use embeded_linux_gateway.Sensor.{equals}
use embeded_linux_gateway.Sensor.Spi.{Slave, key, is_letter, isr, isr_all}

abbrev pub NoStar : List ℕ → Type 0
NoStar [] = Unit
NoStar (c ∷ cs) = (c ≢ b'*') × NoStar cs

-- The characters 'a' and 'b' of a sequence of bytes.
abbrev pub letters : List ℕ → List ℕ
letters [] = []
letters (c ∷ cs) = let rest = letters cs in if is_letter c then c ∷ rest else rest

abbrev AllLetters : List ℕ → Type 0
AllLetters [] = Unit
AllLetters (c ∷ cs) = (is_letter c ≡ true) × AllLetters cs

letters-AllLetters : (cs : List ℕ) → AllLetters (letters cs)
letters-AllLetters [] = tt
letters-AllLetters (c ∷ cs) = elim (Bool-cases (is_letter c)) [
  | inl letter ↦ rw letter (letter, letters-AllLetters cs)
  | inr other ↦ rw other (letters-AllLetters cs)
]

isr_all-append : (xs ys : List ℕ) (s : Slave) → isr_all (xs ++ ys) s ≡ isr_all ys (isr_all xs s)
unfolding isr_all
isr_all-append [] ys s = refl
isr_all-append (x ∷ xs) ys s = isr_all-append xs ys (isr x s)

isr-inside :
    (c : ℕ) (s : Slave)
    → c ≢ b'*'
    → isr c s
      ≡ record s { receive_gw = if is_letter c then s.receive_gw ++ (c ∷ []) else s.receive_gw }
unfolding isr
isr-inside c s h =
    let f : (c == b'*') ≡ false = ground arith in
    elim (Bool-cases (is_letter c)) [
      | inl letter ↦ rw (f, letter) refl
      | inr other ↦ rw (f, other) refl
    ]

-- Without a '*' the letters are appended, and nothing else changes.
pub isr_all-letters :
    (cs : List ℕ) (s : Slave)
    → NoStar cs
    → isr_all cs s ≡ record s { receive_gw = s.receive_gw ++ letters cs }
unfolding isr_all isr
isr_all-letters [] s h = ap (λ w. record s { receive_gw = w }) (sym (append-nil s.receive_gw))
isr_all-letters (c ∷ cs) s h = elim (Bool-cases (is_letter c)) [
  | inl letter ↦
      rw
        (
          isr_all,
          isr-inside c s h.0,
          letter,
          isr_all-letters cs (record s { receive_gw = s.receive_gw ++ (c ∷ []) }) h.1,
          append_assoc,
        )
        refl
  | inr other ↦ rw (isr_all, isr-inside c s h.0, other, isr_all-letters cs s h.1) refl
]

-- The end of a word.
star :
    (s : Slave)
    → isr b'*' s ≡ record s { process = equals key (s.receive_gw ++ (b'*' ∷ [])); receive_gw = [] }
unfolding isr
star s = refl

equals-key : (l : List ℕ) → AllLetters l → equals key (l ++ (b'*' ∷ [])) ≡ equals (b'b' ∷ []) l
equals-key [] h = refl
equals-key (x ∷ []) h = refl
equals-key (x ∷ y ∷ l) h = let f : (b'*' == y) ≡ false = ground (arith, h.1.0) in rw f refl

-- From any state, after a '*', bytes without one, a '*', and bytes without one again, `process` is set
-- exactly if 'b' was the only one of the letters 'a' and 'b' between the two.
pub isr_all-process :
    (xs w ys : List ℕ) (s : Slave)
    → NoStar w
    → NoStar ys
    → (isr_all (xs ++ (b'*' ∷ w ++ (b'*' ∷ ys))) s).process ≡ equals (b'b' ∷ []) (letters w)
unfolding isr_all isr
isr_all-process xs w ys s h g =
    let t = isr b'*' (isr_all xs s) in
    let first : isr_all (xs ++ (b'*' ∷ w ++ (b'*' ∷ ys))) s ≡ isr_all (w ++ (b'*' ∷ ys)) t =
      isr_all-append xs (b'*' ∷ w ++ (b'*' ∷ ys)) s in
    let word = isr_all-letters w t h in
    let second = isr_all-append w (b'*' ∷ ys) t in
    let last = isr_all-letters ys (isr b'*' (record t { receive_gw = letters w })) g in
    ap (λ (u : Slave). u.process) (first ∙ second ∙ ap (λ u. isr_all ys (isr b'*' u)) word ∙ last)
    ∙ equals-key (letters w) (letters-AllLetters w)
