-- ===== src/Sensor/Wifi/Credentials.antt =====
-- What the node takes for the network's name and password, and when it gives up.
use embeded_linux_gateway.Prelude.{
  ℕ, zero, suc, ltb, true, if◌then◌else◌, Bool-cases, inl, inr, drop, ◌+◌, ◌≤◌, ◌<◌, ◌≡◌, ◌≢◌, refl,
  sym, ◌∙◌, ap, false, List, [], ◌∷◌, ◌++◌, append_assoc, append-nil, ◌==◌, get_or, set-append,
  get_or-append, length, length-append, take, c_string, c_string-append, NoNul, arith,
}
use embeded_linux_gateway.Sensor.{NoNul-append}
use embeded_linux_gateway.Sensor.Wifi.{copy_pass, split, credentials}

-- Characters of a password, and of a name.
abbrev pub IsLine : List ℕ → Type 0
IsLine [] = Unit
IsLine (c ∷ cs) = (0 < c) × (c ≢ b'\n') × IsLine cs

abbrev pub IsName : List ℕ → Type 0
IsName [] = Unit
IsName (c ∷ cs) = (0 < c) × (c ≢ b'\n') × (c ≢ b'.') × IsName cs

char_at :
    (pre qs rest : List ℕ) (c j : ℕ)
    → length pre ≡ j + 1
    → get_or (pre ++ (qs ++ (c ∷ rest))) (length qs + j + 1) 0 ≡ c
char_at pre qs rest c j e =
    let place : length qs + j + 1 ≡ length (pre ++ qs) = omega (arith, length-append pre qs) in
    ap (λ n. get_or (pre ++ (qs ++ (c ∷ rest))) n 0) place
    ∙ ap (λ l. get_or l (length (pre ++ qs)) 0) (sym (append_assoc pre qs (c ∷ rest)))
    ∙ get_or-append (pre ++ qs) rest c 0

-- The password that is taken: a line feed within `n` characters ends it.
abbrev pub taken : ℕ → List ℕ → List ℕ → List ℕ
taken n ps old = if ltb (length ps) n then ps else take n ps ++ c_string (drop n old)

taken-suc : (n p o : ℕ) (ps old : List ℕ) → p ∷ taken n ps old ≡ taken (suc n) (p ∷ ps) (o ∷ old)
taken-suc n p o ps old = elim (Bool-cases (ltb (length ps) n)) [
  | inl ends ↦
      let ends' : ltb (suc (length ps)) (suc n) ≡ true = ground arith in rw (ends, ends') refl
  | inr on ↦ let on' : ltb (suc (length ps)) (suc n) ≡ false = ground arith in rw (on, on') refl
]

-- The password from the character behind `qs` on, with `old` in the rest of the array.
copy_pass-rest :
    (n j : ℕ) (pre qs ps rest old : List ℕ)
    → length pre ≡ j + 1
    → NoNul qs
    → IsLine ps
    → n ≤ length old
    → c_string (copy_pass n (length qs) j (pre ++ (qs ++ (ps ++ (b'\n' ∷ rest)))) (qs ++ old))
      ≡ qs ++ taken n ps old
unfolding copy_pass
copy_pass-rest zero j pre qs ps rest old e h g l =
    let on : ltb (length ps) 0 ≡ false = ground arith in
    rw (copy_pass, on) (c_string-append qs old h)
copy_pass-rest (suc n) j pre qs ps rest [] e h g l = absurd (omega arith)
copy_pass-rest (suc n) j pre qs [] rest (o ∷ old) e h g l =
    let ends : ltb 0 (suc n) ≡ true = ground arith in
    rw (copy_pass, char_at pre qs rest b'\n' j e, set-append qs old o 0, ends)
      (c_string-append qs (0 ∷ old) h)
copy_pass-rest (suc n) j pre qs (p ∷ ps) rest (o ∷ old) e h g l =
    let other : (p == b'\n') ≡ false = ground (arith, g.1) in
    let text = pre ++ (qs ++ (p ∷ ps ++ (b'\n' ∷ rest))) in
    let more = qs ++ (p ∷ []) in
    let count : length qs + 1 ≡ length more = sym (length-append qs (p ∷ [])) in
    let shift : text ≡ pre ++ (more ++ (ps ++ (b'\n' ∷ rest))) =
      ap (λ l. pre ++ l) (sym (append_assoc qs (p ∷ []) (ps ++ (b'\n' ∷ rest)))) in
    let stored : qs ++ (p ∷ old) ≡ more ++ old = sym (append_assoc qs (p ∷ []) old) in
    let later =
      copy_pass-rest n j pre more ps rest old e (NoNul-append qs (p ∷ []) h (g.0, tt)) g.2
        (omega arith) in
    rw
      (
        copy_pass,
        char_at pre qs (ps ++ (b'\n' ∷ rest)) p j e,
        other,
        set-append qs old o p,
        count,
        shift,
        stored,
      )
      (later
        ∙ append_assoc qs (p ∷ []) (taken n ps old)
        ∙ ap (λ l. qs ++ l) (taken-suc n p o ps old))

-- The name up to the '.', from the character behind `xs` on, with `old` in the rest of the array.
split-rest :
    (size n : ℕ) (xs ss tail pass old : List ℕ)
    → NoNul xs
    → IsName ss
    → length ss < n
    → n ≤ length old
    → let text = xs ++ (ss ++ (b'.' ∷ tail)) in
      let (name, word) = split size n (length xs) text (xs ++ old, pass) in
      (c_string name ≡ xs ++ (ss ++ c_string (drop (length ss) old)))
      × (word ≡ copy_pass size 0 (length (xs ++ ss)) text pass)
unfolding split
split-rest size zero xs ss tail pass old h g f l = absurd (omega arith)
split-rest size (suc n) xs ss tail pass [] h g f l = absurd (omega arith)
split-rest size (suc n) xs [] tail pass (o ∷ old) h g f l =
    rw (split, get_or-append xs tail b'.' 0, append-nil xs) (c_string-append xs (o ∷ old) h, refl)
split-rest size (suc n) xs (c ∷ ss) tail pass (o ∷ old) h g f l =
    let no_end : (c == b'\n') ≡ false = ground (arith, g.1) in
    let no_dot : (c == b'.') ≡ false = ground (arith, g.2) in
    let more = xs ++ (c ∷ []) in
    let count : length xs + 1 ≡ length more = sym (length-append xs (c ∷ [])) in
    let shift : xs ++ (c ∷ ss ++ (b'.' ∷ tail)) ≡ more ++ (ss ++ (b'.' ∷ tail)) =
      sym (append_assoc xs (c ∷ []) (ss ++ (b'.' ∷ tail))) in
    let stored : xs ++ (c ∷ old) ≡ more ++ old = sym (append_assoc xs (c ∷ []) old) in
    let sum : xs ++ (c ∷ ss) ≡ more ++ ss = sym (append_assoc xs (c ∷ []) ss) in
    let behind = ss ++ c_string (drop (length ss) old) in
    let (name, word) =
      split-rest size n more ss tail pass old (NoNul-append xs (c ∷ []) h (g.0, tt)) g.3
        (omega arith) (omega arith) in
    rw
      (
        split,
        get_or-append xs (ss ++ (b'.' ∷ tail)) c 0,
        no_end,
        no_dot,
        set-append xs old o c,
        count,
        shift,
        stored,
        sum,
      )
      (name ∙ append_assoc xs (c ∷ []) behind, word)

-- From a line of the name, a '.', the password and a line feed, with a name that is shorter than `size` and has
-- no '.', the node takes the name, followed by what its array held behind the length of the name, up to a 0; and it
-- takes the password, if that is shorter than `size`, and else its first `size` characters, followed by what
-- the array held behind them, up to a 0.
pub credentials-line :
    (size : ℕ) (ssid pass rest old_name old_word : List ℕ)
    → size ≤ 50
    → length old_name ≡ 50
    → length old_word ≡ 50
    → IsName ssid
    → length ssid < size
    → IsLine pass
    → let (name, word) =
        credentials size (ssid ++ (b'.' ∷ pass ++ (b'\n' ∷ rest))) (old_name, old_word) in
      (c_string name ≡ ssid ++ c_string (drop (length ssid) old_name))
      × (c_string word ≡ (
          if ltb (length pass) size then pass else take size pass ++ c_string (drop size old_word)))
unfolding credentials
credentials-line size ssid pass rest old_name old_word l names words name short word =
    let tail = pass ++ (b'\n' ∷ rest) in
    let first = split-rest size size [] ssid tail old_word old_name tt name short (omega arith) in
    let behind : ssid ++ (b'.' ∷ tail) ≡ (ssid ++ (b'.' ∷ [])) ++ tail =
      sym (append_assoc ssid (b'.' ∷ []) tail) in
    let second =
      copy_pass-rest size (length ssid) (ssid ++ (b'.' ∷ [])) [] pass rest old_word
        (length-append ssid (b'.' ∷ [])) tt word (omega arith) in
    (
      first.0,
      ap c_string first.1
          ∙ ap (λ t. c_string (copy_pass size 0 (length ssid) t old_word)) behind
          ∙ second,
    )
