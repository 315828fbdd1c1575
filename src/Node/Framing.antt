-- ===== src/Node/Framing.antt =====
-- The framing of the node's texts: a text comes through as it was sent, and a '.' in a text makes the next
-- ones run past the buffer.
use embeded_linux_gateway.Prelude.{
  ℕ, zero, suc, ◌+◌, ◌-◌, ◌≤◌, ◌<◌, ◌≡◌, ◌≢◌, refl, true, false, some, List, [], ◌∷◌, ◌++◌, ℤ, ltb,
  ◌==◌, c_string, c_string-append, NoNul, set, replicate, length, length-append, append_assoc,
  append-nil, arith, lt→ltb, ap, inl, inr, Bool-cases,
}
use embeded_linux_gateway.Receiver.{eq_ℤ}
use embeded_linux_gateway.Node.{
  respone_key, respone_data, Link, opening, closing, dot, is_skipped, blank, watch, mark, respond,
  finish, keep, receive, receive_all,
}

-- A character that may stand inside a text.
abbrev pub IsInner : ℕ → Type 0
IsInner c = (0 < c) × (c ≢ closing) × (c ≢ dot) × (c ≢ 97) × (c ≢ 98)

abbrev pub AllInner : List ℕ → Type 0
AllInner [] = Unit
AllInner (c ∷ cs) = IsInner c × AllInner cs

-- The state between texts.
abbrev pub between : Link → Link
between s = record s { ka = 0; flag1 = false; text = blank }

-- The state inside a text of which `xs` has come.
abbrev pub within : List ℕ → ℕ → Link → Link
within xs k s = record s { ka = length xs; flag1 = true; text = xs ++ replicate k 0 }

module _ (parse : List ℕ → ℤ × ℤ) where
  quiet_lem : (n : ℕ) → n ≤ 3 → ltb 3 n ≡ false
  quiet_lem n h = ground arith

  ne : (c n : ℕ) → c ≢ n → (c == n) ≡ false
  ne c n h = ground arith

  kept : (c : ℕ) → IsInner c → is_skipped c ≡ false
  kept c h = ground arith

  mark-within :
      (c : ℕ) (xs : List ℕ) (k : ℕ) (s : Link) → c ≢ dot → mark c (within xs k s) ≡ within xs k s
  unfolding mark
  mark-within c xs k s h = elim (Bool-cases (c == opening)) [
    | inl e ↦ rw e refl
    | inr e ↦ rw (e, ne c dot h) refl
  ]

  finish-inner : (c : ℕ) (t : Link) → c ≢ closing → finish parse c t ≡ some t
  unfolding finish
  finish-inner c t h = rw (ne c closing h) refl

  set-end : (xs zs : List ℕ) (c : ℕ) → set (xs ++ 0 ∷ zs) (length xs) c ≡ xs ++ c ∷ zs
  set-end [] zs c = refl
  set-end (x ∷ xs) zs c = ap (λ t. x ∷ t) (set-end xs zs c)

  next :
      (c : ℕ) (xs : List ℕ) (k : ℕ) (s : Link)
      → record (within xs (suc k) s) {
        text = set (xs ++ replicate (suc k) 0) (length xs) c;
        ka = length xs + 1;
      }
        ≡ within (xs ++ c ∷ []) k s
  next c xs k s =
      rw
        (
          set-end xs (replicate k 0) c,
          append_assoc xs (c ∷ []) (replicate k 0),
          length-append xs (c ∷ []),
        )
        refl

  keep-inner :
      (c : ℕ) (xs : List ℕ) (k : ℕ) (s : Link)
      → IsInner c
      → length xs + suc k ≤ 50
      → keep parse c (within xs (suc k) s) ≡ some (within (xs ++ c ∷ []) k s)
  unfolding keep
  keep-inner c xs k s h room =
      rw (kept c h, lt→ltb (length xs) 50 (omega arith)) (ap some (next c xs k s))

  receive-inner :
      (c : ℕ) (xs : List ℕ) (k : ℕ) (s : Link)
      → s.flag_detec_count ≤ 3
      → IsInner c
      → length xs + suc k ≤ 50
      → receive parse c (within xs (suc k) s) ≡ some (within (xs ++ c ∷ []) k s)
  unfolding receive watch
  receive-inner c xs k s quiet h room =
      rw
        (
          receive,
          watch,
          quiet_lem s.flag_detec_count quiet,
          mark-within c xs (suc k) s h.2,
          finish-inner c (within xs (suc k) s) h.1,
        )
        (keep-inner c xs k s h room)

  -- Inner characters are collected in order.
  pub receive_all-inner :
      (cs xs : List ℕ) (n k : ℕ) (s : Link)
      → s.flag_detec_count ≤ 3
      → AllInner cs
      → n ≡ length cs + k
      → length xs + n ≤ 50
      → (rest : List ℕ)
      → receive_all parse (cs ++ rest) (within xs n s)
        ≡ receive_all parse rest (within (xs ++ cs) k s)
  unfolding receive_all
  receive_all-inner [] xs n k s quiet h e room rest =
      let same : n ≡ k = omega arith in rw (append-nil xs, same) refl
  receive_all-inner (c ∷ cs) xs n k s quiet h e room rest =
      let less : n ≡ suc (length cs + k) = omega arith in
      rw
        (
          less,
          receive_all,
          receive-inner c xs (length cs + k) s quiet h.0 (omega arith),
          receive_all-inner cs (xs ++ c ∷ []) (length cs + k) k s quiet h.1 refl
              (omega (arith, length-append xs (c ∷ []))) rest,
          append_assoc xs (c ∷ []) cs,
        )
        refl

  pub receive-opening :
      (s : Link)
      → s.flag_detec_count ≤ 3
      → receive parse opening (between s) ≡ some (within (opening ∷ []) 49 s)
  unfolding receive watch mark finish keep
  receive-opening s quiet = rw (receive, watch, quiet_lem s.flag_detec_count quiet) refl

  pub AllInner-NoNul : (cs : List ℕ) → AllInner cs → NoNul cs
  AllInner-NoNul [] h = tt
  AllInner-NoNul (c ∷ cs) h = (h.0.0, AllInner-NoNul cs h.1)

  -- A text without a 0 is read up to its end, also in front of zeros.
  whole : (xs zs : List ℕ) → NoNul xs → c_string (xs ++ closing ∷ 0 ∷ zs) ≡ xs ++ closing ∷ []
  whole xs zs h = c_string-append xs (closing ∷ 0 ∷ zs) h

  pub alone : (xs : List ℕ) → NoNul xs → c_string (xs ++ closing ∷ []) ≡ xs ++ closing ∷ []
  alone xs h = c_string-append xs (closing ∷ []) h

  respond-padded :
      (xs zs : List ℕ) (t : Link)
      → NoNul xs
      → respond parse (xs ++ closing ∷ 0 ∷ zs) t ≡ respond parse (xs ++ closing ∷ []) t
  unfolding respond
  respond-padded xs zs t h = rw (whole xs zs h, alone xs h) refl

  respond-flag1 : (line : List ℕ) (t : Link) → (respond parse line t).flag1 ≡ t.flag1
  unfolding respond
  respond-flag1 line t = elim (Bool-cases (eq_ℤ (parse (c_string line)).0 respone_key)) [
    | inl e ↦ rw e refl
    | inr e ↦ elim (Bool-cases (eq_ℤ (parse (c_string line)).0 respone_data)) [
      | inl f ↦ rw (e, f) refl
      | inr f ↦ rw (e, f) refl
    ]
  ]

  keep-outside : (c : ℕ) (t : Link) → t.flag1 ≡ false → keep parse c t ≡ some t
  unfolding keep
  keep-outside c t h = rw h refl

  finish-closing :
      (cs : List ℕ) (k : ℕ) (s : Link)
      → NoNul cs
      → 1 + length cs < 49
      → finish parse closing (within (opening ∷ cs) (suc (suc k)) s)
        ≡ some (respond parse (opening ∷ cs ++ closing ∷ []) (between s))
  unfolding finish
  finish-closing cs k s h room =
      rw
        (
          finish,
          lt→ltb (suc (length cs)) 49 (omega arith),
          set-end cs (replicate (suc k) 0) closing,
        )
        (ap some (respond-padded (opening ∷ cs) (replicate k 0) (between s) (omega arith, h)))

  receive-closing :
      (cs : List ℕ) (k : ℕ) (s : Link)
      → s.flag_detec_count ≤ 3
      → AllInner cs
      → 1 + length cs < 49
      → receive parse closing (within (opening ∷ cs) (suc (suc k)) s)
        ≡ some (respond parse (opening ∷ cs ++ closing ∷ []) (between s))
  unfolding receive watch
  receive-closing cs k s quiet h room =
      rw
        (
          receive,
          watch,
          quiet_lem s.flag_detec_count quiet,
          mark-within closing (opening ∷ cs) (suc (suc k)) s (λ e. absurd (omega arith)),
          finish-closing cs k s (AllInner-NoNul cs h) room,
        )
        (keep-outside closing (respond parse (opening ∷ cs ++ closing ∷ []) (between s))
          (respond-flag1 (opening ∷ cs ++ closing ∷ []) (between s)))

  receive_all-closing :
      (cs : List ℕ) (k : ℕ) (s : Link)
      → s.flag_detec_count ≤ 3
      → AllInner cs
      → 1 + length cs < 49
      → 1 ≤ k
      → receive_all parse (closing ∷ []) (within (opening ∷ cs) (suc k) s)
        ≡ some (respond parse (opening ∷ cs ++ closing ∷ []) (between s))
  unfolding receive_all
  receive_all-closing cs zero s quiet h room more = absurd (omega arith)
  receive_all-closing cs (suc k) s quiet h room more =
      rw (receive_all, receive-closing cs k s quiet h room) refl

  -- Between texts, with at most 3 requests open: a text that begins with '{' and ends with '}', of at most
  -- 49 characters with none of '}', '.', 'a', 'b' and 0 between them, is handed whole to the parser, which
  -- decides what it does, and the next text can follow.
  pub receive_all-text :
      (cs : List ℕ) (s : Link)
      → s.flag_detec_count ≤ 3
      → AllInner cs
      → length cs ≤ 47
      → receive_all parse (opening ∷ cs ++ closing ∷ []) (between s)
        ≡ some (respond parse (opening ∷ cs ++ closing ∷ []) (between s))
  unfolding receive_all respond
  receive_all-text cs s quiet h room =
      let left : 49 ≡ length cs + suc (48 - length cs) = omega arith in
      rw
        (
          receive_all,
          receive-opening s quiet,
          receive_all-inner cs (opening ∷ []) 49 (suc (48 - length cs)) s quiet h left (omega arith)
              (closing ∷ []),
        )
        (receive_all-closing cs (48 - length cs) s quiet h (omega arith) (omega arith))
