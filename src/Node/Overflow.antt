-- ===== src/Node/Overflow.antt =====
-- What a '.' in a text leads to: the index stays, no later text is recognized, and the buffer overflows.
use embeded_linux_gateway.Prelude.{
  ℕ, zero, suc, ◌+◌, ◌-◌, ◌≤◌, ◌<◌, ◌≡◌, refl, true, false, none, some, List, [], ◌∷◌, ℤ, ltb, ◌==◌,
  if◌then◌else◌, get_or, set, length, arith, ltb→lt, lt→ltb, ap, ◌++◌, inl, inr, Bool-cases,
}
use embeded_linux_gateway.Node.Framing.{
  AllInner, within, between, receive-opening, receive_all-inner,
}
use embeded_linux_gateway.Node.{
  blank, Link, opening, closing, dot, is_skipped, watch, mark, finish, keep, receive, receive_all,
}

-- None of the characters is one of those that the daemon leaves out.
abbrev pub NoneSkipped : List ℕ → Type 0
NoneSkipped [] = Unit
NoneSkipped (c ∷ cs) = (is_skipped c ≡ false) × NoneSkipped cs

-- Inside a text that does not begin with '{'.
pub record IsDeaf (s : Link) : Type 0 where
  pub inside : s.flag1 ≡ true
  pub headless : (get_or s.text 0 0 == opening) ≡ false
  pub later : 0 < s.ka
  pub quiet : s.flag_detec_count ≤ 3

set-head : (t : List ℕ) (i c : ℕ) → 0 < i → get_or (set t i c) 0 0 ≡ get_or t 0 0
set-head [] i c h = refl
set-head (x ∷ t) zero c h = absurd (omega arith)
set-head (x ∷ t) (suc i) c h = refl

quiet_lem : (n : ℕ) → n ≤ 3 → ltb 3 n ≡ false
quiet_lem n h = ground arith

module _ (parse : List ℕ → ℤ × ℤ) where
  abbrev awake : Link → Link
  awake s = record s { flag1 = true }

  mark-deaf : (c : ℕ) (s : Link) → IsDeaf s → is_skipped c ≡ false → mark c s ≡ awake s
  unfolding mark
  mark-deaf c s h k = elim (Bool-cases (c == opening)) [
    | inl e ↦ rw e refl
    | inr e ↦ rw (e, no_dot c k) (ap (λ f. record s { flag1 = f }) h.inside)
  ]
    where
      no_dot : (c : ℕ) → is_skipped c ≡ false → (c == dot) ≡ false
      no_dot c k = ground arith

  finish-deaf : (c : ℕ) (s : Link) → IsDeaf s → finish parse c (awake s) ≡ some (awake s)
  unfolding finish
  finish-deaf c s h = elim (Bool-cases (c == closing)) [
    | inl e ↦ rw (e, h.headless) refl
    | inr e ↦ rw e refl
  ]

  receive-deaf :
      (c : ℕ) (s : Link)
      → IsDeaf s
      → is_skipped c ≡ false
      → receive parse c s ≡ (
          if ltb s.ka 50
          then some (record (awake s) { text = set s.text s.ka c; ka = s.ka + 1 })
          else none)
  unfolding receive watch keep
  receive-deaf c s h k =
      rw
        (
          receive,
          watch,
          quiet_lem s.flag_detec_count h.quiet,
          mark-deaf c s h k,
          finish-deaf c s h,
          k,
        )
        refl

  -- Inside a text that does not begin with '{', and not at the buffer's start, with at most 3 requests
  -- open: whatever characters come, '{' and '}' included, if none of them is '.', 'a' or 'b' and they are
  -- more than the buffer has room for, then the daemon writes past its buffer.
  receive_all_overflow :
      (cs : List ℕ) (s : Link)
      → IsDeaf s
      → NoneSkipped cs
      → 50 < s.ka + length cs
      → s.ka ≤ 50
      → receive_all parse cs s ≡ none
  unfolding receive_all
  receive_all_overflow [] s h k more room = absurd (omega arith)
  receive_all_overflow (c ∷ cs) s h k more room = elim (Bool-cases (ltb s.ka 50)) [
    | inl e ↦
        rw (receive_all, receive-deaf c s h k.0, e)
          (receive_all_overflow cs (record (awake s) { text = set s.text s.ka c; ka = s.ka + 1 })
            (record {
              inside = refl;
              headless = rw (set-head s.text s.ka c h.later) h.headless;
              later = omega arith;
              quiet = h.quiet;
            })
            k.1 (omega arith) (omega (arith, ltb→lt s.ka 50 e)))
    | inr e ↦ rw (receive_all, receive-deaf c s h k.0, e) refl
  ]

  receive-dot :
      (cs : List ℕ) (k : ℕ) (s : Link)
      → s.flag_detec_count ≤ 3
      → receive parse dot (within (opening ∷ cs) k s)
        ≡ some (record s { ka = length (opening ∷ cs); flag1 = false; text = blank })
  unfolding receive watch mark finish keep
  receive-dot cs k s quiet = rw (receive, watch, quiet_lem s.flag_detec_count quiet) refl

  -- The state after a text was given up with `n` characters, and a new one has begun.
  abbrev begun : ℕ → Link → Link
  begun n s = record s { ka = n + 1; flag1 = true; text = set blank n opening }

  receive-opening_again :
      (n : ℕ) (s : Link)
      → s.flag_detec_count ≤ 3
      → n < 50
      → receive parse opening (record s { ka = n; flag1 = false; text = blank }) ≡ some (begun n s)
  unfolding receive watch mark finish keep
  receive-opening_again n s quiet room =
      rw (receive, watch, quiet_lem s.flag_detec_count quiet, lt→ltb n 50 room) refl

  begun-IsDeaf : (n : ℕ) (s : Link) → s.flag_detec_count ≤ 3 → 0 < n → IsDeaf (begun n s)
  begun-IsDeaf n s quiet h = record {
    inside = refl;
    headless = rw (set-head blank n opening h) refl;
    later = omega arith;
    quiet = quiet;
  }

  -- Between texts, with at most 3 requests open: if a text of at most 47 characters after its '{', none of
  -- them '}', '.', 'a', 'b' or 0, is cut off by a '.', and a new one is begun by '{', then whatever follows,
  -- '}' included, without '.', 'a' and 'b', makes the daemon write past its buffer as soon as the
  -- characters after the two '{' are more than 48 in all.
  pub receive_all-dot :
      (cs ds : List ℕ) (s : Link)
      → s.flag_detec_count ≤ 3
      → AllInner cs
      → length cs ≤ 47
      → NoneSkipped ds
      → 48 < length cs + length ds
      → receive_all parse (opening ∷ cs ++ dot ∷ opening ∷ ds) (between s) ≡ none
  unfolding receive_all
  receive_all-dot cs ds s quiet h room k more =
      let left : 49 ≡ length cs + (49 - length cs) = omega arith in
      rw
        (
          receive_all,
          receive-opening parse s quiet,
          receive_all-inner parse cs (opening ∷ []) 49 (49 - length cs) s quiet h left (omega arith)
              (dot ∷ opening ∷ ds),
          receive_all,
          receive-dot cs (49 - length cs) s quiet,
          receive-opening_again (length (opening ∷ cs)) s quiet (omega arith),
        )
        (receive_all_overflow ds (begun (length (opening ∷ cs)) s)
          (begun-IsDeaf (length (opening ∷ cs)) s quiet (omega arith)) k (omega arith)
          (omega arith))
