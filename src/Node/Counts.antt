-- ===== src/Node/Counts.antt =====
-- What the daemon makes of a character does not depend on the counts of requests, answers and losses.
use embeded_linux_gateway.Prelude.{
  ℕ, ◌+◌, ◌≡◌, refl, sym, ◌∙◌, ap, none, some, Option-cases, some-injective, none≢some, List, ℤ,
  ltb, ◌==◌, ◌&&◌, not, get_or, set, inl, inr, Bool-cases, c_string,
}
use mathlib.Core.Path.{subst}
use embeded_linux_gateway.Receiver.{eq_ℤ}
use embeded_linux_gateway.Node.{
  respone_key, respone_data, Link, opening, closing, dot, is_skipped, watch, mark, respond, finish,
  keep, receive,
}
use embeded_linux_gateway.Node.Framing.{between}

-- Other counts of requests, answers and losses.
abbrev pub tagged : ℕ → ℕ → ℕ → Link → Link
tagged d n m l = record l { flag_detect = d; flag_detec_count = n; lost = m }

-- The same but for the counts.
abbrev pub Like : Link → Link → Type 0
Like k l = (d : ℕ) × (n : ℕ) × (m : ℕ) × (k ≡ tagged d n m l)

Like-trans : (j k l : Link) → Like j k → Like k l → Like j l
Like-trans j k l (d, n, m, e) (d', n', m', f) = (d, n, m, e ∙ ap (tagged d n m) f)

Like-sym : (k l : Link) → Like k l → Like l k
Like-sym k l (d, n, m, e) = (
  l.flag_detect,
  l.flag_detec_count,
  l.lost,
  ap (tagged l.flag_detect l.flag_detec_count l.lost) (sym e),
)

watch-Like : (k : Link) → Like (watch k) k
unfolding watch
watch-Like k = elim (Bool-cases (ltb 3 k.flag_detec_count)) [
  | inl late ↦ elim (Bool-cases (k.flag_detect == 0)) [
    | inl quiet ↦ (k.flag_detect, 0, k.lost + 1, rw (late, quiet) refl)
    | inr answered ↦ (0, 0, k.lost, rw (late, answered) refl)
  ]
  | inr early ↦ (k.flag_detect, k.flag_detec_count, k.lost, rw early refl)
]

mark-tagged : (c d n m : ℕ) (l : Link) → mark c (tagged d n m l) ≡ tagged d n m (mark c l)
unfolding mark
mark-tagged c d n m l = elim (Bool-cases (c == opening)) [
  | inl a ↦ rw a refl
  | inr a ↦ elim (Bool-cases (c == dot)) [ inl b ↦ rw (a, b) refl | inr b ↦ rw (a, b) refl ]
]

module _ (parse : List ℕ → ℤ × ℤ) where
  respond-tagged :
      (line : List ℕ) (d n m : ℕ) (l : Link)
      → Like (respond parse line (tagged d n m l)) (respond parse line l)
  unfolding respond
  respond-tagged line d n m l = elim (Bool-cases (eq_ℤ (parse (c_string line)).0 respone_key)) [
    | inl key ↦ (d + 1, n, m, rw key refl)
    | inr other ↦ elim (Bool-cases (eq_ℤ (parse (c_string line)).0 respone_data)) [
      | inl data_ ↦ (d + 1, n, m, rw (other, data_) refl)
      | inr neither ↦ (d, n, m, rw (other, neither) refl)
    ]
  ]

  keep-tagged :
      (c d n m : ℕ) (l t : Link)
      → keep parse c l ≡ some t
      → keep parse c (tagged d n m l) ≡ some (tagged d n m t)
  unfolding keep
  keep-tagged c d n m l t h = elim (Bool-cases (l.flag1 && not (is_skipped c))) [
    | inl inside ↦ elim (Bool-cases (ltb l.ka 50)) [
      | inl room ↦
          let e : keep parse c l ≡ some (record l { text = set l.text l.ka c; ka = l.ka + 1 }) =
            rw (keep, inside, room) in
          rw (keep, inside, room)
            (ap (λ (k : Link). some (tagged d n m k)) (some-injective (sym e ∙ h)))
      | inr full ↦
          let e : keep parse c l ≡ none = rw (keep, inside, full) in absurd (none≢some (sym e ∙ h))
    ]
    | inr outside ↦
        let e : keep parse c l ≡ some l = rw (keep, outside) in
        rw (keep, outside) (ap (λ (k : Link). some (tagged d n m k)) (some-injective (sym e ∙ h)))
  ]

  finish-tagged :
      (c d n m : ℕ) (l t : Link)
      → finish parse c l ≡ some t
      → (u : Link) × (finish parse c (tagged d n m l) ≡ some u) × Like u t
  unfolding finish
  finish-tagged c d n m l t h = elim (Bool-cases (c == closing && get_or l.text 0 0 == opening)) [
    | inl ends ↦ elim (Bool-cases (ltb l.ka 49)) [
      | inl room ↦
          let line = set l.text l.ka c in
          let e : finish parse c l ≡ some (respond parse line (between l)) =
            rw (finish, ends, room) in
          (
            respond parse line (between (tagged d n m l)),
            rw (finish, ends, room),
            subst (λ u. Like (respond parse line (between (tagged d n m l))) u)
                (some-injective (sym e ∙ h)) (respond-tagged line d n m (between l)),
          )
      | inr full ↦
          let e : finish parse c l ≡ none = rw (finish, ends, full) in
          absurd (none≢some (sym e ∙ h))
    ]
    | inr goes_on ↦
        let e : finish parse c l ≡ some l = rw (finish, goes_on) in
        (
          tagged d n m l,
          rw (finish, goes_on),
          (d, n, m, ap (tagged d n m) (some-injective (sym e ∙ h))),
        )
  ]

  pub receive-Like :
      (c : ℕ) (k l l' : Link)
      → Like k l
      → receive parse c l ≡ some l'
      → (k' : Link) × (receive parse c k ≡ some k') × Like k' l'
  unfolding receive
  receive-Like c k l l' like h =
      let (d, n, m, e) =
        Like-trans (watch k) k (watch l) (watch-Like k)
          (Like-trans k l (watch l) like (Like-sym (watch l) l (watch-Like l))) in
      elim (Option-cases (finish parse c (mark c (watch l)))) [
        | inl fails ↦
            let f : receive parse c l ≡ none = rw (receive, fails) in absurd (none≢some (sym f ∙ h))
        | inr (t, f) ↦
            let (u, g, like') = finish-tagged c d n m (mark c (watch l)) t f in
            let (d', n', m', v) = like' in
            let first : finish parse c (mark c (watch k)) ≡ some u =
              ap (λ x. finish parse c (mark c x)) e
              ∙ ap (finish parse c) (mark-tagged c d n m (watch l))
              ∙ g in
            let last : receive parse c l ≡ keep parse c t = rw (receive, f) in
            let kept = keep-tagged c d' n' m' t l' (sym last ∙ h) in
            (tagged d' n' m' l', rw (receive, first, v) kept, (d', n', m', refl))
      ]
