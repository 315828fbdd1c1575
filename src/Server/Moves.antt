-- ===== src/Server/Moves.antt =====
-- The server's entries as the list of its clients: what a pass makes of the list.
use embeded_linux_gateway.Prelude.{
  ℕ, zero, suc, ◌+◌, ◌-◌, ◌≤◌, ◌<◌, ◌≡◌, ◌⊎◌, refl, sym, ◌∙◌, ap, Bool, true, false, not, ◌&&◌,
  some, ℤ, is_neg, arith, overlay, Bool-cases, Option-cases, inl, inr, lt→ltb,
}
use mathlib.Core.Path.{subst}
use embeded_linux_gateway.Server.{
  Server, Answers, max_fds, poll, dispatch, turn, stop, go_on, update, add_client, drop_client,
  serve, round,
}
use embeded_linux_gateway.Server.Rounds.{dispatch_keeps, inside}

-- The descriptors in the entries below `n` are the same.
abbrev pub Same : ℕ → Server → Server → Type 0
Same n s t = (j : ℕ) → j < n → (t.poll_fds j).fd ≡ (s.poll_fds j).fd

-- What a pass does to the entries: one is added, the last is given up, or they stay. A pass without a
-- client that waits adds none.
pub data Move (a : Answers) (s t : Server) : Type 0 where
  joins :
      (i : ℕ)
      → a.ready 0 ≡ true
      → is_neg (a.accepted i) ≡ false
      → t.nfds ≡ s.nfds + 1
      → Same s.nfds s t
      → (t.poll_fds s.nfds).fd ≡ a.accepted i
      → Move a s t
  leaves : t.nfds ≡ s.nfds - 1 → Same s.nfds s t → Move a s t
  stays : t.nfds ≡ s.nfds → Same s.nfds s t → Move a s t

adds :
    (fd : ℤ) (s : Server)
    → s.nfds < max_fds
    → (t : Server) × (add_client fd s ≡ some t)
      × (t.nfds ≡ s.nfds + 1)
      × Same s.nfds s t
      × ((t.poll_fds s.nfds).fd ≡ fd)
unfolding add_client
adds fd s h = (
  record s {
    poll_fds = update s.poll_fds s.nfds (record (s.poll_fds s.nfds) { fd = fd });
    nfds = s.nfds + 1;
  },
  rw (lt→ltb s.nfds max_fds h) refl,
  refl,
  λ j k. ground arith,
  ground arith,
)

-- A round of the `for`, in a state in which the waiting clients are those that `poll` has reported.
turn_moves :
    (i : ℕ) (a : Answers) (s : Server)
    → s.nfds < max_fds
    → i < max_fds
    → (0 < s.nfds → (s.poll_fds 0).pollin ≡ a.ready 0)
    → 0 < s.nfds
    → ((t : Server) × (turn i a s ≡ stop (some t)) × Move a s t)
      ⊎ ((t : Server) × (turn i a s ≡ go_on t) × (t.nfds ≡ s.nfds) × (t.poll_fds ≡ s.poll_fds))
unfolding turn drop_client
turn_moves i a s h g seen p =
    elim (Bool-cases ((s.poll_fds 0).pollin && not (is_neg (a.accepted i)))) [
      | inl new ↦
          let (t, e, more, same, last) = adds (a.accepted i) s h in
          let both = and_cases (s.poll_fds 0).pollin (is_neg (a.accepted i)) new in
          inl (t, rw (new, e) refl, joins i (sym (seen p) ∙ both.0) both.1 more same last)
      | inr old ↦ elim (Bool-cases (s.poll_fds i).pollin) [
        | inl busy ↦ elim (Option-cases (a.received i)) [
          | inl gone ↦ inl (
            drop_client i s,
            rw (turn, old, inside g, busy, gone) refl,
            leaves refl (λ j k. refl),
          )
          | inr (bs, got) ↦
              let kept = dispatch_keeps (record s { bytes = overlay bs s.bytes }) in
              inr (
                dispatch (record s { bytes = overlay bs s.bytes }),
                rw (turn, old, inside g, busy, got) refl,
                kept.0,
                kept.1,
              )
        ]
        | inr idle ↦ inr (s, rw (turn, old, inside g, idle) refl, refl, refl)
      ]
    ]
  where
    and_cases : (b c : Bool) → (b && not c) ≡ true → (b ≡ true) × (c ≡ false)
    and_cases true false h = (refl, refl)
    and_cases true true h = absurd (ground arith)
    and_cases false c h = absurd (ground arith)

-- What a `for` does from a state like `s`, it does from `s`.
back :
    {a : Answers} {s t u : Server}
    → t.nfds ≡ s.nfds
    → t.poll_fds ≡ s.poll_fds
    → Move a t u
    → Move a s u
back {a} {s} {t} {u} e f (joins i ready ok more same last) =
    joins i ready ok (more ∙ ap (λ n. n + 1) e) (λ j k. same j (omega arith) ∙ ap (λ g. (g j).fd) f)
      (subst (λ n. (u.poll_fds n).fd ≡ a.accepted i) e last)
back e f (leaves less same) =
    leaves (less ∙ ap (λ n. n - 1) e) (λ j k. same j (omega arith) ∙ ap (λ g. (g j).fd) f)
back e f (stays equal same) = stays (equal ∙ e) (λ j k. same j (omega arith) ∙ ap (λ g. (g j).fd) f)

serve_moves :
    (k i : ℕ) (a : Answers) (s : Server)
    → s.nfds < max_fds
    → i + k ≤ max_fds
    → (s.poll_fds 0).pollin ≡ a.ready 0
    → 0 < s.nfds
    → (t : Server) × (serve k i a s ≡ some t) × Move a s t
unfolding serve
serve_moves zero i a s h l seen p = (s, refl, stays refl (λ j k. refl))
serve_moves (suc k) i a s h l seen p = elim (turn_moves i a s h (omega arith) (λ _. seen) p) [
  | inl (t, e, move) ↦ (t, rw (serve, e) refl, move)
  | inr (t, e, same, fds) ↦
      let (u, f, move) =
        serve_moves k (i + 1) a t (omega arith) (omega arith) (ap (λ g. (g 0).pollin) fds ∙ seen)
          (omega arith) in
      (u, rw (serve, e) f, back same fds move)
]

poll-fd : (a : Answers) (s : Server) (j : ℕ) → ((poll a s).poll_fds j).fd ≡ (s.poll_fds j).fd
unfolding poll
poll-fd a s j = ground arith

-- What a pass does after `poll`, it does to the entries before.
polled : {a : Answers} {s t : Server} → Move a (poll a s) t → Move a s t
unfolding poll
polled {a} {s} (joins i ready ok more same last) =
    joins i ready ok more (λ j k. same j k ∙ poll-fd a s j) last
polled {a} {s} (leaves less same) = leaves less (λ j k. same j k ∙ poll-fd a s j)
polled {a} {s} (stays equal same) = stays equal (λ j k. same j k ∙ poll-fd a s j)

-- A pass with an entry for the listening socket and fewer than 20 entries is one of the moves.
pub round_moves :
    (a : Answers) (s : Server)
    → 0 < s.nfds
    → s.nfds < max_fds
    → (t : Server) × (round a s ≡ some t) × Move a s t
unfolding round poll
round_moves a s p h =
    let (t, e, move) =
      serve_moves s.nfds 1 a (poll a s) h (omega arith) (rw (lt→ltb 0 s.nfds p) refl) p in
    (t, e, polled move)
