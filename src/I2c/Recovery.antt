-- ===== src/I2c/Recovery.antt =====
-- The timer and the address over the steps of the daemon: a node that is lost is looked for until it is
-- found.
use embeded_linux_gateway.Prelude.{
  ℕ, ◌≤◌, ◌<◌, ◌≡◌, ◌⊎◌, inl, inr, refl, Bool, true, false, ℤ, pos, negsuc, is_neg, ltb, ◌==◌,
  Bool-cases, ==_iff, ltb→lt, sym, ◌∙◌, arith,
}
use mathlib.Core.Bool.{true≢false}
use embeded_linux_gateway.I2c.{
  Master, scan_address, timer_handler, is_lost, first_read, next_read, poll_timeout,
  send_request_to_node, Daemon, Step, Run, fires, created, not_created, timeout, reads, reads_on,
  leaves, here, then_step, daemon_start,
}
use embeded_linux_gateway.I2c.Scan.{IsLast, timer_handler_scans}

-- What holds in every state: the tries are at most 5, and the timer runs unless the address is one of the
-- bus.
pub record IsWatched (s : Master) : Type 0 where
  pub few : s.tries ≤ 5
  pub known : (s.timed ≡ true) ⊎ ((a : ℕ) × (s.address ≡ pos a) × (a ≤ 128))

not_lost : (x : ℤ) → is_lost x ≡ false → (a : ℕ) × (x ≡ pos a) × (a ≤ 128)
not_lost (pos a) h = (a, refl, ground arith)
not_lost (negsuc a) h = absurd (ground arith)

four_or_five : (n : ℕ) → n ≤ 5 → (n ≤ 4) ⊎ (n ≡ 5)
four_or_five n h = elim (Bool-cases (n == 5)) [
  | inl e ↦ inr ((==_iff n 5).0 e)
  | inr e ↦ inl (ground arith)
]

module _ (read_byte write_quick : ℕ → ℤ) where
  -- The greatest address that answers is unique.
  only :
      (a b : ℕ)
      → IsLast read_byte write_quick 0 128 a
      → IsLast read_byte write_quick 0 128 b
      → a ≡ b
  only a b h k = elim (Bool-cases (ltb a b)) [
    | inl less ↦
        absurd (true≢false (sym (h.last b (omega (arith, ltb→lt a b less)) k.high) ∙ k.answers))
    | inr more ↦ elim (Bool-cases (ltb b a)) [
      | inl less ↦
          absurd (true≢false (sym (k.last a (omega (arith, ltb→lt b a less)) h.high) ∙ h.answers))
      | inr same ↦ ground arith
    ]
  ]

  -- The sixth try is left out.
  pub timer_handler_skips :
      (s : Master)
      → s.tries ≡ 5
      → timer_handler read_byte write_quick s ≡ record s { tries = 0; address = pos 200 }
  unfolding timer_handler scan_address
  timer_handler_skips s h = rw h refl

  timer-IsWatched :
      (s : Master)
      → s.timed ≡ true
      → IsWatched s
      → IsWatched (timer_handler read_byte write_quick s)
  timer-IsWatched s on h = elim (four_or_five s.tries h.few) [
    | inl few ↦ elim (timer_handler_scans read_byte write_quick s few) [
      | inl (silent, e) ↦ rw e (record { few = omega arith; known = inl on })
      | inr (a, last, e) ↦
          rw e (record { few = omega arith; known = inr (a, refl, omega (arith, last.high)) })
    ]
    | inr five ↦ rw (timer_handler_skips s five) (record { few = omega arith; known = inl on })
  ]

  timer_handler_hears :
      (s : Master) (a : ℕ)
      → s.tries ≤ 4
      → 0 < a
      → IsLast read_byte write_quick 0 128 a
      → let t = timer_handler read_byte write_quick s in (t.address ≡ pos a) × (t.timed ≡ false)
  timer_handler_hears s a few p last = elim (timer_handler_scans read_byte write_quick s few) [
    | inl (silent, e) ↦ absurd (true≢false (sym (silent a (omega arith) last.high) ∙ last.answers))
    | inr (b, other, e) ↦
        let same : b ≡ a = only b a other last in rw (e, same) (refl, ground arith)
  ]

  -- In a state with at most 5 tries, if the address `a` above 0 is the greatest that answers, then after one
  -- of the next two firings of the timer the address is `a`, and the timer has stopped.
  timer_handler_finds :
      (s : Master) (a : ℕ)
      → s.tries ≤ 5
      → 0 < a
      → IsLast read_byte write_quick 0 128 a
      → let t = timer_handler read_byte write_quick s in
        let u = timer_handler read_byte write_quick t in
        ((t.address ≡ pos a) × (t.timed ≡ false)) ⊎ ((u.address ≡ pos a) × (u.timed ≡ false))
  timer_handler_finds s a few p last = elim (four_or_five s.tries few) [
    | inl less ↦ inl (timer_handler_hears s a less p last)
    | inr five ↦ inr (
        timer_handler_hears (timer_handler read_byte write_quick s) a
          (rw (timer_handler_skips s five) (omega arith)) p last)
  ]

first_read-IsWatched : (ok : Bool) (s : Master) → IsWatched s → IsWatched (first_read ok s)
unfolding first_read
first_read-IsWatched false s h = record { few = h.few; known = inl refl }
first_read-IsWatched true s h = elim (Bool-cases (is_lost s.address)) [
  | inl lost ↦ record { few = h.few; known = inl lost }
  | inr there ↦ record { few = h.few; known = inr (not_lost s.address there) }
]

next_read-IsWatched : (ok : Bool) (s : Master) → IsWatched s → IsWatched (next_read ok s)
unfolding next_read
next_read-IsWatched false s h = record { few = h.few; known = h.known }
next_read-IsWatched true s h = h

timeout-IsWatched :
    (ac1 opened : ℤ) (s : Master) → IsWatched s → IsWatched (poll_timeout ac1 opened s)
unfolding poll_timeout send_request_to_node
timeout-IsWatched ac1 opened s h = elim (Bool-cases (is_neg ac1)) [
  | inl e ↦ rw e (record { few = h.few; known = h.known })
  | inr e ↦ rw e (record { few = h.few; known = h.known })
]

Step-IsWatched : {s t : Daemon} → Step s t → IsWatched s.master → IsWatched t.master
Step-IsWatched {s} (fires read_byte write_quick on) h =
    timer-IsWatched read_byte write_quick s.master on h
Step-IsWatched (created w l) h = h
Step-IsWatched (not_created w l) h = h
Step-IsWatched {s} (timeout ac1 opened p) h = timeout-IsWatched ac1 opened s.master h
Step-IsWatched {s} (reads ok p) h = first_read-IsWatched ok s.master h
Step-IsWatched {s} (reads_on ok p on) h = next_read-IsWatched ok s.master h
Step-IsWatched (leaves p off) h = h

-- In every state that the daemon reaches, whatever the interleaving and the answers of the bus: `var` is at
-- most 5, and if the timer has stopped, then the address is one from 0 to 128.
pub Run-IsWatched : (opened : ℤ) {d : Daemon} → Run (daemon_start opened) d → IsWatched d.master
Run-IsWatched opened here = record { few = omega arith; known = inl refl }
Run-IsWatched opened (then_step r st) = Step-IsWatched st (Run-IsWatched opened r)

-- In every state that the daemon reaches: if the address `a` above 0 is the greatest that answers at the
-- next two firings of the timer, then after one of the two the address is `a` and the timer has stopped.
pub Run-finds :
    (opened : ℤ) {d : Daemon} (read_byte write_quick : ℕ → ℤ) (a : ℕ)
    → Run (daemon_start opened) d
    → 0 < a
    → IsLast read_byte write_quick 0 128 a
    → let t = timer_handler read_byte write_quick d.master in
      let u = timer_handler read_byte write_quick t in
      ((t.address ≡ pos a) × (t.timed ≡ false)) ⊎ ((u.address ≡ pos a) × (u.timed ≡ false))
Run-finds opened {d} read_byte write_quick a r p last =
    timer_handler_finds read_byte write_quick d.master a (Run-IsWatched opened r).few p last
