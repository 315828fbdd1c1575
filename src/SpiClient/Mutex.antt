-- ===== src/SpiClient/Mutex.antt =====
-- The mutex: it keeps `read` and `write` apart, unless it is created while the thread reads.
use embeded_linux_gateway.Prelude.{
  ℕ, ℤ, ◌≡◌, refl, sym, ◌∙◌, ap, Bool, true, false, ◌&&◌, ◌||◌, some, some-injective, none≢some,
  Bool-cases, inl, inr,
}
use embeded_linux_gateway.Start.{looping, in_loop, is_zero}
use mathlib.Core.Bool.{true≢false}
use embeded_linux_gateway.SpiClient.{
  Client, Reader, resting, reading, Writer, creating, polling, writing, Step, Run, poll_timeout,
  first_state, main_start, set_up_spi, read_begins, read_ends, mutex_init, timeout, write_begins,
  write_ends, deselects, here, then_step,
}

abbrev pub is_reading : Reader → Bool
is_reading resting = false
is_reading reading = true

abbrev pub is_writing : Writer → Bool
is_writing writing = true
is_writing _ = false

-- The mutex exists.
abbrev pub is_created : Writer → Bool
is_created creating = false
is_created _ = true

-- The level of the select pin.
abbrev pub level_of : Writer → ℕ
level_of creating = 1
level_of polling = 1
level_of _ = 0

-- At most one side is inside, and the mutex is held exactly then; the node is selected exactly around the
-- write.
pub record IsExclusive (s : Client) : Type 0 where
  pub ready : is_created s.writer ≡ true
  pub apart : (is_reading s.reader && is_writing s.writer) ≡ false
  pub owned : s.held ≡ (is_reading s.reader || is_writing s.writer)
  pub pin : s.level ≡ level_of s.writer

free : (b c : Bool) → (b || c) ≡ false → (b ≡ false) × (c ≡ false)
free false false h = (refl, refl)
free true c h = absurd (true≢false h)
free false true h = absurd (true≢false h)

alone : (b c : Bool) → (b && c) ≡ false → b ≡ true → c ≡ false
alone true false h e = refl
alone true true h e = absurd (true≢false h)
alone false c h e = absurd (true≢false (sym e))

alone_right : (b c : Bool) → (b && c) ≡ false → c ≡ true → b ≡ false
alone_right true true h e = absurd (true≢false h)
alone_right true false h e = absurd (true≢false (sym e))
alone_right false c h e = refl

Step-IsExclusive : {s t : Client} → IsExclusive s → Step s t → IsExclusive t
unfolding poll_timeout
Step-IsExclusive {s} h (read_begins e f) = record {
  ready = h.ready;
  apart = (free (is_reading s.reader) (is_writing s.writer) (sym h.owned ∙ f)).1;
  owned = refl;
  pin = h.pin;
}
Step-IsExclusive {s} h (read_ends n e) = record {
  ready = h.ready;
  apart = refl;
  owned = sym (alone (is_reading s.reader) (is_writing s.writer) h.apart (ap is_reading e));
  pin = h.pin;
}
Step-IsExclusive {s} h (mutex_init e) = absurd (true≢false (sym h.ready ∙ ap is_created e))
Step-IsExclusive {s} h (timeout e) = record {
  ready = refl;
  apart = sym (ap (λ w. is_reading s.reader && is_writing w) e) ∙ h.apart;
  owned = h.owned ∙ ap (λ w. is_reading s.reader || is_writing w) e;
  pin = refl;
}
Step-IsExclusive {s} h (write_begins e f) =
    let resting_ : is_reading s.reader ≡ false =
      (free (is_reading s.reader) (is_writing s.writer) (sym h.owned ∙ f)).0 in
    record {
      ready = refl;
      apart = rw resting_ refl;
      owned = rw resting_ refl;
      pin = h.pin ∙ ap level_of e;
    }
Step-IsExclusive {s} h (write_ends k e) =
    let resting_ : is_reading s.reader ≡ false =
      alone_right (is_reading s.reader) (is_writing s.writer) h.apart (ap is_writing e) in
    record {
      ready = refl;
      apart = rw resting_ refl;
      owned = rw resting_ refl;
      pin = h.pin ∙ ap level_of e;
    }
Step-IsExclusive {s} h (deselects e) = record {
  ready = refl;
  apart = sym (ap (λ w. is_reading s.reader && is_writing w) e) ∙ h.apart;
  owned = h.owned ∙ ap (λ w. is_reading s.reader || is_writing w) e;
  pin = refl;
}

kept : {s t : Client} → IsExclusive s → Run s t → IsExclusive t
kept h here = h
kept h (then_step r st) = Step-IsExclusive (kept h r) st

-- Until the mutex is created the node is not selected.
IsUnselected : Client → Type 0
IsUnselected s = s.writer ≡ creating → s.level ≡ 1

Step-IsUnselected : {s t : Client} → IsUnselected s → Step s t → IsUnselected t
unfolding poll_timeout IsUnselected
Step-IsUnselected h (read_begins e f) w = h w
Step-IsUnselected h (read_ends n e) w = h w
Step-IsUnselected h (mutex_init e) w = absurd (true≢false (ap is_created w))
Step-IsUnselected h (timeout e) w = absurd (true≢false (ap is_created w))
Step-IsUnselected h (write_begins e f) w = absurd (true≢false (ap is_created w))
Step-IsUnselected h (write_ends k e) w = absurd (true≢false (ap is_created w))
Step-IsUnselected h (deselects e) w = refl

Run-IsUnselected : {s t : Client} → IsUnselected s → Run s t → IsUnselected t
Run-IsUnselected h here = h
Run-IsUnselected h (then_step r st) = Step-IsUnselected (Run-IsUnselected h r) st

main_start-IsUnselected :
    (opened created : ℤ) (s : Client)
    → in_loop (main_start opened created) ≡ some s
    → IsUnselected s
unfolding main_start IsUnselected set_up_spi
main_start-IsUnselected opened created s start w = elim (Bool-cases (is_zero created)) [
  | inl ok ↦
      let same : first_state opened ≡ s = some-injective (sym (rw ok refl) ∙ start) in
      ap (λ (r : Client). r.level) (sym same)
  | inr bad ↦ absurd (none≢some (sym (rw bad refl) ∙ start))
]

-- If `main` comes to its loop, and then creates the mutex after any steps of the thread, at a time when the thread is
-- not inside of `read`, then ever after the thread and `main` are never both inside of `read` and `write`, the mutex
-- is held exactly when one of them is, and the node is selected exactly from before the mutex is taken until after it
-- is given back.
pub Run-IsExclusive :
    (opened created : ℤ) {s t u : Client}
    → main_start opened created ≡ looping s
    → Run s t
    → t.writer ≡ creating
    → t.reader ≡ resting
    → Run (record t { writer = polling; held = false }) u
    → IsExclusive u
unfolding IsUnselected
Run-IsExclusive opened created {s} {t} start before w free_ after =
    let idle : is_reading t.reader ≡ false = ap is_reading free_ in
    kept
      (record {
        ready = refl;
        apart = rw idle refl;
        owned = rw idle refl;
        pin =
            Run-IsUnselected (main_start-IsUnselected opened created s (ap in_loop start)) before w;
      })
      after

-- If the thread is inside of `read` when `main` creates the mutex, then `main` can come to `write` while
-- the thread still reads.
pub mutex_init_late :
    (s : Client)
    → s.writer ≡ creating
    → s.reader ≡ reading
    → (t : Client) × Run s t × (t.reader ≡ reading) × (t.writer ≡ writing)
unfolding poll_timeout
mutex_init_late s e f =
    let t1 = record s { writer = polling; held = false } in
    let t2 = poll_timeout t1 in
    (
      record t2 { writer = writing; held = true },
      then_step (then_step (then_step here (mutex_init e)) (timeout refl)) (write_begins refl refl),
      f,
      refl,
    )
