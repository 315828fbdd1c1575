-- ===== src/SpiClient/Cycle.antt =====
-- The order of the requests: the key once, then the data three times, over and over.
use embeded_linux_gateway.Prelude.{
  ℕ, zero, suc, ◌+◌, ◌%◌, ◌≡◌, refl, sym, ◌∙◌, ap, List, [], ◌∷◌, ℤ, ◌==◌, if◌then◌else◌, arith,
  Bool-cases, inl, inr, some, none≢some, some-injective,
}
use mathlib.Core.Path.{subst}
use embeded_linux_gateway.Start.{in_loop, looping, is_zero}
use embeded_linux_gateway.SpiClient.{
  Client, Writer, selected, writing, request_key, request_data, first_state, main_start, set_up_spi,
  Step, Run, poll_timeout, read_begins, read_ends, mutex_init, timeout, write_begins, write_ends,
  deselects, here, then_step,
}

-- The request number `k`, from 0, and the first `n` requests, the latest first.
abbrev nth_request : ℕ → List ℕ
nth_request k = if k % 4 == 0 then request_key else request_data

unfoldable pub order : ℕ → List (List ℕ)
order zero = []
order (suc k) = nth_request k ∷ order k

-- The requests that are chosen and not written.
abbrev pending : Writer → ℕ
pending selected = 1
pending writing = 1
pending _ = 0

-- What holds after `n` requests are written.
record IsOrdered (n : ℕ) (s : Client) : Type 0 where
  turn : s.count ≡ (3 + n + pending s.writer) % 4
  past : s.wrote ≡ order n
  next : pending s.writer ≡ 1 → s.msg ≡ nth_request n

at_timeout : (c n : ℕ) → c ≡ (3 + n + 0) % 4 → ((c + 1) % 4 == 0) ≡ (n % 4 == 0)
at_timeout c n e = ground arith

Step-IsOrdered : {s t : Client} (n : ℕ) → IsOrdered n s → Step s t → (k : ℕ) × IsOrdered k t
unfolding poll_timeout order
Step-IsOrdered n h (read_begins e f) = (n, record { turn = h.turn; past = h.past; next = h.next })
Step-IsOrdered n h (read_ends k e) = (n, record { turn = h.turn; past = h.past; next = h.next })
Step-IsOrdered n h (mutex_init e) = (
  n,
  record {
    turn = h.turn ∙ ap (λ w. (3 + n + pending w) % 4) e;
    past = h.past;
    next = λ p. absurd (omega arith);
  },
)
Step-IsOrdered {s} n h (timeout e) =
    let before : s.count ≡ (3 + n + 0) % 4 = h.turn ∙ ap (λ w. (3 + n + pending w) % 4) e in
    (
      n,
      record {
        turn = rw before (omega arith);
        past = h.past;
        next = λ p. rw (at_timeout s.count n before) refl;
      },
    )
Step-IsOrdered {s} n h (write_begins e f) = (
  n,
  record {
    turn = h.turn ∙ ap (λ w. (3 + n + pending w) % 4) e;
    past = h.past;
    next = λ p. h.next (ap pending e);
  },
)
Step-IsOrdered {s} n h (write_ends k e) =
    let after : s.count ≡ (3 + n + 1) % 4 = h.turn ∙ ap (λ w. (3 + n + pending w) % 4) e in
    let same : s.msg ≡ nth_request n = h.next (ap pending e) in
    (
      suc n,
      record {
        turn = after ∙ ap (λ m. m % 4) (omega arith);
        past = rw (same, h.past) refl;
        next = λ p. absurd (omega arith);
      },
    )
Step-IsOrdered {s} n h (deselects e) = (
  n,
  record {
    turn = h.turn ∙ ap (λ w. (3 + n + pending w) % 4) e;
    past = h.past;
    next = λ p. absurd (omega arith);
  },
)

IsOrdered-first : (opened : ℤ) → IsOrdered 0 (first_state opened)
unfolding order set_up_spi
IsOrdered-first opened = record { turn = refl; past = refl; next = λ p. absurd (omega arith) }

IsOrdered-start :
    (opened created : ℤ) (s : Client) → in_loop (main_start opened created) ≡ some s → IsOrdered 0 s
unfolding main_start order
IsOrdered-start opened created s h = elim (Bool-cases (is_zero created)) [
  | inl ok ↦
      let same : first_state opened ≡ s = some-injective (sym (rw ok refl) ∙ h) in
      subst (λ t. IsOrdered 0 t) same (IsOrdered-first opened)
  | inr bad ↦ absurd (none≢some (sym (rw bad refl) ∙ h))
]

Run-IsOrdered : {s t : Client} → IsOrdered 0 s → Run s t → (n : ℕ) × IsOrdered n t
Run-IsOrdered h here = (0, h)
Run-IsOrdered h (then_step r st) = let (n, k) = Run-IsOrdered h r in Step-IsOrdered n k st

-- Whatever the order of the steps from the start of `main` on, what was handed to `write` is an initial
-- part of the sequence of requests: the key, then the data three times, over and over.
pub Run-order :
    (opened created : ℤ) {s t : Client}
    → main_start opened created ≡ looping s
    → Run s t
    → (n : ℕ) × (t.wrote ≡ order n)
Run-order opened created {s} start r =
    let (n, h) = Run-IsOrdered (IsOrdered-start opened created s (ap in_loop start)) r in
    (n, h.past)
