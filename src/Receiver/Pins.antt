-- ===== src/Receiver/Pins.antt =====
-- The multiplexer's pins over the passes of the receiver's loop.
use embeded_linux_gateway.Prelude.{
  ℕ, zero, suc, ◌+◌, ◌%◌, ◌<◌, ◌≡◌, refl, sym, true, false, some, List, ◌∷◌, ◌++◌, ℤ, arith, ◌==◌,
  if◌then◌else◌, Bool-cases, ap, ◌∙◌, ◌⊎◌, inl, inr,
}
use mathlib.Core.Path.{subst}
use mathlib.Core.Bool.{true≢false}
use embeded_linux_gateway.Lora.Bus.{Bus}
use embeded_linux_gateway.Receiver.{
  Receiver, RfEvent, LoraEvent, alarm, alarm_lora, gpio_a, gpio_b, gpio_c, gpio_26, set_pin,
  set_channel, start_lora, end_lora, tune, leave_rf, leave_lora, is_rf, is_lora, pass,
}
use embeded_linux_gateway.Receiver.Passes.{advance, pass-rf, pass-lora, pass-empty, pass_rule}
use embeded_linux_gateway.Receiver.Listening.{rf_listen-Published, rf_listen-ends}
use embeded_linux_gateway.Receiver.Relaying.{lora_listen-Relayed, lora_listen-ends}

-- The levels on the channel pins A, B and C, and on pin 26, that a slot is meant to have. Slot 0 is
-- empty.
abbrev pub wiring : ℕ → ℕ × ℕ × ℕ × ℕ
wiring k =
    if k == 1
    then (1, 1, 1, 1)
    else if k == 2
    then (1, 0, 0, 0)
    else if k == 3
    then (1, 1, 0, 1)
    else if k == 4
    then (0, 1, 0, 0)
    else if k == 5
    then (1, 0, 1, 1)
    else (0, 0, 0, 0)

pub by_slot {ℓ} : (P : ℕ → Type ℓ) (n : ℕ) → n < 6 → P 0 → P 1 → P 2 → P 3 → P 4 → P 5 → P n
by_slot P zero h a b c d e f = a
by_slot P (suc zero) h a b c d e f = b
by_slot P (suc (suc zero)) h a b c d e f = c
by_slot P (suc (suc (suc zero))) h a b c d e f = d
by_slot P (suc (suc (suc (suc zero)))) h a b c d e f = e
by_slot P (suc (suc (suc (suc (suc zero))))) h a b c d e f = f
by_slot P (suc (suc (suc (suc (suc (suc n)))))) h a b c d e f = absurd (omega arith)

-- The slots before 3 and 5 are LoRa slots.
before_shared :
    (k : ℕ) → k < 6 → ((k + 1) % 6 ≡ 3) ⊎ ((k + 1) % 6 ≡ 5) → (is_rf k ≡ false) × (is_lora k ≡ true)
before_shared k h e = ground arith

module _ (bus : Bus) (parse : List ℕ → ℤ) where
  abbrev State : Type 0
  State = Receiver bus parse

  abbrev pub levels : State → ℕ × ℕ × ℕ × ℕ
  levels s = (s.pins gpio_a, s.pins gpio_b, s.pins gpio_c, s.pins gpio_26)

  -- What holds where the loop begins: the slots 3 and 5, which leave pin 26 alone, find it at 1.
  pub record IsReady (s : State) : Type 0 where
    pub slot : s.select < 6
    pub pin : (s.select ≡ 3) ⊎ (s.select ≡ 5) → s.pins gpio_26 ≡ 1

  tune-select : (s : State) → s.select < 6 → (tune bus parse s).select ≡ s.select
  unfolding tune set_pin set_channel start_lora
  tune-select s h =
      by_slot (λ k. s.select ≡ k → (tune bus parse s).select ≡ s.select) s.select h (λ e. rw e refl)
        (λ e. rw e refl) (λ e. rw e refl) (λ e. rw e refl) (λ e. rw e refl) (λ e. rw e refl) refl

  -- Where the loop's invariant holds, each slot but the empty one listens with its own wiring.
  pub tune-wiring :
      (s : State) → IsReady s → 0 < s.select → levels (tune bus parse s) ≡ wiring s.select
  unfolding tune set_pin set_channel start_lora
  tune-wiring s h p =
      by_slot (λ k. s.select ≡ k → levels (tune bus parse s) ≡ wiring k) s.select h.slot
        (λ e. absurd (omega arith)) (λ e. rw e refl) (λ e. rw e refl)
        (λ e. rw (e, h.pin (inl e)) refl) (λ e. rw e refl) (λ e. rw (e, h.pin (inr e)) refl) refl

  -- What a pass of the loop leaves, by the kind of its slot.
  Passed : State → State → Type 0
  Passed s t =
      (t.select ≡ (s.select + 1) % 6)
      × (is_rf s.select ≡ true → t.pins gpio_26 ≡ 0)
      × (is_rf s.select ≡ false → is_lora s.select ≡ true → t.pins gpio_26 ≡ 1)

  left_rf :
      (s u : State)
      → is_rf s.select ≡ true
      → u.select ≡ s.select
      → Passed s (advance bus parse (leave_rf bus parse u))
  unfolding leave_rf set_pin Passed
  left_rf s u rf h = (ap (λ k. (k + 1) % 6) h, λ _. refl, λ q. absurd (true≢false (sym rf ∙ q)))

  left_lora :
      (s u : State)
      → is_rf s.select ≡ false
      → u.select ≡ s.select
      → Passed s (advance bus parse (leave_lora bus parse u))
  unfolding leave_lora set_pin end_lora Passed
  left_lora s u rf h = (ap (λ k. (k + 1) % 6) h, λ q. absurd (true≢false (sym q ∙ rf)), λ _ _. refl)

  left_empty :
      (s : State)
      → is_rf s.select ≡ false
      → is_lora s.select ≡ false
      → Passed s (advance bus parse s)
  unfolding Passed
  left_empty s rf lora =
      (refl, λ q. absurd (true≢false (sym q ∙ rf)), λ _ q. absurd (true≢false (sym q ∙ lora)))

  pass-Passed :
      (es : List RfEvent) (fs : List LoraEvent) (s t : State)
      → s.select < 6
      → pass bus parse es fs s ≡ some t
      → Passed s t
  pass-Passed es fs s t h k =
      pass_rule bus parse (Passed s) es fs s t k
        (λ rf u e.
          left_rf s u rf (
            (rf_listen-Published bus parse es (tune bus parse s) u e).select_kept
            ∙ tune-select s h))
        (λ rf lora u e.
          left_lora s u rf (
            (lora_listen-Relayed bus parse fs (tune bus parse s) u e).select_kept
            ∙ tune-select s h))
        (λ rf lora. left_empty s rf lora)

  -- A pass that ends, from a state with the loop's invariant, keeps it and goes on to the next slot,
  -- cyclically.
  pub pass-IsReady :
      (es : List RfEvent) (fs : List LoraEvent) (s t : State)
      → IsReady s
      → pass bus parse es fs s ≡ some t
      → (IsReady t) × (t.select ≡ (s.select + 1) % 6)
  unfolding Passed
  pass-IsReady es fs s t h k =
      let (next, rf, lora) = pass-Passed es fs s t h.slot k in
      (
        record {
          slot = omega arith;
          pin = λ q.
              let r = before_shared s.select h.slot (subst (λ k. (k ≡ 3) ⊎ (k ≡ 5)) next q) in
              lora r.0 r.1;
        },
        next,
      )

  -- If in either kind of slot the timer fires while no packet is handled, the pass ends, whatever comes
  -- before and after.
  pub pass-ends :
      (es es' : List RfEvent) (fs fs' : List LoraEvent) (s : State)
      → (t : State) × (pass bus parse (es ++ alarm ∷ es') (fs ++ alarm_lora ∷ fs') s ≡ some t)
  pass-ends es es' fs fs' s =
      let (t, e) = rf_listen-ends bus parse es es' (tune bus parse s) in
      let (u, f) = lora_listen-ends bus parse fs fs' (tune bus parse s) in
      elim (Bool-cases (is_rf s.select)) [
        | inl rf ↦ (
          advance bus parse (leave_rf bus parse t),
          rw (pass-rf bus parse (es ++ alarm ∷ es') (fs ++ alarm_lora ∷ fs') s rf, e) refl,
        )
        | inr rf ↦ elim (Bool-cases (is_lora s.select)) [
          | inl lora ↦ (
            advance bus parse (leave_lora bus parse u),
            rw (pass-lora bus parse (es ++ alarm ∷ es') (fs ++ alarm_lora ∷ fs') s rf lora, f) refl,
          )
          | inr lora ↦ (
            advance bus parse s,
            pass-empty bus parse (es ++ alarm ∷ es') (fs ++ alarm_lora ∷ fs') s rf lora,
          )
        ]
      ]

  -- The states in which a pass begins, from `s` on.
  pub data Reachable (s : State) : State → Type 0 where
    boot : Reachable s s
    further :
        {t u : State} (es : List RfEvent) (fs : List LoraEvent)
        → Reachable s t
        → pass bus parse es fs t ≡ some u
        → Reachable s u

  Reachable-IsReady : {s t : State} → IsReady s → Reachable s t → IsReady t
  Reachable-IsReady h boot = h
  Reachable-IsReady h (further {t} {u} es fs r e) =
      (pass-IsReady es fs t u (Reachable-IsReady h r) e).0

  -- In every state in which a pass begins, from a start at slot 0 and whatever the events were, the slot
  -- is one of the six, and each of them but the empty one listens with its own levels on the channel
  -- pins and on pin 26.
  pub Reachable-wiring :
      {s t : State}
      → s.select ≡ 0
      → Reachable s t
      → (t.select < 6) × (0 < t.select → levels (tune bus parse t) ≡ wiring t.select)
  Reachable-wiring {s} {t} h r =
      let first : IsReady s = record { slot = omega arith; pin = λ q. absurd (ground arith) } in
      let ready = Reachable-IsReady first r in (ready.slot, λ p. tune-wiring t ready p)
