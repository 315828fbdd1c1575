-- ===== src/Receiver/Passes.antt =====
-- A pass of the receiver's loop, by the kind of its slot.
use embeded_linux_gateway.Prelude.{
  ℕ, ◌+◌, ◌%◌, ◌≡◌, refl, sym, ◌∙◌, true, false, none, some, List, ℤ, inl, inr, Bool-cases,
  Option-cases, some-injective, none≢some,
}
use mathlib.Core.Path.{subst}
use embeded_linux_gateway.Lora.Bus.{Bus}
use embeded_linux_gateway.Receiver.{
  Receiver, RfEvent, LoraEvent, rf_listen, lora_listen, tune, leave_rf, leave_lora, is_rf, is_lora,
  pass,
}

module _ (bus : Bus) (parse : List ℕ → ℤ) where
  abbrev State : Type 0
  State = Receiver bus parse

  abbrev pub advance : State → State
  advance t = record t { select = (t.select + 1) % 6 }

  pub pass-rf :
      (es : List RfEvent) (fs : List LoraEvent) (s : State)
      → is_rf s.select ≡ true
      → pass bus parse es fs s ≡ elim (rf_listen bus parse es (tune bus parse s)) [
        | none ↦ none
        | some t ↦ some (advance (leave_rf bus parse t))
      ]
  unfolding pass
  pass-rf es fs s h = rw h refl

  pub pass-lora :
      (es : List RfEvent) (fs : List LoraEvent) (s : State)
      → is_rf s.select ≡ false
      → is_lora s.select ≡ true
      → pass bus parse es fs s ≡ elim (lora_listen bus parse fs (tune bus parse s)) [
        | none ↦ none
        | some t ↦ some (advance (leave_lora bus parse t))
      ]
  unfolding pass
  pass-lora es fs s h k = rw (h, k) refl

  pub pass-empty :
      (es : List RfEvent) (fs : List LoraEvent) (s : State)
      → is_rf s.select ≡ false
      → is_lora s.select ≡ false
      → pass bus parse es fs s ≡ some (advance s)
  unfolding pass
  pass-empty es fs s h k = rw (h, k) refl

  -- What holds after each kind of slot, if it ends, holds after a pass that ends.
  pub pass_rule :
      (P : State → Type 0) (es : List RfEvent) (fs : List LoraEvent) (s t : State)
      → pass bus parse es fs s ≡ some t
      → (is_rf s.select ≡ true
          → (u : State) → rf_listen bus parse es (tune bus parse s) ≡ some u
          → P (advance (leave_rf bus parse u)))
      → (is_rf s.select ≡ false
          → is_lora s.select ≡ true
          → (u : State) → lora_listen bus parse fs (tune bus parse s) ≡ some u
          → P (advance (leave_lora bus parse u)))
      → (is_rf s.select ≡ false → is_lora s.select ≡ false → P (advance s))
      → P t
  pass_rule P es fs s t k on_rf on_lora on_empty = elim (Bool-cases (is_rf s.select)) [
    | inl rf ↦ elim (Option-cases (rf_listen bus parse es (tune bus parse s))) [
      | inl stuck ↦ absurd (none≢some (sym (rw (pass-rf es fs s rf, stuck) refl) ∙ k))
      | inr (u, e) ↦
          subst P (some-injective (sym (rw (pass-rf es fs s rf, e) refl) ∙ k)) (on_rf rf u e)
    ]
    | inr rf ↦ elim (Bool-cases (is_lora s.select)) [
      | inl lora ↦ elim (Option-cases (lora_listen bus parse fs (tune bus parse s))) [
        | inl stuck ↦ absurd (none≢some (sym (rw (pass-lora es fs s rf lora, stuck) refl) ∙ k))
        | inr (u, e) ↦
            subst P (some-injective (sym (rw (pass-lora es fs s rf lora, e) refl) ∙ k))
              (on_lora rf lora u e)
      ]
      | inr lora ↦
          subst P (some-injective (sym (pass-empty es fs s rf lora) ∙ k)) (on_empty rf lora)
    ]
  ]
