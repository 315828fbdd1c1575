-- ===== src/Receiver/Start.antt =====
-- `main` of lora_rf24_receive.cpp up to its loop.
use embeded_linux_gateway.Prelude.{
  ℕ, Bool, true, false, List, [], ℤ, pos, negsuc, is_neg, if◌then◌else◌, replicate, not, ◌≡◌, refl,
  sym, ap, ◌∙◌, none≢some, some-injective, inl, inr, Bool-cases,
}
use embeded_linux_gateway.Lora.Bus.{Bus, PinMode}
use embeded_linux_gateway.Start.{Start, exited, returned, looping, in_loop}
use embeded_linux_gateway.Receiver.{Receiver, gpio_a, gpio_b, gpio_c, gpio_26, gateway_modem}

module _ (bus : Bus) where
  open bus use {World, gpio_set_mode}

  -- The four pins of the multiplexer are outputs.
  unfoldable pub set_outputs : World → World
  set_outputs w = gpio_set_mode gpio_26 PinMode.pi_output (
      gpio_set_mode gpio_c PinMode.pi_output
        (gpio_set_mode gpio_b PinMode.pi_output (gpio_set_mode gpio_a PinMode.pi_output w)))

module _ (bus : Bus) (parse : List ℕ → ℤ) where
  open bus use {World, gpio_initialise}

  -- The state in which the loop begins; `levels` are the pins' levels before it.
  abbrev pub first_state : (ℕ → ℕ) → World → Receiver bus parse
  first_state levels w = record {
    select = 0;
    count = 0;
    count_lora = 0;
    sockfd = pos 0;
    bytes = replicate 304 0;
    modem = gateway_modem;
    published = [];
    sent = [];
    pins = levels;
    world = w;
  }

  -- `connected` is whether `MQTTClient_connect` succeeds.
  unfoldable pub main_start : Bool → (ℕ → ℕ) → World → Start (Receiver bus parse)
  main_start connected levels w =
      let (ret, w1) = gpio_initialise w in
      if not connected
      then exited 1
      else if is_neg ret
      then returned (negsuc 0)
      else looping (first_state levels (set_outputs bus w1))

  -- If the loop is reached, then the connection and pigpio are there, and it begins in slot 0 with the
  -- gateway's configuration.
  pub main_start_lem :
      (connected : Bool) (levels : ℕ → ℕ) (w : World) (s : Receiver bus parse)
      → main_start connected levels w ≡ looping s
      → (connected ≡ true)
        × (is_neg (gpio_initialise w).0 ≡ false)
        × (s.select ≡ 0)
        × (s.modem ≡ gateway_modem)
  unfolding main_start
  main_start_lem false levels w s h = absurd (none≢some (ap in_loop h))
  main_start_lem true levels w s h = elim (Bool-cases (is_neg (gpio_initialise w).0)) [
    | inl neg ↦ absurd (none≢some (sym (rw neg refl) ∙ ap in_loop h))
    | inr ok ↦
        let same : first_state levels (set_outputs bus (gpio_initialise w).1) ≡ s =
          some-injective (sym (rw ok refl) ∙ ap in_loop h) in
        (
          refl,
          ok,
          ap (λ (r : Receiver bus parse). r.select) (sym same),
          ap (λ (r : Receiver bus parse). r.modem) (sym same),
        )
  ]
