-- ===== src/Receiver/Slots.antt =====
-- The LoRa slots of the receiver with the driver behind them.
use embeded_linux_gateway.Prelude.{
  ℕ, ◌<◌, ◌≡◌, refl, sym, ◌∙◌, ap, Bool, true, false, some, List, ℤ, is_neg, arith, ◌==◌,
  if◌then◌else◌, inl, inr, Bool-cases, ◌⊎◌,
}
use mathlib.Core.Path.{subst}
use embeded_linux_gateway.Lora.Regs.{LoraCtl, ModemCfg}
use embeded_linux_gateway.Lora.Bus.{Bus, Chip}
use embeded_linux_gateway.Lora.Setup.{lora_reset}
use embeded_linux_gateway.Lora.Packet.{
  lora_calculate_packet_t, lora_calculate_packet_t-eth, is_slow, is_slow_gateway,
}
use embeded_linux_gateway.Lora.Radio.{lora_begin}
use embeded_linux_gateway.Lora.Radio.Session.{
  IsReceiving, session_lem, lora_begin-eth, lora_receive-eth, lora_end-eth,
}
use embeded_linux_gateway.Receiver.{
  Receiver, RfEvent, LoraEvent, gpio_26, gateway_eth, set_pin, set_channel, start_lora, end_lora,
  tune, leave_rf, leave_lora, is_lora, pass,
}
use embeded_linux_gateway.Start.{looping}
use embeded_linux_gateway.Receiver.Start.{main_start, main_start_lem}
use embeded_linux_gateway.Receiver.Listening.{rf_listen-Published}
use embeded_linux_gateway.Receiver.Relaying.{lora_listen-Relayed}
use embeded_linux_gateway.Receiver.Passes.{advance, pass_rule}
use embeded_linux_gateway.Receiver.Pins.{by_slot, Reachable, boot, further, Reachable-wiring}

-- The slots of the LoRa modems.
lora_slots : (k : ℕ) → is_lora k ≡ true → (k ≡ 2) ⊎ (k ≡ 4)
lora_slots k h = ground arith

-- The configuration stays as it is filled in: a symbol is short, so the calculation finds the same flag.
steady : (m : LoraCtl) → m.eth ≡ gateway_eth → (lora_calculate_packet_t m).eth ≡ gateway_eth
steady m e =
    lora_calculate_packet_t-eth m
    ∙ ap (λ (g : ModemCfg). record g { low_data_rate_optimize = is_slow g.bw g.sf }) e
    ∙ ap (λ b. record gateway_eth { low_data_rate_optimize = b }) is_slow_gateway

module _ (bus : Bus) (parse : List ℕ → ℤ) where
  abbrev State : Type 0
  State = Receiver bus parse

  -- The state in which a LoRa slot calls `LoRa_begin`.
  abbrev pub lora_ready : State → State
  lora_ready s =
      set_pin bus parse gpio_26 0
        (if s.select == 2 then set_channel bus parse 1 0 0 s else set_channel bus parse 0 1 0 s)

  abbrev IsGateway : State → Type 0
  IsGateway s = s.modem.eth ≡ gateway_eth

  start_lora-IsGateway : (s : State) → IsGateway s → IsGateway (start_lora bus parse s)
  unfolding start_lora
  start_lora-IsGateway s e =
      let (ret, m, w) = lora_begin bus s.modem s.world in
      lora_receive-eth bus m w ∙ steady m (lora_begin-eth bus s.modem s.world ∙ e)

  ready-IsGateway : (s : State) → IsGateway s → IsGateway (lora_ready s)
  unfolding set_pin set_channel
  ready-IsGateway s e = elim (Bool-cases (s.select == 2)) [ inl f ↦ rw f e | inr f ↦ rw f e ]

  tune-lora :
      (s : State) → is_lora s.select ≡ true → tune bus parse s ≡ start_lora bus parse (lora_ready s)
  unfolding tune
  tune-lora s h = elim (lora_slots s.select h) [ inl e ↦ rw e refl | inr e ↦ rw e refl ]

  tune-IsGateway : (s : State) → s.select < 6 → IsGateway s → IsGateway (tune bus parse s)
  unfolding tune set_pin set_channel
  tune-IsGateway s h g =
      by_slot (λ k. s.select ≡ k → IsGateway (tune bus parse s)) s.select h (λ e. rw e g)
        (λ e. rw e g)
        (λ e.
          rw (tune-lora s (rw e refl)) (start_lora-IsGateway (lora_ready s) (ready-IsGateway s g)))
        (λ e. rw e g)
        (λ e.
          rw (tune-lora s (rw e refl)) (start_lora-IsGateway (lora_ready s) (ready-IsGateway s g)))
        (λ e. rw e g) refl

  leave-IsGateway :
      (s : State)
      → IsGateway s
      → IsGateway (advance bus parse (leave_rf bus parse s))
        × IsGateway (advance bus parse (leave_lora bus parse s))
  unfolding leave_rf leave_lora end_lora set_pin
  leave-IsGateway s g = (g, lora_end-eth bus s.modem s.world ∙ g)

  pass-IsGateway :
      (es : List RfEvent) (fs : List LoraEvent) (s t : State)
      → s.select < 6
      → IsGateway s
      → pass bus parse es fs s ≡ some t
      → IsGateway t
  pass-IsGateway es fs s t h g k =
      pass_rule bus parse IsGateway es fs s t k
        (λ rf u e.
          (leave-IsGateway u (
            (rf_listen-Published bus parse es (tune bus parse s) u e).eth_kept
            ∙ tune-IsGateway s h g)).0)
        (λ rf lora u e.
          (leave-IsGateway u (
            (lora_listen-Relayed bus parse fs (tune bus parse s) u e).eth_kept
            ∙ tune-IsGateway s h g)).1)
        (λ rf lora. g)

  Reachable-IsGateway :
      {s t : State} → s.select ≡ 0 → IsGateway s → Reachable bus parse s t → IsGateway t
  Reachable-IsGateway z g boot = g
  Reachable-IsGateway z g (further {t} {u} es fs r e) =
      pass-IsGateway es fs t u (Reachable-wiring bus parse z r).0 (Reachable-IsGateway z g r) e

  ready-modem : (s : State) → (lora_ready s).modem ≡ s.modem
  unfolding set_pin set_channel
  ready-modem s = elim (Bool-cases (s.select == 2)) [ inl f ↦ rw f refl | inr f ↦ rw f refl ]

  start_lora-receives :
      (spid : ℤ) (chip : Chip bus spid) (s : State) (cs : ℕ)
      → IsGateway s
      → s.modem.spi_cs ≡ cs
      → is_neg (bus.gpio_initialise s.world).0 ≡ false
      → (bus.spi_open cs 32000 0 (lora_reset bus 4 (bus.gpio_initialise s.world).1)).0 ≡ spid
      → is_neg spid ≡ false
      → IsReceiving gateway_eth false (chip.reg (start_lora bus parse s).world)
  unfolding start_lora
  start_lora-receives spid chip s cs g same started opened valid =
      let (handle, receiving, there) =
        session_lem bus spid chip s.modem s.world started
          (subst
            (λ c.
              (bus.spi_open c 32000 0
                (lora_reset bus s.modem.eth.reset_gpio_n (bus.gpio_initialise s.world).1)).0
              ≡ spid)
            (sym same)
            (subst
              (λ (e : ModemCfg).
                (bus.spi_open cs 32000 0
                  (lora_reset bus e.reset_gpio_n (bus.gpio_initialise s.world).1)).0
                ≡ spid)
              (sym g) opened))
          valid (rw g (omega arith)) (rw g (omega arith)) (rw g (omega arith)) in
      subst (λ e. IsReceiving e false (chip.reg (start_lora bus parse s).world)) g
        (subst (λ b. IsReceiving s.modem.eth b (chip.reg (start_lora bus parse s).world))
          (ap (λ (e : ModemCfg). e.low_data_rate_optimize) (steady s.modem g)) receiving)

  -- In every state in which a pass begins, from any start of `main` that reaches its loop: if the slot is a LoRa slot,
  -- pigpio starts and the SPI device opens as `spid`, then the slot listens with a modem that receives LoRa
  -- packets continuously with the gateway's configuration.
  pub Reachable-receives :
      (connected : Bool) (levels : ℕ → ℕ) (w : bus.World) (spid : ℤ) (chip : Chip bus spid)
      {s t : State}
      → main_start bus parse connected levels w ≡ looping s
      → Reachable bus parse s t
      → is_lora t.select ≡ true
      → let w1 = (lora_ready t).world in
        let (ret, w2) = bus.gpio_initialise w1 in
        is_neg ret ≡ false
        → (bus.spi_open t.modem.spi_cs 32000 0 (lora_reset bus 4 w2)).0 ≡ spid
        → is_neg spid ≡ false
        → IsReceiving gateway_eth false (chip.reg (tune bus parse t).world)
  Reachable-receives connected levels w spid chip {s} {t} begun r lora started opened valid =
      let (there, alive, zeroth, first) = main_start_lem bus parse connected levels w s begun in
      let g = Reachable-IsGateway zeroth (ap (λ (m : LoraCtl). m.eth) first) r in
      subst (λ u. IsReceiving gateway_eth false (chip.reg u.world)) (sym (tune-lora t lora))
        (start_lora-receives spid chip (lora_ready t) t.modem.spi_cs (ready-IsGateway t g)
          (ap (λ (m : LoraCtl). m.spi_cs) (ready-modem t)) started opened valid)
