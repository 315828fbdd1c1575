-- ===== src/Lora/Radio/Idle.antt =====
-- `txDoneISRf`, `LoRa_stop_receive` and `LoRa_sleep`: how the modem comes to rest.
use embeded_linux_gateway.Prelude.{
  ℕ, ◌+◌, ◌*◌, ◌/◌, ◌≡◌, refl, bit_and, false, arith, ◌==◌, if◌then◌else◌,
}
use embeded_linux_gateway.Lora.Regs.{LoraCtl}
use embeded_linux_gateway.Lora.Bus.{Bus, Chip, Callback}
use embeded_linux_gateway.Lora.Setup.{lora_reset_irq_flags, lora_set_satandby_mode}
use embeded_linux_gateway.Lora.Setup.Laws.{reg-set_satandby_mode, reg-set_sleep_mode}
use embeded_linux_gateway.Lora.Setup.Irq.{reg-reset_irq_flags}
use embeded_linux_gateway.Lora.Setup.Modes.{op_mode_value}
use embeded_linux_gateway.Lora.Spi.{lora_reg_read_byte}
use embeded_linux_gateway.Lora.Spi.Laws.{read_byte, reg-read}
use embeded_linux_gateway.Lora.Radio.{
  lora_remove_dio_isr, tx_done_isr_f, lora_stop_receive, lora_sleep,
}

-- The registers with the mode `mode` in the low bits of the mode register.
abbrev pub in_mode : ℕ → (ℕ → ℕ) → ℕ → ℕ
in_mode mode r q = if q == 1 then r 1 / 8 * 8 + mode else r q

module _ (bus : Bus) (m : LoraCtl) (chip : Chip bus m.spid) where
  open bus use {World, gettimeofday, pthread_create}
  open chip use {reg}

  reg-standby :
      (w : World) (q : ℕ) → reg (lora_set_satandby_mode bus m.spid w) q ≡ in_mode 1 (reg w) q
  reg-standby w q = rw (
    reg-set_satandby_mode bus m.spid chip w q,
    op_mode_value (reg w 1) 1 (chip.reg_lt w 1) (omega arith),
  )

  -- Without the interrupt handler on DIO0, the modem is in standby after `LoRa_stop_receive` and asleep
  -- after `LoRa_sleep`, and its other registers are as before.
  pub lora_stop_receive-lora_sleep :
      (w : World) (q : ℕ)
      → (reg (lora_stop_receive bus m w) q ≡ in_mode 1 (reg w) q)
        × (reg (lora_sleep bus m w) q ≡ in_mode 0 (reg w) q)
  unfolding lora_stop_receive lora_sleep lora_remove_dio_isr
  lora_stop_receive-lora_sleep w q = (
    rw (reg-standby (lora_remove_dio_isr bus m.eth.dio0_gpio_n w) q, chip.isr_keeps),
    rw (
      reg-set_sleep_mode bus m.spid chip (lora_remove_dio_isr bus m.eth.dio0_gpio_n w) q,
      chip.isr_keeps,
      op_mode_value (reg w 1) 0 (chip.reg_lt w 1) (omega arith),
    ),
  )

  -- The modem with the time of its last transmission.
  abbrev pub sent_at : ℕ → LoraCtl
  sent_at now = record m { tx = record m.tx { last_time = now } }

  -- If TxDone is set, `txDoneISRf` notes the time, clears the interrupt flags, leaves the modem in standby
  -- and starts the callback's thread on the result.
  pub tx_done_isr_f-sent :
      (w : World)
      → (bit_and (reg w 0x12) 0x08 == 0) ≡ false
      → let now = (gettimeofday (lora_reg_read_byte bus m.spid 0x12 w).1).0 in
        (w' : World) × (tx_done_isr_f bus m w
          ≡ (sent_at now, pthread_create (Callback.tx_callback (sent_at now)) w'))
        × (reg w' 0x12 ≡ 0)
        × (reg w' 0x01 ≡ reg w 0x01 / 8 * 8 + 1)
  unfolding tx_done_isr_f
  tx_done_isr_f-sent w done = (
    lora_set_satandby_mode bus m.spid (cleared w),
    rw (tx_done_isr_f, read_byte bus m.spid chip w 0x12 (omega arith) (omega arith), done) refl,
    rw (reg-standby (cleared w) 0x12, reg-reset_irq_flags bus m.spid chip (timed w) 0x12) refl,
    rw
        (
          reg-standby (cleared w) 0x01,
          reg-reset_irq_flags bus m.spid chip (timed w) 0x01,
          chip.clock_keeps,
          reg-read bus m.spid chip w 0x12 0x01 (omega arith) (omega arith),
        )
        refl,
  )
    where
      timed : World → World
      timed w = (gettimeofday (lora_reg_read_byte bus m.spid 0x12 w).1).1

      cleared : World → World
      cleared w = lora_reset_irq_flags bus m.spid (timed w)
