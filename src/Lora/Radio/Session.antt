-- ===== src/Lora/Radio/Session.antt =====
-- `LoRa_begin` and then `LoRa_receive`, as a receiver calls them: the modem listens with the configuration.
use embeded_linux_gateway.Prelude.{
  ℕ, ◌+◌, ◌*◌, ◌/◌, ◌%◌, ◌<◌, ◌≤◌, ◌≡◌, refl, ◌∙◌, Bool, true, false, ℤ, is_neg, arith, ◌==◌,
  if◌then◌else◌, inl, inr, Bool-cases,
}
use native.Mathlib.Nat.{mod-eq_of_lt}
use embeded_linux_gateway.Lora.Regs.{bw_code, ecr_code, sf_code, ModemCfg, LoraCtl}
use embeded_linux_gateway.Lora.Bus.{Bus, Chip}
use embeded_linux_gateway.Lora.Setup.{bit, lora_reset}
use embeded_linux_gateway.Lora.Packet.{lora_calculate_packet_t}
use embeded_linux_gateway.Lora.Spi.Laws.{read_byte}
use embeded_linux_gateway.Lora.Radio.{lora_begin, lora_receive, lora_check_conn, lora_end}
use embeded_linux_gateway.Lora.Radio.Configured.{IsConfigured, lora_begin-IsConfigured}
use embeded_linux_gateway.Lora.Setup.Laws.{IsClamped, reg-set_dio_rx_mapping}
use embeded_linux_gateway.Lora.Radio.Transmit.{
  slow_bit, slow_bit_lem, reg-rxcont_mode, reg-rxdone_isr, reg-ensure_standby,
  reg-set_lowdatarateoptimize,
}

-- The modem receives LoRa packets continuously with the configuration, and signals RxDone on DIO0.
pub record IsReceiving (eth : ModemCfg) (slow : Bool) (r : ℕ → ℕ) : Type 0 where
  pub receiving : (r 0x01 / 128 ≡ 1) × (r 0x01 % 8 ≡ 5)
  pub dio0 : r 0x40 ≡ 0
  pub frame : r 0x1d ≡ bw_code eth.bw + ecr_code eth.ecr + bit eth.implicit_header
  pub spreading : (r 0x1e / 16 * 16 ≡ sf_code eth.sf) × (r 0x1e / 4 % 2 ≡ bit eth.crc)
  pub carrier :
      let frf = r 0x06 * 65536 + r 0x07 * 256 + r 0x08 in
      (256 * eth.freq ≤ 15625 * frf) × (15625 * frf < 256 * eth.freq + 15625)
  pub preamble : IsClamped 6 65535 eth.preamble_len (r 0x20 * 256 + r 0x21)
  pub sync : r 0x39 ≡ eth.sync_word % 256
  pub base : r 0x0f ≡ 0
  pub optimized : r 0x26 / 8 % 2 ≡ bit slow

module _ (bus : Bus) (m : LoraCtl) (chip : Chip bus m.spid) where
  open bus use {World}
  open chip use {reg}

  -- All registers after `LoRa_receive`.
  reg-lora_receive :
      (w : World) (q : ℕ)
      → reg (lora_receive bus m w).1 q ≡ (
          if q == 1
          then reg w 1 / 8 * 8 + 5
          else if q == 0x40
          then 0
          else if q == 0x26
          then slow_bit (lora_calculate_packet_t m).eth.low_data_rate_optimize (reg w 0x26)
          else reg w q)
  unfolding lora_receive
  reg-lora_receive w q =
      simp
        (
          reg-rxcont_mode bus m.spid chip,
          reg-rxdone_isr bus m.spid chip,
          reg-set_dio_rx_mapping bus m.spid chip,
          reg-ensure_standby bus m.spid chip,
          reg-set_lowdatarateoptimize bus m.spid chip,
        )
        (ground arith)

  -- What `LoRa_receive` makes of a configured modem.
  listening :
      (w : World)
      → IsConfigured m.eth (reg w)
      → IsReceiving m.eth
          (lora_calculate_packet_t m).eth.low_data_rate_optimize
          (reg (lora_receive bus m w).1)
  listening w c = record {
    receiving =
        rw (reg-lora_receive w 0x01) (omega (arith, c.lora, c.asleep), omega (arith, c.asleep));
    dio0 = reg-lora_receive w 0x40;
    frame = reg-lora_receive w 0x1d ∙ c.frame;
    spreading = rw (reg-lora_receive w 0x1e) c.spreading;
    carrier =
        rw (reg-lora_receive w 0x06, reg-lora_receive w 0x07, reg-lora_receive w 0x08) c.carrier;
    preamble = rw (reg-lora_receive w 0x20, reg-lora_receive w 0x21) c.preamble;
    sync = reg-lora_receive w 0x39 ∙ c.sync;
    base = reg-lora_receive w 0x0f ∙ c.fixed.1;
    optimized = rw (reg-lora_receive w 0x26) (
        slow_bit_lem (lora_calculate_packet_t m).eth.low_data_rate_optimize (reg w 0x26)
          (chip.reg_lt w 0x26));
  }

module _ (bus : Bus) (spid : ℤ) (chip : Chip bus spid) where
  open bus use {World, gpio_initialise, spi_open}
  open chip use {reg}

  -- If pigpio starts and the SPI device opens as `spid`, the limit and the sync word are bytes and the
  -- frequency is at most 1020 MHz, then after `LoRa_begin` and `LoRa_receive` the modem receives
  -- continuously with the configuration, and its handle is `spid`; between the two, `LoRa_check_conn`
  -- answers that the modem is there.
  pub session_lem :
      (m : LoraCtl) (w : World)
      → is_neg (gpio_initialise w).0 ≡ false
      → (spi_open m.spi_cs 32000 0 (lora_reset bus m.eth.reset_gpio_n (gpio_initialise w).1)).0
        ≡ spid
      → is_neg spid ≡ false
      → m.eth.ocp < 256
      → m.eth.freq ≤ 1020000000
      → m.eth.sync_word < 256
      → let (s, m', w') = lora_begin bus m w in
        let (m'', w'') = lora_receive bus m' w' in
        (m''.spid ≡ spid)
        × IsReceiving m.eth (lora_calculate_packet_t m).eth.low_data_rate_optimize (reg w'')
        × ((lora_check_conn bus m' w').0 ≡ true)
  unfolding lora_check_conn lora_receive lora_calculate_packet_t
  session_lem m w started opened valid small band byte =
      let (ret, handle, configured) =
        lora_begin-IsConfigured bus spid chip m w started opened valid small band in
      rw handle (
        refl,
        listening bus (record m { spid = spid }) chip (lora_begin bus m w).2 configured,
        rw
            (
              read_byte bus spid chip (lora_begin bus m w).2 0x39 (omega arith) (omega arith),
              configured.sync,
              mod-eq_of_lt byte,
            )
            (same m.eth.sync_word),
      )
    where
      same : (n : ℕ) → (n == n) ≡ true
      same n = ground arith

module _ (bus : Bus) where
  open bus use {World, gpio_initialise, spi_open}

  -- What the operations make of the configuration in memory.
  pub lora_begin-eth : (m : LoraCtl) (w : World) → (lora_begin bus m w).1.eth ≡ m.eth
  unfolding lora_begin
  lora_begin-eth m w = elim (Bool-cases (is_neg (gpio_initialise w).0)) [
    | inl e ↦ rw e refl
    | inr e ↦
        elim (Bool-cases (
          is_neg
            (spi_open m.spi_cs 32000 0
              (lora_reset bus m.eth.reset_gpio_n (gpio_initialise w).1)).0)) [
                | inl f ↦ rw (e, f) refl
                | inr f ↦ rw (e, f) refl
              ]
  ]

  pub lora_receive-eth :
      (m : LoraCtl) (w : World) → (lora_receive bus m w).0.eth ≡ (lora_calculate_packet_t m).eth
  unfolding lora_receive
  lora_receive-eth m w = refl

  pub lora_end-eth : (m : LoraCtl) (w : World) → (lora_end bus m w).0.eth ≡ m.eth
  unfolding lora_end
  lora_end-eth m w = refl
