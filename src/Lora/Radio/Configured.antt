-- ===== src/Lora/Radio/Configured.antt =====
-- `LoRa_begin`: the configuration that the modem holds when it succeeds, and its two failures.
use embeded_linux_gateway.Prelude.{
  ℕ, ◌+◌, ◌-◌, ◌*◌, ◌/◌, ◌%◌, ◌<◌, ◌≤◌, ◌≡◌, refl, bit_and, bit_or, Bool, true, false, ℤ, negsuc,
  is_neg, arith, ◌==◌, if◌then◌else◌, ==_iff, checked_to, checked_to_sound, sym, fun_ext,
}
use mathlib.Core.Path.{subst}
use embeded_linux_gateway.Lora.Regs.{
  BandWidth, bw7_8, bw_code, SpreadingFactor, sf7, sf_code, ErrorCodingRate, cr5, ecr_code,
  ModemCfg, LoraCtl,
}
use embeded_linux_gateway.Lora.Bus.{Bus, Chip}
use embeded_linux_gateway.Lora.Setup.{bit, lora_reset}
use embeded_linux_gateway.Lora.Setup.Power.{
  i_max, nearest_limit, ocp_trim_lem, output_dbm, IsPower, output_dbm-pa_values,
}
use embeded_linux_gateway.Lora.Setup.Words.{
  frf_of_lem, clamp_preamble_lem, clamp_preamble-IsClamped,
}
use embeded_linux_gateway.Lora.Setup.Laws.{IsClamped}
use embeded_linux_gateway.Lora.Radio.{configure_modem, configure_radio, lora_begin}
use embeded_linux_gateway.Lora.Radio.Begin.{
  header_bit, modem_config_1, radio_file, modem_file, reg-configure_radio, reg-configure_modem,
}

low_nibble :
    (ecr : ErrorCodingRate) (implicit : Bool)
    → checked_to 256 (λ v.
      bit_and (bit_or (bit_and (header_bit implicit v) 0xf1) (ecr_code ecr)) 0x0f
      == ecr_code ecr + bit implicit)
      ≡ true
unfolding checked_to
low_nibble cr5 true = refl
low_nibble _ false = refl
low_nibble _ _ = refl

nibbles_table : checked_to 16 (λ k. checked_to 16 (λ l. bit_or l (16 * k) == 16 * k + l)) ≡ true
unfolding checked_to
nibbles_table = refl

nibbles : (k l : ℕ) → k < 16 → l < 16 → bit_or l (16 * k) ≡ 16 * k + l
nibbles k l h g = (==_iff _ _).0 (
    checked_to_sound 16 (λ l. bit_or l (16 * k) == 16 * k + l) l
      (checked_to_sound 16 (λ k. checked_to 16 (λ l. bit_or l (16 * k) == 16 * k + l)) k
        nibbles_table h)
      g)

-- The number of the enumerator in the upper nibble.
bw_code-nibble : (bw : BandWidth) → (k : ℕ) × (k < 16) × (bw_code bw ≡ 16 * k)
bw_code-nibble bw7_8 = (0, omega arith, refl)
bw_code-nibble bw = (bw_code bw / 16, omega arith, refl)

low_nibble-lt : (ecr : ErrorCodingRate) (implicit : Bool) → ecr_code ecr + bit implicit < 16
low_nibble-lt ecr implicit = ground arith

high_nibble :
    (bw : BandWidth) (ecr : ErrorCodingRate) (implicit : Bool)
    → bit_or (ecr_code ecr + bit implicit) (bw_code bw) ≡ bw_code bw + ecr_code ecr + bit implicit
high_nibble bw ecr implicit =
    let (k, small, e) = bw_code-nibble bw in
    rw (e, nibbles k (ecr_code ecr + bit implicit) small (low_nibble-lt ecr implicit)) (omega arith)

modem_config_1_lem :
    (eth : ModemCfg) (v : ℕ)
    → v < 256
    → modem_config_1 eth v ≡ bw_code eth.bw + ecr_code eth.ecr + bit eth.implicit_header
modem_config_1_lem eth v h =
    rw
      ((==_iff _ _).0 (
        checked_to_sound 256
          (λ v.
            bit_and (bit_or (bit_and (header_bit eth.implicit_header v) 0xf1) (ecr_code eth.ecr))
              0x0f
            == ecr_code eth.ecr + bit eth.implicit_header)
          v (low_nibble eth.ecr eth.implicit_header) h))
      (high_nibble eth.bw eth.ecr eth.implicit_header)

-- The fields of MODEM_CONFIG_2.
abbrev config_2 : SpreadingFactor → Bool → ℕ → ℕ
config_2 sf crc v =
    let u = bit_and (bit_or (bit_and v 0x0f) (sf_code sf)) 0xfb in if crc then bit_or u 0x04 else u

config_2_table :
    (sf : SpreadingFactor) (crc : Bool)
    → checked_to 256 (λ v. config_2 sf crc v == sf_code sf + bit crc * 4 + v % 16 / 8 * 8 + v % 4)
      ≡ true
unfolding checked_to
config_2_table sf7 true = refl
config_2_table _ false = refl
config_2_table _ _ = refl

config_2_lem :
    (sf : SpreadingFactor) (crc : Bool) (v : ℕ)
    → v < 256
    → config_2 sf crc v ≡ sf_code sf + bit crc * 4 + v % 16 / 8 * 8 + v % 4
config_2_lem sf crc v h = (==_iff _ _).0 (
    checked_to_sound 256
      (λ v. config_2 sf crc v == sf_code sf + bit crc * 4 + v % 16 / 8 * 8 + v % 4) v
      (config_2_table sf crc) h)

config_2_fields :
    (sf : SpreadingFactor) (crc : Bool) (v : ℕ)
    → v < 256
    → (config_2 sf crc v / 16 * 16 ≡ sf_code sf) × (config_2 sf crc v / 4 % 2 ≡ bit crc)
config_2_fields sf crc v h = rw (config_2_lem sf crc v h) (ground arith)

-- The registers hold the configuration.
pub record IsConfigured (eth : ModemCfg) (r : ℕ → ℕ) : Type 0 where
  pub lora : r 0x01 / 128 ≡ 1
  pub asleep : r 0x01 % 8 ≡ 0
  pub frame : r 0x1d ≡ bw_code eth.bw + ecr_code eth.ecr + bit eth.implicit_header
  pub spreading : (r 0x1e / 16 * 16 ≡ sf_code eth.sf) × (r 0x1e / 4 % 2 ≡ bit eth.crc)
  pub payload : eth.implicit_header ≡ true → r 0x22 ≡ eth.payload_len % 256
  pub carrier :
      let frf = r 0x06 * 65536 + r 0x07 * 256 + r 0x08 in
      (256 * eth.freq ≤ 15625 * frf) × (15625 * frf < 256 * eth.freq + 15625)
  pub power : IsPower eth.out_power eth.power_out_pin (output_dbm (r 0x4d) (r 0x09))
  pub unlimited : eth.ocp ≡ 0 → r 0x0b / 32 ≡ 0
  pub limited :
      0 < eth.ocp
      → (r 0x0b / 32 ≡ 1)
        × (i_max (r 0x0b - 0x20) ≤ nearest_limit eth.ocp)
        × (nearest_limit eth.ocp < i_max (r 0x0b - 0x20) + 10)
  pub gain : (r 0x26 ≡ bit eth.agc * 4) × (r 0x0c ≡ (eth.lna_gain * 32 + bit eth.lna_boost) % 256)
  pub preamble : IsClamped 6 65535 eth.preamble_len (r 0x20 * 256 + r 0x21)
  pub sync : r 0x39 ≡ eth.sync_word % 256
  pub fixed : (r 0x0e ≡ 0) × (r 0x0f ≡ 0) × (r 0x31 ≡ 0xc3) × (r 0x37 ≡ 0x0a)

file : ModemCfg → (ℕ → ℕ) → ℕ → ℕ
file eth old q = radio_file eth (modem_file eth old) q

module _ (eth : ModemCfg) (old : ℕ → ℕ) (bytes : (q : ℕ) → old q < 256) where
  file-IsConfigured : eth.ocp < 256 → eth.freq ≤ 1020000000 → IsConfigured eth (file eth old)
  unfolding file
  file-IsConfigured small band = record {
    lora = omega arith;
    asleep = omega arith;
    frame = modem_config_1_lem eth (old 0x1d) (bytes 0x1d);
    spreading = config_2_fields eth.sf eth.crc (old 0x1e) (bytes 0x1e);
    payload = λ h. rw h;
    carrier = omega (arith, frf_of_lem eth.freq);
    power = output_dbm-pa_values eth.out_power eth.power_out_pin;
    unlimited = λ h. rw h refl;
    limited = λ h. ground (arith, ocp_trim_lem eth.ocp small);
    gain = (refl, refl);
    preamble =
        subst (IsClamped 6 65535 eth.preamble_len)
          (omega (arith, clamp_preamble_lem eth.preamble_len))
          (clamp_preamble-IsClamped eth.preamble_len);
    sync = refl;
    fixed = (refl, refl, refl, refl);
  }

module _ (bus : Bus) (spid : ℤ) (chip : Chip bus spid) where
  open bus use {World, gpio_initialise, spi_open}
  open chip use {reg}

  configured :
      (eth : ModemCfg) (w : World)
      → eth.ocp < 256
      → eth.freq ≤ 1020000000
      → IsConfigured eth (reg (configure_radio bus spid eth (configure_modem bus spid eth w)))
  unfolding file
  configured eth w small band =
      subst (IsConfigured eth) (sym registers)
        (file-IsConfigured eth (reg w) (chip.reg_lt w) small band)
    where
      registers :
          reg (configure_radio bus spid eth (configure_modem bus spid eth w)) ≡ file eth (reg w)
      registers = fun_ext λ q. rw (
        reg-configure_radio bus spid chip eth (configure_modem bus spid eth w) q,
        fun_ext (reg-configure_modem bus spid chip eth w),
      )

  pub lora_begin-IsConfigured :
      (m : LoraCtl) (w : World)
      → is_neg (gpio_initialise w).0 ≡ false
      → (spi_open m.spi_cs 32000 0 (lora_reset bus m.eth.reset_gpio_n (gpio_initialise w).1)).0
        ≡ spid
      → is_neg spid ≡ false
      → m.eth.ocp < 256
      → m.eth.freq ≤ 1020000000
      → let (s, m', w') = lora_begin bus m w in
        (s ≡ spid) × (m' ≡ record m { spid = spid }) × IsConfigured m.eth (reg w')
  unfolding lora_begin
  lora_begin-IsConfigured m w started opened valid small band =
      rw (started, opened, valid) (refl, refl, configured m.eth _ small band)

module _ (bus : Bus) where
  open bus use {World, gpio_initialise, spi_open}

  -- If pigpio does not start, `LoRa_begin` returns -1 and touches nothing else; if the SPI device does
  -- not open, it returns that error and stores it as the modem's handle, and sends nothing.
  pub lora_begin_errors :
      (m : LoraCtl) (w : World)
      → let (r, w1) = gpio_initialise w in
        let (s, w2) = spi_open m.spi_cs 32000 0 (lora_reset bus m.eth.reset_gpio_n w1) in
        (is_neg r ≡ true → lora_begin bus m w ≡ (negsuc 0, m, w1))
        × (is_neg r ≡ false → is_neg s ≡ true → lora_begin bus m w ≡ (s, record m { spid = s }, w2))
  unfolding lora_begin
  lora_begin_errors m w = (λ h. rw h, λ h k. rw (h, k))
