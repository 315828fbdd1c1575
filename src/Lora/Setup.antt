-- ===== src/Lora/Setup.antt =====
-- LoRa.c: the setters, each a read-modify-write or a plain write of one register.
pub mod Laws
pub mod Power
pub mod Words
pub mod Modes
pub mod Fifo
pub mod Irq
use embeded_linux_gateway.Prelude.{
  ℕ, ◌+◌, ◌-◌, ◌*◌, ◌/◌, ◌%◌, bit_and, bit_or, Bool, true, false, List, [], ◌∷◌, ℤ, ltb, leb, ◌==◌,
  if◌then◌else◌,
}
use embeded_linux_gateway.Lora.Regs.{
  reg_op_mode, reg_fr_msb, reg_pa_config, reg_ocp, reg_lna, reg_fifo, reg_fifo_addr_ptr,
  reg_irq_flags, reg_modem_config_1, reg_modem_config_2, reg_preamble_msb, reg_payload_length,
  reg_modem_config_3, reg_sync_word, reg_dio_mapping_1, reg_pa_dac, lora_mode, sleep_mode,
  stdby_mode, tx_mode, rxcont_mode, tx_base_addr, BandWidth, bw_code, SpreadingFactor, sf_code,
  ErrorCodingRate, ecr_code, OutputPower, power_code, op20, PowerAmplifireOutputPin, rfo, pa_boost,
  pa_code,
}
use embeded_linux_gateway.Lora.Bus.{Bus, PinMode}
use embeded_linux_gateway.Lora.Spi.{lora_reg_read_byte, lora_reg_write_byte, lora_reg_write_bytes}

-- A `bool` as a number.
abbrev pub bit : Bool → ℕ
bit true = 1
bit false = 0

-- The value that `lora_set_ocp` computes for a limit that is not 0.
unfoldable pub ocp_trim : ℕ → ℕ
ocp_trim ocp =
    if leb ocp 120
    then (let ocp' = if ltb ocp 50 then 50 else ocp in (ocp' - 45) / 5 + 0x20)
    else (let ocp' = if ltb ocp 130 then 130 else ocp in (ocp' + 30) / 10 + 0x20)

-- `power` after the clamp of `lora_set_tx_power`: to 0..15 on RFO, to 2..17 on PA_BOOST.
unfoldable pub clamp_power : ℕ → ℕ → ℕ → ℕ
clamp_power lo hi power = if leb hi power then hi else if leb power lo then lo else power

-- `frf` of `lora_set_freq`, `ceil((freq/32000000.0)*524288)`: 32000000/524288 is 15625/256. The
-- division in `double` is exact enough that the ceiling is that of the fraction.
unfoldable pub frf_of : ℕ → ℕ
frf_of freq = (freq * 256 + 15624) / 15625

-- The three bytes of `frf_revers` in memory, on a little-endian machine.
unfoldable pub frf_bytes : ℕ → List ℕ
frf_bytes frf =
    let rev = frf % 256 * 65536 + frf / 256 % 256 * 256 + frf / 65536 % 256 in
    rev % 256 ∷ rev / 256 % 256 ∷ rev / 65536 % 256 ∷ []

unfoldable pub clamp_preamble : ℕ → ℕ
clamp_preamble n = if ltb n 6 then 6 else if ltb 65535 n then 65535 else n

-- The two bytes of `len_revers` in memory.
unfoldable pub preamble_bytes : ℕ → List ℕ
preamble_bytes n = let rev = n % 256 * 256 + n / 256 % 256 in rev % 256 ∷ rev / 256 % 256 ∷ []

-- The values of PA_DAC and PA_CONFIG.
unfoldable pub pa_values : OutputPower → PowerAmplifireOutputPin → ℕ × ℕ
pa_values power rfo = (0x84, bit_or (pa_code rfo) (clamp_power 0 15 (power_code power)))
pa_values op20 pa_boost = (0x87, bit_or (pa_code pa_boost) (power_code op20 - 2))
pa_values power pa_boost =
    (0x84, bit_or (pa_code pa_boost) (clamp_power 2 17 (power_code power) - 2))

module _ (bus : Bus) where
  open bus use {World, gpio_set_mode, gpio_write, usleep}

  -- A write whose result the code ignores.
  abbrev poke : ℤ → ℕ → ℕ → World → World
  poke spid r b w = (lora_reg_write_byte bus spid r b w).1

  -- `lora_reg_write_byte(spid, r, f(lora_reg_read_byte(spid, r)))`.
  abbrev amend : ℤ → ℕ → (ℕ → ℕ) → World → World
  amend spid r f w = let (v, w') = lora_reg_read_byte bus spid r w in poke spid r (f v) w'

  pub lora_set_ocp : ℤ → ℕ → World → World
  lora_set_ocp spid ocp w =
      if ocp == 0
      then amend spid reg_ocp (λ v. bit_and v 0xdf) w
      else poke spid reg_ocp (ocp_trim ocp) w

  pub lora_set_lna : ℤ → ℕ → Bool → World → World
  lora_set_lna spid gain boost w = poke spid reg_lna ((gain * 32 + bit boost) % 256) w

  pub lora_set_agc : ℤ → Bool → World → World
  lora_set_agc spid agc w = poke spid reg_modem_config_3 (bit agc * 4) w

  pub lora_set_tx_power : ℤ → OutputPower → PowerAmplifireOutputPin → World → World
  lora_set_tx_power spid power pa_pin w =
      let (dac, config) = pa_values power pa_pin in
      poke spid reg_pa_config config (poke spid reg_pa_dac dac (poke spid reg_ocp 0x1f w))

  pub lora_set_dio_rx_mapping : ℤ → World → World
  lora_set_dio_rx_mapping spid w = poke spid reg_dio_mapping_1 (0 * 64) w

  pub lora_set_dio_tx_mapping : ℤ → World → World
  lora_set_dio_tx_mapping spid w = poke spid reg_dio_mapping_1 (1 * 64) w

  pub lora_set_lowdatarateoptimize_on : ℤ → World → World
  lora_set_lowdatarateoptimize_on spid w =
      amend spid reg_modem_config_3 (λ v. bit_or (bit_and v 0xf7) 0x08) w

  pub lora_set_lowdatarateoptimize_off : ℤ → World → World
  lora_set_lowdatarateoptimize_off spid w = amend spid reg_modem_config_3 (λ v. bit_and v 0xf7) w

  pub lora_set_addr_ptr : ℤ → ℕ → World → World
  lora_set_addr_ptr spid addr w = poke spid reg_fifo_addr_ptr addr w

  pub lora_set_payload : ℤ → ℕ → World → World
  lora_set_payload spid payload w = poke spid reg_payload_length payload w

  -- `buf` holds the `size` bytes that go out; the result is an `unsigned char`.
  pub lora_write_fifo : ℤ → List ℕ → ℕ → World → ℤ × World
  lora_write_fifo spid buf size w =
      lora_reg_write_bytes bus spid reg_fifo buf
        (lora_set_payload spid size (lora_set_addr_ptr spid tx_base_addr w))

  pub lora_get_op_mode : ℤ → World → ℕ × World
  lora_get_op_mode spid w =
      let (v, w') = lora_reg_read_byte bus spid reg_op_mode w in (bit_and v 0x07, w')

  pub lora_set_satandby_mode : ℤ → World → World
  lora_set_satandby_mode spid w = amend spid reg_op_mode (λ v. bit_or (bit_and v 0xf8) stdby_mode) w

  pub lora_set_rxcont_mode : ℤ → World → World
  lora_set_rxcont_mode spid w = amend spid reg_op_mode (λ v. bit_or (bit_and v 0xf8) rxcont_mode) w

  pub lora_set_tx_mode : ℤ → World → World
  lora_set_tx_mode spid w = amend spid reg_op_mode (λ v. bit_or (bit_and v 0xf8) tx_mode) w

  pub lora_set_syncw : ℤ → ℕ → World → World
  lora_set_syncw spid word w = poke spid reg_sync_word word w

  pub lora_set_sleep_mode : ℤ → World → World
  lora_set_sleep_mode spid w = amend spid reg_op_mode (λ v. bit_or (bit_and v 0xf8) sleep_mode) w

  pub lora_set_lora_mode : ℤ → World → World
  lora_set_lora_mode spid w =
      amend spid reg_op_mode (λ v. bit_or (bit_and v 0x7f) lora_mode) (lora_set_sleep_mode spid w)

  pub lora_set_sf : ℤ → SpreadingFactor → World → World
  lora_set_sf spid sf w =
      amend spid reg_modem_config_2 (λ v. bit_or (bit_and v 0x0f) (sf_code sf)) w

  pub lora_set_crc_on : ℤ → World → World
  lora_set_crc_on spid w = amend spid reg_modem_config_2 (λ v. bit_or (bit_and v 0xfb) 0x04) w

  pub lora_set_crc_off : ℤ → World → World
  lora_set_crc_off spid w = amend spid reg_modem_config_2 (λ v. bit_and v 0xfb) w

  pub lora_set_bandwidth : ℤ → BandWidth → World → World
  lora_set_bandwidth spid bw w =
      amend spid reg_modem_config_1 (λ v. bit_or (bit_and v 0x0f) (bw_code bw)) w

  pub lora_set_errorcr : ℤ → ErrorCodingRate → World → World
  lora_set_errorcr spid cr w =
      amend spid reg_modem_config_1 (λ v. bit_or (bit_and v 0xf1) (ecr_code cr)) w

  pub lora_set_explicit_header : ℤ → World → World
  lora_set_explicit_header spid w = amend spid reg_modem_config_1 (λ v. bit_and v 0xfe) w

  pub lora_set_implicit_header : ℤ → World → World
  lora_set_implicit_header spid w = amend spid reg_modem_config_1 (λ v. bit_or v 0x01) w

  pub lora_set_freq : ℤ → ℕ → World → World
  lora_set_freq spid freq w =
      (lora_reg_write_bytes bus spid reg_fr_msb (frf_bytes (frf_of freq)) w).1

  pub lora_set_preamble : ℤ → ℕ → World → World
  lora_set_preamble spid n w =
      (lora_reg_write_bytes bus spid reg_preamble_msb (preamble_bytes (clamp_preamble n)) w).1

  pub lora_reset_irq_flags : ℤ → World → World
  lora_reset_irq_flags spid w = poke spid reg_irq_flags 0xff w

  pub lora_reset : ℕ → World → World
  lora_reset gpio_n w = usleep 5000 (
      gpio_write gpio_n 1
        (usleep 100 (gpio_write gpio_n 0 (gpio_set_mode gpio_n PinMode.pi_output w))))
