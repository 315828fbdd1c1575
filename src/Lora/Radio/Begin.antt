-- ===== src/Lora/Radio/Begin.antt =====
-- `LoRa_begin`: what the modem's registers hold when it succeeds, and what it does when it fails.
use embeded_linux_gateway.Prelude.{
  ℕ, ◌+◌, ◌*◌, ◌/◌, ◌%◌, ◌≡◌, refl, bit_and, bit_or, Bool, true, false, ℤ, arith, ◌==◌,
  if◌then◌else◌,
}
use embeded_linux_gateway.Lora.Regs.{bw_code, sf_code, ecr_code, ModemCfg}
use embeded_linux_gateway.Lora.Bus.{Bus, Chip}
use embeded_linux_gateway.Lora.Spi.{lora_reg_write_byte}
use embeded_linux_gateway.Lora.Spi.Laws.{reg-write}
use embeded_linux_gateway.Lora.Setup.{bit, ocp_trim, frf_of, clamp_preamble, pa_values}
use embeded_linux_gateway.Lora.Setup.Laws.{
  reg-set_sf, reg-set_crc_on, reg-set_crc_off, reg-set_bandwidth, reg-set_errorcr,
  reg-set_explicit_header, reg-set_implicit_header, reg-set_lna, reg-set_agc, reg-set_payload,
  reg-set_syncw,
}
use embeded_linux_gateway.Lora.Setup.Power.{reg-set_ocp, reg-set_tx_power}
use embeded_linux_gateway.Lora.Setup.Words.{reg-set_freq, reg-set_preamble}
use embeded_linux_gateway.Lora.Setup.Modes.{reg-set_lora_mode}
use embeded_linux_gateway.Lora.Radio.{configure_modem, configure_radio}

-- The registers after `configure_radio`, from what they were: the last write of each one counts.
abbrev pub radio_file : ModemCfg → (ℕ → ℕ) → ℕ → ℕ
radio_file eth old q =
    if q == 0x06
    then frf_of eth.freq / 65536 % 256
    else if q == 0x07
    then frf_of eth.freq / 256 % 256
    else if q == 0x08
    then frf_of eth.freq % 256
    else if q == 0x37
    then 0x0a
    else if q == 0x31
    then 0xc3
    else if q == 0x0f
    then 0x00
    else if q == 0x0e
    then 0x00
    else if q == 0x0b
    then (if eth.ocp == 0 then 0x1f else ocp_trim eth.ocp % 256)
    else if q == 0x0c
    then (eth.lna_gain * 32 + bit eth.lna_boost) % 256
    else if q == 0x26
    then bit eth.agc * 4
    else if q == 0x20
    then clamp_preamble eth.preamble_len / 256
    else if q == 0x21
    then clamp_preamble eth.preamble_len % 256
    else if q == 0x39
    then eth.sync_word % 256
    else if q == 0x09
    then (pa_values eth.out_power eth.power_out_pin).1
    else if q == 0x4d
    then (pa_values eth.out_power eth.power_out_pin).0
    else if q == 0x0b
    then 0x1f
    else old q

abbrev pub header_bit : Bool → ℕ → ℕ
header_bit implicit v = if implicit then bit_or v 0x01 else bit_and v 0xfe

abbrev pub modem_config_1 : ModemCfg → ℕ → ℕ
modem_config_1 eth v =
    bit_or
      (bit_and (bit_or (bit_and (header_bit eth.implicit_header v) 0xf1) (ecr_code eth.ecr)) 0x0f)
      (bw_code eth.bw)

abbrev pub modem_config_2 : ModemCfg → ℕ → ℕ
modem_config_2 eth v =
    let u = bit_and (bit_or (bit_and v 0x0f) (sf_code eth.sf)) 0xfb in
    if eth.crc then bit_or u 0x04 else u

abbrev pub modem_file : ModemCfg → (ℕ → ℕ) → ℕ → ℕ
modem_file eth old q =
    if q == 0x1e
    then modem_config_2 eth (old 0x1e)
    else if q == 0x1d
    then modem_config_1 eth (old 0x1d)
    else if q == 0x22
    then (if eth.implicit_header then eth.payload_len % 256 else old 0x22)
    else if q == 0x01
    then 128 + old 0x01 / 8 % 16 * 8
    else old q

module _ (bus : Bus) (spid : ℤ) (chip : Chip bus spid) where
  open bus use {World}
  open chip use {reg}

  reg-if :
      (b : Bool) (w w' : World) (q : ℕ)
      → reg (if b then w else w') q ≡ (if b then reg w q else reg w' q)
  reg-if true w w' q = refl
  reg-if false w w' q = refl

  reg-tx_base :
      (w : World) (q : ℕ)
      → reg (lora_reg_write_byte bus spid 0x0e 0x00 w).1 q ≡ (if q == 0x0e then 0x00 else reg w q)
  reg-tx_base w q = reg-write bus spid chip w 0x0e q 0x00 (omega arith) refl

  reg-rx_base :
      (w : World) (q : ℕ)
      → reg (lora_reg_write_byte bus spid 0x0f 0x00 w).1 q ≡ (if q == 0x0f then 0x00 else reg w q)
  reg-rx_base w q = reg-write bus spid chip w 0x0f q 0x00 (omega arith) refl

  reg-optimize :
      (w : World) (q : ℕ)
      → reg (lora_reg_write_byte bus spid 0x31 0xc3 w).1 q ≡ (if q == 0x31 then 0xc3 else reg w q)
  reg-optimize w q = reg-write bus spid chip w 0x31 q 0xc3 (omega arith) refl

  reg-threshold :
      (w : World) (q : ℕ)
      → reg (lora_reg_write_byte bus spid 0x37 0x0a w).1 q ≡ (if q == 0x37 then 0x0a else reg w q)
  reg-threshold w q = reg-write bus spid chip w 0x37 q 0x0a (omega arith) refl

  pub reg-configure_radio :
      (eth : ModemCfg) (w : World) (q : ℕ)
      → reg (configure_radio bus spid eth w) q ≡ radio_file eth (reg w) q
  unfolding configure_radio
  reg-configure_radio eth w q = simp (
    reg-set_freq bus spid chip,
    reg-threshold,
    reg-optimize,
    reg-rx_base,
    reg-tx_base,
    reg-set_ocp bus spid chip,
    reg-set_lna bus spid chip,
    reg-set_agc bus spid chip,
    reg-set_preamble bus spid chip,
    reg-set_syncw bus spid chip,
    reg-set_tx_power bus spid chip,
  )

  pub reg-configure_modem :
      (eth : ModemCfg) (w : World) (q : ℕ)
      → reg (configure_modem bus spid eth w) q ≡ modem_file eth (reg w) q
  unfolding configure_modem
  reg-configure_modem eth w q =
      simp
        (
          reg-if,
          reg-set_crc_on bus spid chip,
          reg-set_crc_off bus spid chip,
          reg-set_sf bus spid chip,
          reg-set_bandwidth bus spid chip,
          reg-set_errorcr bus spid chip,
          reg-set_payload bus spid chip,
          reg-set_implicit_header bus spid chip,
          reg-set_explicit_header bus spid chip,
          reg-set_lora_mode bus spid chip,
        )
        (ground arith)
