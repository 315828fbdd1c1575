-- ===== src/Lora/Radio.antt =====
-- LoRa.c: the operations on a modem, `LoRa_begin` to `LoRa_get_op_mode`, and its interrupt handlers.
pub mod Begin
pub mod Configured
pub mod Transmit
pub mod Interrupt
pub mod Session
pub mod Idle
use embeded_linux_gateway.Prelude.{
  ℕ, ◌+◌, ◌-◌, ◌*◌, ◌/◌, ◌%◌, bit_and, Bool, true, false, not, Option, some, none, List, [], ◌∷◌, ℤ,
  pos, negsuc, sub_ℕ, is_neg, ltb, ◌==◌, if◌then◌else◌, take, overlay,
}
use embeded_linux_gateway.Lora.Regs.{
  reg_fifo, reg_fifo_addr_ptr, reg_fifo_tx_base_addr, reg_fifo_rx_base_addr,
  reg_fifo_rx_current_addr, reg_irq_flags, reg_rx_nb_bytes, reg_pkt_snr_value, reg_pkt_rssi_value,
  reg_rssi_value, reg_detect_optimize, reg_detection_threshold, reg_sync_word, tx_base_addr,
  rx_base_addr, irq_rxdone, irq_txdone, stdby_mode, ModemCfg, RxData, TxData, LoraCtl,
}
use embeded_linux_gateway.Lora.Bus.{Bus, Isr, Callback, PinMode}
use embeded_linux_gateway.Lora.Spi.{lora_reg_read_byte, lora_reg_write_byte, lora_reg_read_bytes}
use embeded_linux_gateway.Lora.Setup.{
  lora_set_ocp, lora_set_lna, lora_set_agc, lora_set_tx_power, lora_set_dio_rx_mapping,
  lora_set_dio_tx_mapping, lora_set_lowdatarateoptimize_on, lora_set_lowdatarateoptimize_off,
  lora_set_payload, lora_write_fifo, lora_get_op_mode, lora_set_satandby_mode, lora_set_rxcont_mode,
  lora_set_tx_mode, lora_set_syncw, lora_set_sleep_mode, lora_set_lora_mode, lora_set_sf,
  lora_set_crc_on, lora_set_crc_off, lora_set_bandwidth, lora_set_errorcr, lora_set_explicit_header,
  lora_set_implicit_header, lora_set_freq, lora_set_preamble, lora_reset_irq_flags, lora_reset,
}
use embeded_linux_gateway.Lora.Packet.{lora_calculate_packet_t}

-- A `char` as a number. Whether it is signed is up to the platform: it is not on ARM Linux.
abbrev pub char_value : Bool → ℕ → ℤ
char_value signed b = if signed then (if ltb b 128 then pos b else sub_ℕ b 256) else pos b

-- `lora_reg_read_byte(..) - (freq < 779E6 ? 164 : 157)`.
abbrev pub rssi_of : ℕ → ℕ → ℤ
rssi_of freq v = sub_ℕ v (if ltb freq 779000000 then 164 else 157)

module _ (bus : Bus) where
  open bus use {
    World, gpio_initialise, gpio_set_mode, gpio_set_isr, spi_open, spi_close, gettimeofday,
    pthread_create,
  }

  -- A write whose result the code ignores.
  abbrev write_reg : ℤ → ℕ → ℕ → World → World
  write_reg spid r b w = (lora_reg_write_byte bus spid r b w).1

  -- `LoRa_begin` once the SPI device is open: the modem configuration, then the radio's.
  pub configure_modem : ℤ → ModemCfg → World → World
  configure_modem spid eth w =
      let w1 = lora_set_lora_mode bus spid w in
      let w2 =
        if eth.implicit_header
        then lora_set_payload bus spid eth.payload_len (lora_set_implicit_header bus spid w1)
        else lora_set_explicit_header bus spid w1 in
      let w3 = lora_set_errorcr bus spid eth.ecr w2 in
      let w4 = lora_set_bandwidth bus spid eth.bw w3 in
      let w5 = lora_set_sf bus spid eth.sf w4 in
      if eth.crc then lora_set_crc_on bus spid w5 else lora_set_crc_off bus spid w5

  pub configure_radio : ℤ → ModemCfg → World → World
  configure_radio spid eth w =
      let w1 = lora_set_tx_power bus spid eth.out_power eth.power_out_pin w in
      let w2 = lora_set_syncw bus spid eth.sync_word w1 in
      let w3 = lora_set_preamble bus spid eth.preamble_len w2 in
      let w4 = lora_set_agc bus spid eth.agc w3 in
      let w5 = lora_set_lna bus spid eth.lna_gain eth.lna_boost w4 in
      let w6 = lora_set_ocp bus spid eth.ocp w5 in
      let w7 = write_reg spid reg_fifo_tx_base_addr tx_base_addr w6 in
      let w8 = write_reg spid reg_fifo_rx_base_addr rx_base_addr w7 in
      let w9 = write_reg spid reg_detect_optimize 0xc3 w8 in
      let w10 = write_reg spid reg_detection_threshold 0x0a w9 in
      lora_set_freq bus spid eth.freq w10

  pub lora_begin : LoraCtl → World → ℤ × LoraCtl × World
  lora_begin m w =
      let (r, w1) = gpio_initialise w in
      let (s, w2) = spi_open m.spi_cs 32000 0 (lora_reset bus m.eth.reset_gpio_n w1) in
      if is_neg r
      then (negsuc 0, m, w1)
      else if is_neg s
      then (s, record m { spid = s }, w2)
      else (s, record m { spid = s }, configure_radio s m.eth (configure_modem s m.eth w2))

  pub lora_set_rxdone_dio_isr : ℕ → World → World
  lora_set_rxdone_dio_isr gpio_n w =
      gpio_set_isr gpio_n (some Isr.rx_done_isr) (gpio_set_mode gpio_n PinMode.pi_input w)

  pub lora_set_txdone_dio_isr : ℕ → World → World
  lora_set_txdone_dio_isr gpio_n w =
      gpio_set_isr gpio_n (some Isr.tx_done_isr) (gpio_set_mode gpio_n PinMode.pi_input w)

  pub lora_remove_dio_isr : ℕ → World → World
  lora_remove_dio_isr gpio_n w = gpio_set_isr gpio_n none w

  -- `if(lora_get_op_mode(spid) != STDBY_MODE) lora_set_satandby_mode(spid)`.
  pub ensure_standby : ℤ → World → World
  ensure_standby spid w =
      let (mode, w1) = lora_get_op_mode bus spid w in
      if mode == stdby_mode then w1 else lora_set_satandby_mode bus spid w1

  pub set_lowdatarateoptimize : ℤ → Bool → World → World
  set_lowdatarateoptimize spid slow w =
      if slow
      then lora_set_lowdatarateoptimize_on bus spid w
      else lora_set_lowdatarateoptimize_off bus spid w

  pub lora_send : LoraCtl → World → LoraCtl × World
  lora_send m w =
      let w1 = ensure_standby m.spid w in
      let m' = lora_calculate_packet_t m in
      let w2 = set_lowdatarateoptimize m.spid m'.eth.low_data_rate_optimize w1 in
      let size : ℕ = (if m.eth.implicit_header then m.eth.payload_len else m.tx.size) in
      let w3 = (lora_write_fifo bus m.spid (take size m.tx.buf) size w2).1 in
      let w4 = lora_set_dio_tx_mapping bus m.spid w3 in
      let w5 = lora_set_txdone_dio_isr m.eth.dio0_gpio_n w4 in (m', lora_set_tx_mode bus m.spid w5)

  pub lora_receive : LoraCtl → World → LoraCtl × World
  lora_receive m w =
      let m' = lora_calculate_packet_t m in
      let w1 = set_lowdatarateoptimize m.spid m'.eth.low_data_rate_optimize w in
      let w2 = ensure_standby m.spid w1 in
      let w3 = lora_set_dio_rx_mapping bus m.spid w2 in
      let w4 = lora_set_rxdone_dio_isr m.eth.dio0_gpio_n w3 in
      (m', lora_set_rxcont_mode bus m.spid w4)

  pub lora_get_rssi_pkt : LoraCtl → World → LoraCtl × World
  lora_get_rssi_pkt m w =
      let (v, w') = lora_reg_read_byte bus m.spid reg_pkt_rssi_value w in
      (record m { rx = record m.rx { rssi = rssi_of m.eth.freq v } }, w')

  pub lora_get_rssi_cur : LoraCtl → World → LoraCtl × World
  lora_get_rssi_cur m w =
      let (v, w') = lora_reg_read_byte bus m.spid reg_rssi_value w in
      (record m { eth = record m.eth { cur_rssi = rssi_of m.eth.freq v } }, w')

  pub lora_get_snr : Bool → LoraCtl → World → LoraCtl × World
  lora_get_snr signed m w =
      let (v, w') = lora_reg_read_byte bus m.spid reg_pkt_snr_value w in
      (record m { rx = record m.rx { snr_quarters = char_value signed v } }, w')

  -- `none` is the fault of `lora_reg_read_bytes`. The bytes go to the start of the caller's buffer,
  -- whose other bytes stay.
  pub rx_done_isr_f : Bool → LoraCtl → World → Option (LoraCtl × World)
  rx_done_isr_f signed m w =
      let (flags, w1) = lora_reg_read_byte bus m.spid reg_irq_flags w in
      let (addr, w2) = lora_reg_read_byte bus m.spid reg_fifo_rx_current_addr w1 in
      let w3 = write_reg m.spid reg_fifo_addr_ptr addr w2 in
      let (nb, w4) = lora_reg_read_byte bus m.spid reg_rx_nb_bytes w3 in
      let n : ℕ = (if m.eth.implicit_header then m.eth.payload_len else nb) in
      let (got, ret, w5) =
        lora_reg_read_bytes bus m.spid reg_fifo n (if m.eth.implicit_header then w3 else w4) in
      let (irq, w6) = lora_reg_read_byte bus m.spid reg_irq_flags w5 in
      let finish = λ (bs : List ℕ).
        let m1 = record m {
          rx = record m.rx {
            buf = overlay bs m.rx.buf;
            size = n;
            crc = not (bit_and irq 0x20 == 0);
          };
        } in
        let (m2, w7) = lora_get_rssi_pkt m1 w6 in
        let (m3, w8) = lora_get_snr signed m2 w7 in
        some (m3, pthread_create (Callback.rx_callback m3) (lora_reset_irq_flags bus m.spid w8)) in
      if bit_and flags irq_rxdone == 0
      then some (m, w1)
      else elim got [ none ↦ none | some bs ↦ finish bs ]

  pub tx_done_isr_f : LoraCtl → World → LoraCtl × World
  tx_done_isr_f m w =
      let (flags, w1) = lora_reg_read_byte bus m.spid reg_irq_flags w in
      let (now, w2) = gettimeofday w1 in
      let m' = record m { tx = record m.tx { last_time = now } } in
      if bit_and flags irq_txdone == 0 then (m, w1) else (
        m',
        pthread_create (Callback.tx_callback m')
            (lora_set_satandby_mode bus m.spid (lora_reset_irq_flags bus m.spid w2)),
      )

  pub lora_stop_receive : LoraCtl → World → World
  lora_stop_receive m w =
      lora_set_satandby_mode bus m.spid (lora_remove_dio_isr m.eth.dio0_gpio_n w)

  pub lora_end : LoraCtl → World → LoraCtl × World
  lora_end m w = (record m { spid = negsuc 0 }, spi_close m.spid (lora_stop_receive m w))

  pub lora_sleep : LoraCtl → World → World
  lora_sleep m w = lora_set_sleep_mode bus m.spid (lora_remove_dio_isr m.eth.dio0_gpio_n w)

  pub lora_check_conn : LoraCtl → World → Bool × World
  lora_check_conn m w =
      let (v, w') = lora_reg_read_byte bus m.spid reg_sync_word w in (m.eth.sync_word == v, w')
