-- ===== src/Lora/Regs.antt =====
-- LoRa.h: the register map of the modem, the enumerations and the configuration.
use embeded_linux_gateway.Prelude.{ℕ, Bool, List, ℤ}

-- Registers.
abbrev pub reg_fifo : ℕ
reg_fifo = 0x00

abbrev pub reg_op_mode : ℕ
reg_op_mode = 0x01

abbrev pub reg_fr_msb : ℕ
reg_fr_msb = 0x06

abbrev pub reg_pa_config : ℕ
reg_pa_config = 0x09

abbrev pub reg_ocp : ℕ
reg_ocp = 0x0b

abbrev pub reg_lna : ℕ
reg_lna = 0x0c

abbrev pub reg_fifo_addr_ptr : ℕ
reg_fifo_addr_ptr = 0x0d

abbrev pub reg_fifo_tx_base_addr : ℕ
reg_fifo_tx_base_addr = 0x0e

abbrev pub reg_fifo_rx_base_addr : ℕ
reg_fifo_rx_base_addr = 0x0f

abbrev pub reg_fifo_rx_current_addr : ℕ
reg_fifo_rx_current_addr = 0x10

abbrev pub reg_irq_flags : ℕ
reg_irq_flags = 0x12

abbrev pub reg_rx_nb_bytes : ℕ
reg_rx_nb_bytes = 0x13

abbrev pub reg_pkt_snr_value : ℕ
reg_pkt_snr_value = 0x19

abbrev pub reg_pkt_rssi_value : ℕ
reg_pkt_rssi_value = 0x1a

abbrev pub reg_rssi_value : ℕ
reg_rssi_value = 0x1b

abbrev pub reg_modem_config_1 : ℕ
reg_modem_config_1 = 0x1d

abbrev pub reg_modem_config_2 : ℕ
reg_modem_config_2 = 0x1e

abbrev pub reg_preamble_msb : ℕ
reg_preamble_msb = 0x20

abbrev pub reg_payload_length : ℕ
reg_payload_length = 0x22

abbrev pub reg_modem_config_3 : ℕ
reg_modem_config_3 = 0x26

abbrev pub reg_detect_optimize : ℕ
reg_detect_optimize = 0x31

abbrev pub reg_detection_threshold : ℕ
reg_detection_threshold = 0x37

abbrev pub reg_sync_word : ℕ
reg_sync_word = 0x39

abbrev pub reg_dio_mapping_1 : ℕ
reg_dio_mapping_1 = 0x40

abbrev pub reg_pa_dac : ℕ
reg_pa_dac = 0x4d

-- Values.
abbrev pub lora_mode : ℕ
lora_mode = 0x80

abbrev pub sleep_mode : ℕ
sleep_mode = 0x00

abbrev pub stdby_mode : ℕ
stdby_mode = 0x01

abbrev pub tx_mode : ℕ
tx_mode = 0x03

abbrev pub rxcont_mode : ℕ
rxcont_mode = 0x05

abbrev pub irq_rxdone : ℕ
irq_rxdone = 0x40

abbrev pub irq_txdone : ℕ
irq_txdone = 0x08

abbrev pub tx_base_addr : ℕ
tx_base_addr = 0x00

abbrev pub rx_base_addr : ℕ
rx_base_addr = 0x00

pub data BandWidth : Type 0 where
  bw7_8 bw10_4 bw15_6 bw20_8 bw31_25 bw41_7 bw62_5 bw125 bw250 bw500 : BandWidth

-- The enumerator's value.
abbrev pub bw_code : BandWidth → ℕ
bw_code bw7_8 = 0x00
bw_code bw10_4 = 0x10
bw_code bw15_6 = 0x20
bw_code bw20_8 = 0x30
bw_code bw31_25 = 0x40
bw_code bw41_7 = 0x50
bw_code bw62_5 = 0x60
bw_code bw125 = 0x70
bw_code bw250 = 0x80
bw_code bw500 = 0x90

pub data SpreadingFactor : Type 0 where
  sf7 sf8 sf9 sf10 sf11 sf12 : SpreadingFactor

abbrev pub sf_code : SpreadingFactor → ℕ
sf_code sf7 = 0x70
sf_code sf8 = 0x80
sf_code sf9 = 0x90
sf_code sf10 = 0xa0
sf_code sf11 = 0xb0
sf_code sf12 = 0xc0

pub data ErrorCodingRate : Type 0 where
  cr5 cr6 cr7 cr8 : ErrorCodingRate

abbrev pub ecr_code : ErrorCodingRate → ℕ
ecr_code cr5 = 2
ecr_code cr6 = 4
ecr_code cr7 = 6
ecr_code cr8 = 8

pub data OutputPower : Type 0 where
  op0 op1 op2 op3 op4 op5 op6 op7 op8 op9 op10 op11 op12 op13 op14 op15 op16 op17 op20 : OutputPower

abbrev pub power_code : OutputPower → ℕ
power_code op0 = 0
power_code op1 = 1
power_code op2 = 2
power_code op3 = 3
power_code op4 = 4
power_code op5 = 5
power_code op6 = 6
power_code op7 = 7
power_code op8 = 8
power_code op9 = 9
power_code op10 = 10
power_code op11 = 11
power_code op12 = 12
power_code op13 = 13
power_code op14 = 14
power_code op15 = 15
power_code op16 = 16
power_code op17 = 17
power_code op20 = 20

pub data PowerAmplifireOutputPin : Type 0 where
  rfo pa_boost : PowerAmplifireOutputPin

abbrev pub pa_code : PowerAmplifireOutputPin → ℕ
pa_code rfo = 0x70
pa_code pa_boost = 0xf0

-- `freq` is a `double` in the source. It is a whole number of Hz here, as every caller gives it.
-- `lna_gain` is the number of the enumerator, since a caller may leave it at 0, which names none.
pub record ModemCfg : Type 0 where
  pub bw : BandWidth
  pub sf : SpreadingFactor
  pub ecr : ErrorCodingRate
  pub freq : ℕ
  pub reset_gpio_n : ℕ
  pub dio0_gpio_n : ℕ
  pub preamble_len : ℕ
  pub low_data_rate_optimize : Bool
  pub out_power : OutputPower
  pub power_out_pin : PowerAmplifireOutputPin
  pub cur_rssi : ℤ
  pub sync_word : ℕ
  pub lna_gain : ℕ
  pub lna_boost : Bool
  pub agc : Bool
  pub ocp : ℕ
  pub implicit_header : Bool
  pub payload_len : ℕ
  pub crc : Bool

-- A `double` that the code computes by `*`, `/` and `+` from whole numbers, as an exact fraction.
pub record Frac : Type 0 where
  pub num : ℕ
  pub den : ℕ

pub record TxData : Type 0 where
  pub buf : List ℕ
  pub size : ℕ
  pub last_time : ℕ
  pub t_sym : Frac
  pub t_pkt : Frac
  pub payload_symb_nb : ℕ

-- `snr_quarters` is the field `SNR` in quarters of a dB.
pub record RxData : Type 0 where
  pub buf : List ℕ
  pub size : ℕ
  pub snr_quarters : ℤ
  pub rssi : ℤ
  pub crc : Bool

pub record LoraCtl : Type 0 where
  pub spi_cs : ℕ
  pub spid : ℤ
  pub eth : ModemCfg
  pub rx : RxData
  pub tx : TxData
