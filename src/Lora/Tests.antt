-- ===== src/Lora/Tests.antt =====
-- The driver's theorems at concrete inputs, on the simulated modem.
use embeded_linux_gateway.Prelude.{true, false, [], ◌∷◌, pos, arith, ◌==◌, if◌then◌else◌, replicate}
use embeded_linux_gateway.Lora.Regs.{
  bw62_5, sf12, cr8, op17, op20, rfo, pa_boost, ModemCfg, LoraCtl,
}
use embeded_linux_gateway.Lora.Setup.{pa_values}
use embeded_linux_gateway.Lora.Setup.Power.{output_dbm, IsPower, output_dbm-pa_values}
use embeded_linux_gateway.Lora.Radio.{lora_send}
use embeded_linux_gateway.Lora.Radio.Transmit.{IsSending, lora_send-IsSending}
use embeded_linux_gateway.Lora.Sim.{sim, sim_chip, world}

abbrev eth : ModemCfg
eth = record {
  bw = bw62_5;
  sf = sf12;
  ecr = cr8;
  freq = 433000000;
  reset_gpio_n = 4;
  dio0_gpio_n = 17;
  preamble_len = 6;
  low_data_rate_optimize = false;
  out_power = op17;
  power_out_pin = pa_boost;
  cur_rssi = pos 0;
  sync_word = 0x12;
  lna_gain = 0;
  lna_boost = false;
  agc = true;
  ocp = 240;
  implicit_header = false;
  payload_len = 0;
  crc = true;
}

-- A modem with the text "hi!" to send.
abbrev modem : LoraCtl
modem = record {
  spi_cs = 0;
  spid = pos 5;
  eth = eth;
  rx = record { buf = replicate 255 0; size = 0; snr_quarters = pos 0; rssi = pos 0; crc = false };
  tx = record {
    buf = 104 ∷ 105 ∷ 33 ∷ [];
    size = 3;
    last_time = 0;
    t_sym = record { num = 0; den = 1 };
    t_pkt = record { num = 0; den = 1 };
    payload_symb_nb = 0;
  };
}

-- The modem's registers after a reset: only the mode register matters.
abbrev boot : sim.World
boot = world (record { regs = λ q. if q == 1 then 0x09 else 0; ram = λ a. 0 })

-- A modem in standby that has received the three bytes 7, 8, 9 at address 16.
abbrev filled : sim.World
filled = world (record {
  regs = λ q.
      if q == 0x01
      then 0x81
      else if q == 0x12
      then 0x60
      else if q == 0x10
      then 16
      else if q == 0x13
      then 3
      else if q == 0x1a
      then 100
      else 0;
  ram = λ a. if a == 16 then 7 else if a == 17 then 8 else if a == 18 then 9 else 0;
})

lora_send-IsSending_example :
    IsSending modem
      ((sim_chip (pos 5)).reg boot 1)
      ((sim_chip (pos 5)).reg (lora_send sim modem boot).1)
      ((sim_chip (pos 5)).fifo (lora_send sim modem boot).1)
lora_send-IsSending_example =
    lora_send-IsSending sim modem (sim_chip (pos 5)) boot (omega arith) (omega arith)

output_dbm-pa_values_example :
    IsPower op20 rfo (output_dbm (pa_values op20 rfo).0 (pa_values op20 rfo).1)
output_dbm-pa_values_example = output_dbm-pa_values op20 rfo
