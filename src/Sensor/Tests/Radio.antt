-- ===== src/Sensor/Tests/Radio.antt =====
-- The nodes that send by radio, with the daemons that take what they send.
use embeded_linux_gateway.Prelude.{
  ℕ, some, ◌≡◌, refl, true, false, List, [], ◌∷◌, ◌++◌, ℤ, pos, arith, ◌==◌, if◌then◌else◌,
  replicate, overlay, length, take, get_or,
}
use embeded_linux_gateway.Lora.Regs.{LoraCtl}
use embeded_linux_gateway.Lora.Sim.{sim, sim_chip, world, world_reg, world_fifo}
use embeded_linux_gateway.Receiver.{Receiver, gateway_modem, rx_f, alarm, rf_listen}
use embeded_linux_gateway.Uart.{Uart}
use embeded_linux_gateway.Sensor.Lora
use embeded_linux_gateway.Sensor.Lora.Following
use embeded_linux_gateway.Lora.Bus.{Callback}
use embeded_linux_gateway.Lora.Radio.{rx_done_isr_f}
use embeded_linux_gateway.Sensor.Rf24
use embeded_linux_gateway.Sensor.Rf24.Slot
use embeded_linux_gateway.Sensor.Bluetooth
use embeded_linux_gateway.Sensor.Bluetooth.Rounds
use embeded_linux_gateway.Sensor.Tests.{printing}

abbrev warm : Rf24.Values printing
warm = record { temp = pos 30; hum = pos 60; gas = pos 12; pres = pos 99 }

abbrev node_96 : List ℕ → ℤ
node_96 text = pos 96

abbrev started : (parse : List ℕ → ℤ) → Receiver sim parse
started parse = record {
  select = 0;
  count = 0;
  count_lora = 0;
  sockfd = pos 0;
  bytes = replicate 304 0;
  modem = gateway_modem;
  published = [];
  sent = [];
  pins = λ g. 0;
  world = world (record { regs = λ q. if q == 1 then 0x09 else 0; ram = λ a. 0 });
}

-- The timer fires later.
rf_listen-round_example :
    rf_listen sim node_96
      (Slot.packets printing sim node_96 (λ d. take 32 d) (Rf24.round_data printing warm)
        ++ (alarm ∷ []))
      (started node_96)
    ≡ some (record (started node_96) {
      published =
          Rf24.heard (Rf24.pres_text printing warm)
          ∷ Rf24.heard (Rf24.gas_text printing warm)
          ∷ Rf24.heard (Rf24.hum_text printing warm)
          ∷ Rf24.heard (Rf24.temp_text printing warm)
          ∷ [];
      count = 4;
    })
rf_listen-round_example =
    Slot.rf_listen-round printing sim node_96 (λ d. take 32 d) warm (alarm ∷ []) (started node_96)
      (λ d. refl) (omega arith) (omega arith) (omega arith) (omega arith) refl refl refl refl refl

abbrev node_95 : List ℕ → ℤ
node_95 text = pos 95

-- The gas value of the second packet has one digit.
abbrev early : Lora.Values printing
early = record { temp = pos 30; hum = pos 60; gas = pos 12; pres = pos 99; rain = pos 11 }

abbrev late : Lora.Values printing
late = record { temp = pos 31; hum = pos 60; gas = pos 9; pres = pos 99; rain = pos 10 }

abbrev modem : LoraCtl
modem = record gateway_modem {
  rx = record gateway_modem.rx { buf = overlay (Lora.packet printing early) (replicate 255 0) };
}

-- The modem has received the later packet at address 0.
abbrev arrived : sim.World
arrived = world (record {
  regs = λ q.
      if q == 0x01
      then 0x85
      else if q == 0x12
      then 0x40
      else if q == 0x13
      then length (Lora.packet printing late)
      else 0;
  ram = λ a. get_or (Lora.packet printing late) a 0;
})

rx_done_isr_f-following_example :
    let text = Following.following (Lora.packet printing late) (Lora.packet printing early) in
    (m' : LoraCtl) × (w' : sim.World) × (rx_done_isr_f sim true modem arrived
      ≡ some (m', sim.pthread_create (Callback.rx_callback m') w'))
    × Following.IsHolding m'.rx.buf text
    × ((rx_f sim node_95 m'.rx (started node_95)).published
        ≡ record { topic = "data_lora"; payload = text; qos = 1; retained = false } ∷ [])
unfolding Lora.packet
rx_done_isr_f-following_example =
    Following.rx_done_isr_f-following printing sim node_95 true modem (sim_chip (pos 0)) arrived
      (Lora.packet printing early) late (started node_95) (rw (world_reg (pos 0)) refl)
      (rw (world_reg (pos 0)) (omega arith)) (rw (world_reg (pos 0)) (omega arith))
      (record { clean = Lora.packet-NoNul printing early; fits = omega arith; bytes = refl })
      (rw (world_reg (pos 0), world_reg (pos 0), world_fifo (pos 0)) refl) (omega arith) refl

abbrev node_97 : List ℕ → ℤ
node_97 text = pos 97

abbrev mild : Bluetooth.Values
mild = record { temp = pos 30; hum = pos 60; gas = pos 9; pres = pos 99 }

abbrev begun : Uart
begun = record { count = 0; published = [] }
