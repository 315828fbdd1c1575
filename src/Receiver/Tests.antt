-- ===== src/Receiver/Tests.antt =====
-- The receiver's theorems at concrete inputs, on the simulated modem and with a stand-in for the parser.
use embeded_linux_gateway.Prelude.{
  ℕ, ◌+◌, ◌≡◌, ◌<◌, refl, true, false, some, List, [], ◌∷◌, ℤ, pos, negsuc, ◌==◌, arith,
  if◌then◌else◌, replicate, length, c_string, overlay,
}
use embeded_linux_gateway.Data.{sizeof_data, node_of, lora_msg}
use embeded_linux_gateway.Mqtt.{publish_mess}
use embeded_linux_gateway.Server.{Server, Answers, poll, round}
use embeded_linux_gateway.Server.Rounds.{Only}
use embeded_linux_gateway.Lora.Regs.{RxData}
use embeded_linux_gateway.Lora.Sim.{sim, world}
use embeded_linux_gateway.Receiver.{
  Receiver, rf_event, rf_packet, timer_handler, gateway_eth, leave_rf, set_pin, set_channel,
  timer_handler_lora, packet, alarm, alarm_lora, gateway_modem, rf_listen, tune, pass, rx_f,
}
use embeded_linux_gateway.Receiver.Listening.{Published, rf_listen-Published}
use embeded_linux_gateway.Receiver.Pins.{boot, further, levels, wiring, Reachable-wiring, pass-ends}
use embeded_linux_gateway.Lora.Sim.{sim_chip}
use embeded_linux_gateway.Lora.Radio.Session.{IsReceiving}
use embeded_linux_gateway.Receiver.Start.{first_state, main_start, set_outputs}
use embeded_linux_gateway.Receiver.Slots.{Reachable-receives}
use embeded_linux_gateway.Receiver.Forward.{datagram, rx_f-sends, round-datagram}

-- The id that a message is to have stands in its first byte.
abbrev first_byte : List ℕ → ℤ
first_byte [] = negsuc 0
first_byte (c ∷ s) = pos c

abbrev started : Receiver sim first_byte
started = record {
  select = 0;
  count = 0;
  count_lora = 0;
  sockfd = pos 0;
  bytes = replicate 304 0;
  modem = gateway_modem;
  published = [];
  sent = [];
  pins = λ g. 0;
  world = world (record { regs = λ q. if q == 1 then 0x09 else 0; ram = λ a. 0 });
}

-- A packet with the id of the LoRa nodes.
abbrev reading : RxData
reading = record {
  buf = 95 ∷ 33 ∷ replicate 253 0;
  size = 2;
  snr_quarters = pos 40;
  rssi = negsuc 63;
  crc = false;
}

abbrev waited : Receiver sim first_byte
waited = record started {
  published = publish_mess "data_rf" (overlay (96 ∷ 49 ∷ []) (replicate 50 0)) ∷ [];
  count = 6;
}

rf_listen-Published_example : Published sim first_byte 4 started waited
unfolding rf_listen rf_event rf_packet timer_handler
rf_listen-Published_example =
    rf_listen-Published sim first_byte (packet (96 ∷ 49 ∷ []) ∷ packet (95 ∷ []) ∷ alarm ∷ [])
      started waited refl

abbrev relayed : Receiver sim first_byte
relayed = timer_handler_lora sim first_byte (rx_f sim first_byte reading started)

-- The state in slot 1.
abbrev second : Receiver sim first_byte
second = record started { select = 1 }

Reachable-wiring_example :
    (1 < 6) × (0 < 1 → levels sim first_byte (tune sim first_byte second) ≡ wiring 1)
unfolding pass
Reachable-wiring_example =
    Reachable-wiring sim first_byte {s = started} {t = second} refl (further [] [] boot refl)

pass-ends_example :
    (t : Receiver sim first_byte) × (pass sim first_byte (alarm ∷ []) (alarm_lora ∷ []) second
      ≡ some t)
pass-ends_example = pass-ends sim first_byte [] [] [] [] second

-- The daemon at the start of its loop, and after its passes in the slots 0 and 1.
abbrev begun : Receiver sim first_byte
begun = first_state sim first_byte (λ g. 0) started.world

abbrev third : Receiver sim first_byte
third =
    record (leave_rf sim first_byte
      (timer_handler sim first_byte (tune sim first_byte (record begun { select = 1 })))) {
        select = 2;
      }

Reachable-receives_example :
    IsReceiving gateway_eth false ((sim_chip (pos 5)).reg (tune sim first_byte third).world)
unfolding main_start set_outputs pass rf_listen rf_event timer_handler tune leave_rf set_pin
    set_channel sim
Reachable-receives_example =
    Reachable-receives sim first_byte true (λ g. 0) started.world (pos 5) (sim_chip (pos 5))
      {s = begun} {t = third} refl (further (alarm ∷ []) [] (further [] [] boot refl) refl) refl
      refl refl refl

rx_f-sends_example :
    let t = rx_f sim first_byte reading started in
    (d : List ℕ) × (t.sent ≡ (started.sockfd, d) ∷ started.sent)
    × (length d ≡ sizeof_data)
    × (node_of d ≡ 1)
    × (lora_msg d ≡ c_string reading.buf)
    × (t.published ≡ publish_mess "data_lora" reading.buf ∷ started.published)
    × (t.count_lora ≡ started.count_lora + 1)
rx_f-sends_example = rx_f-sends sim first_byte reading started refl refl (omega arith) refl

-- The receiver is the one client of the server, and has sent its message.
abbrev serving : Server
serving = record {
  poll_fds = λ j. record { fd = pos (3 + j); pollin = false };
  nfds = 2;
  bytes = replicate 304 0;
  published = [];
  closed = [];
}

abbrev arrived : Answers
arrived = record {
  ready = λ j. j == 1;
  accepted = λ _. negsuc 0;
  received = λ _. some (datagram reading (replicate 304 0));
}

Only-arrived : Only 1 (poll arrived serving)
unfolding poll
Only-arrived = (refl, λ j h. ground arith)

round-datagram_example :
    (t : Server) × (round arrived serving ≡ some t)
    × (t.published ≡ record { topic = "data_lora"; payload = []; qos = 1; retained = false } ∷ [])
round-datagram_example =
    round-datagram reading (replicate 304 0) 1 arrived serving refl refl refl (omega arith)
      (omega arith) (omega arith) Only-arrived refl
