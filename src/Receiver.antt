-- ===== src/Receiver.antt =====
-- src/service_user_space/client_SPI_Lora_RF24/Lora_RF24/RPI_Receive/lora_rf24_receive.cpp: the daemon
-- that listens in turn to the LoRa modems and the RF24 radios behind a multiplexer.
pub mod Listening
pub mod Relaying
pub mod Passes
pub mod Pins
pub mod Start
pub mod Slots
pub mod Forward
pub mod Threads
mod Tests
use embeded_linux_gateway.Prelude.{
  ℕ, zero, suc, ◌+◌, ◌%◌, Bool, true, false, Option, none, some, List, [], ◌∷◌, ℤ, pos, ltb, ◌==◌,
  if◌then◌else◌, c_string, replicate, overlay,
}
use embeded_linux_gateway.Data.{k_lora, set_node, set_lora_msg}
use embeded_linux_gateway.Mqtt.{Message, publish_mess}
use embeded_linux_gateway.Lora.Regs.{
  bw62_5, sf7, cr8, op20, pa_boost, ModemCfg, RxData, TxData, LoraCtl,
}
use embeded_linux_gateway.Lora.Bus.{Bus}
use embeded_linux_gateway.Lora.Radio.{lora_begin, lora_receive, lora_end}

abbrev pub id_lora : ℕ
id_lora = 95

abbrev pub id_rf24 : ℕ
id_rf24 = 96

abbrev pub gpio_a : ℕ
gpio_a = 16

abbrev pub gpio_b : ℕ
gpio_b = 20

abbrev pub gpio_c : ℕ
gpio_c = 21

abbrev pub gpio_26 : ℕ
gpio_26 = 5

-- `x == n` for an `int` and a constant.
abbrev pub eq_ℤ : ℤ → ℕ → Bool
eq_ℤ (pos a) n = a == n
eq_ℤ _ n = false

-- `modem`, as `main` fills it in; what it leaves alone is 0.
abbrev pub gateway_eth : ModemCfg
gateway_eth = record {
  bw = bw62_5;
  sf = sf7;
  ecr = cr8;
  freq = 433000000;
  reset_gpio_n = 4;
  dio0_gpio_n = 17;
  preamble_len = 6;
  low_data_rate_optimize = false;
  out_power = op20;
  power_out_pin = pa_boost;
  cur_rssi = pos 0;
  sync_word = 0x12;
  lna_gain = 0;
  lna_boost = false;
  agc = true;
  ocp = 240;
  implicit_header = false;
  payload_len = 0;
  crc = false;
}

abbrev pub gateway_modem : LoraCtl
gateway_modem = record {
  spi_cs = 0;
  spid = pos 0;
  eth = gateway_eth;
  rx = record { buf = replicate 255 0; size = 0; snr_quarters = pos 0; rssi = pos 0; crc = false };
  tx = record {
    buf = [];
    size = 0;
    last_time = 0;
    t_sym = record { num = 0; den = 1 };
    t_pkt = record { num = 0; den = 1 };
    payload_symb_nb = 0;
  };
}

-- What happens while the daemon waits in an RF24 slot: the radio has a packet; the timer fires; or the
-- timer fires in the middle of the handling of a packet, between the load and the store of `count++`
-- if there is one.
pub data RfEvent : Type 0 where
  packet alarmed_packet : List ℕ → RfEvent
  alarm : RfEvent

-- The same in a LoRa slot, where the packet comes by the callback.
pub data LoraEvent : Type 0 where
  message alarmed_message : RxData → LoraEvent
  alarm_lora : LoraEvent

-- The slots of the RF24 radios, and of the LoRa modems.
abbrev pub is_rf : ℕ → Bool
is_rf k = if k == 1 then true else if k == 3 then true else k == 5

abbrev pub is_lora : ℕ → Bool
is_lora k = if k == 2 then true else k == 4

-- `parse` stands for `json_tokener_parse`, `json_object_object_get_ex` of "id" and
-- `json_object_get_int`, on the string that it is given.
module _ (bus : Bus) (parse : List ℕ → ℤ) where
  open bus use {World, gpio_write}

  -- The globals and what the daemon has done: `pins` are the levels that it wrote, `sent` the
  -- descriptor and the bytes of each `send`, the latest first. `sockfd` is never assigned.
  pub record Receiver : Type 0 where
    pub select : ℕ
    pub count : ℕ
    pub count_lora : ℕ
    pub sockfd : ℤ
    pub bytes : List ℕ
    pub modem : LoraCtl
    pub published : List Message
    pub sent : List (ℤ × List ℕ)
    pub pins : ℕ → ℕ
    pub world : World

  unfoldable pub timer_handler : Receiver → Receiver
  timer_handler s = record s { count = 6 }

  unfoldable pub timer_handler_lora : Receiver → Receiver
  timer_handler_lora s = record s { count_lora = 3 }

  -- The callback for a LoRa packet.
  unfoldable pub rx_f : RxData → Receiver → Receiver
  rx_f rx s =
      let s1 = record s { published = publish_mess "data_lora" rx.buf ∷ s.published } in
      let d = set_lora_msg (c_string rx.buf) (set_node k_lora s.bytes) in
      if eq_ℤ (parse (c_string rx.buf)) id_lora
      then record s1 { count_lora = s.count_lora + 1; bytes = d; sent = (s.sockfd, d) ∷ s.sent }
      else s1

  -- The body of `while (count < 4)` when the radio has a packet, read into the zeroed `nrfbuff[50]`.
  unfoldable pub rf_packet : List ℕ → Receiver → Receiver
  rf_packet bs s =
      let nrfbuff = overlay bs (replicate 50 0) in
      if eq_ℤ (parse (c_string nrfbuff)) id_rf24
      then record s {
        published = publish_mess "data_rf" nrfbuff ∷ s.published;
        count = s.count + 1;
      }
      else s

  -- A `count++` that the handler interrupts stores the old count plus one; else the handler's 6 stays.
  unfoldable pub rf_event : RfEvent → Receiver → Receiver
  rf_event (packet bs) s = rf_packet bs s
  rf_event (alarmed_packet bs) s =
      let t = rf_packet bs s in if t.count == s.count then timer_handler t else t
  rf_event alarm s = timer_handler s

  unfoldable pub lora_event : LoraEvent → Receiver → Receiver
  lora_event (message rx) s = rx_f rx s
  lora_event (alarmed_message rx) s =
      let t = rx_f rx s in if t.count_lora == s.count_lora then timer_handler_lora t else t
  lora_event alarm_lora s = timer_handler_lora s

  -- `while (count < 4)` over the events to come; `none` is a wait that the events do not end.
  unfoldable pub rf_listen : List RfEvent → Receiver → Option Receiver
  rf_listen [] s = if ltb s.count 4 then none else some s
  rf_listen (e ∷ es) s =
      let rest = rf_listen es (rf_event e s) in if ltb s.count 4 then rest else some s

  -- `while (1) { if (countLora > 2) break; }`.
  unfoldable pub lora_listen : List LoraEvent → Receiver → Option Receiver
  lora_listen [] s = if ltb 2 s.count_lora then some s else none
  lora_listen (e ∷ es) s =
      let rest = lora_listen es (lora_event e s) in if ltb 2 s.count_lora then some s else rest

  unfoldable pub set_pin : ℕ → ℕ → Receiver → Receiver
  set_pin g v s = record s {
    pins = λ h. if h == g then v else s.pins h;
    world = gpio_write g v s.world;
  }

  -- The channel pins.
  unfoldable pub set_channel : ℕ → ℕ → ℕ → Receiver → Receiver
  set_channel a b c s = set_pin gpio_c c (set_pin gpio_b b (set_pin gpio_a a s))

  unfoldable pub start_lora : Receiver → Receiver
  start_lora s =
      let (ret, m, w) = lora_begin bus s.modem s.world in
      let (m', w') = lora_receive bus m w in record s { modem = m'; world = w' }

  unfoldable pub end_lora : Receiver → Receiver
  end_lora s =
      let (m, w) = lora_end bus s.modem s.world in record s { count_lora = 0; modem = m; world = w }

  -- The state in which the slot of `select` listens.
  unfoldable pub tune : Receiver → Receiver
  tune s =
      if s.select == 1
      then set_pin gpio_26 1 (set_channel 1 1 1 s)
      else if s.select == 2
      then start_lora (set_pin gpio_26 0 (set_channel 1 0 0 s))
      else if s.select == 3
      then set_channel 1 1 0 s
      else if s.select == 4
      then start_lora (set_pin gpio_26 0 (set_channel 0 1 0 s))
      else if s.select == 5
      then set_channel 1 0 1 s
      else s

  -- After an RF24 slot, and after a LoRa slot.
  unfoldable pub leave_rf : Receiver → Receiver
  leave_rf s = set_pin gpio_26 0 (record s { count = 0 })

  unfoldable pub leave_lora : Receiver → Receiver
  leave_lora s = set_pin gpio_26 1 (end_lora s)

  -- One pass of `while (1)`, with the events of an RF24 slot or of a LoRa slot.
  unfoldable pub pass : List RfEvent → List LoraEvent → Receiver → Option Receiver
  pass es fs s =
      let next = λ (t : Receiver). some (record t { select = (t.select + 1) % 6 }) in
      if is_rf s.select
      then elim (rf_listen es (tune s)) [ none ↦ none | some t ↦ next (leave_rf t) ]
      else if is_lora s.select
      then elim (lora_listen fs (tune s)) [ none ↦ none | some t ↦ next (leave_lora t) ]
      else next s
