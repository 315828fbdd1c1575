-- ===== src/Receiver/Threads/Tests.antt =====
-- The theorems on the callback's threads at concrete runs, with a stand-in for the parser.
use embeded_linux_gateway.Prelude.{
  ℕ, ◌+◌, ◌≤◌, ◌≡◌, refl, c_string, false, List, [], ◌∷◌, ◌++◌, ℤ, pos, negsuc, replicate, length,
}
use embeded_linux_gateway.Data.{k_lora, set_node, set_lora_msg}
use embeded_linux_gateway.Mqtt.{publish_mess}
use embeded_linux_gateway.Lora.Regs.{RxData}
use embeded_linux_gateway.Lora.Sim.{sim, world}
use embeded_linux_gateway.Receiver.{Receiver, gateway_modem, rx_f}
use embeded_linux_gateway.Receiver.Threads.{
  publishing, parsing, finding, numbering, testing, loading, storing, copying, sending, Callbacks,
  advance, Run, here, comes, goes_on, arrives, runs,
}
use embeded_linux_gateway.Receiver.Threads.Alone.{all_rx_f, Run-all_rx_f}
use embeded_linux_gateway.Receiver.Threads.Counting.{Run-overtaken}
use embeded_linux_gateway.Receiver.Threads.Losing.{Run-published, Run-lost}

-- The id that a message is to have stands in its first byte.
abbrev first_byte : List ℕ → ℤ
first_byte [] = negsuc 0
first_byte (c ∷ s) = pos c

abbrev started : Receiver sim first_byte
started = record {
  select = 2;
  count = 0;
  count_lora = 0;
  sockfd = pos 0;
  bytes = replicate 304 0;
  modem = gateway_modem;
  published = [];
  sent = [];
  pins = λ g. 0;
  world = world (record { regs = λ q. 0; ram = λ a. 0 });
}

-- A packet of the node, and one of another.
abbrev reading : RxData
reading = record {
  buf = 95 ∷ 33 ∷ replicate 253 0;
  size = 2;
  snr_quarters = pos 40;
  rssi = negsuc 63;
  crc = false;
}

abbrev foreign : RxData
foreign = record {
  buf = 7 ∷ 33 ∷ replicate 253 0;
  size = 2;
  snr_quarters = pos 40;
  rssi = negsuc 63;
  crc = false;
}

abbrev idle : Callbacks sim first_byte
idle = record {
  receiver = started;
  rx = gateway_modem.rx;
  parsed_json = [];
  id_node = [];
  response = pos 0;
  threads = [];
}

abbrev ended : Callbacks sim first_byte
ended = record {
  receiver = rx_f sim first_byte reading started;
  rx = reading;
  parsed_json = c_string reading.buf;
  id_node = c_string reading.buf;
  response = pos 95;
  threads = [];
}

alone : Run sim first_byte idle (reading ∷ []) ended
unfolding advance rx_f
alone =
    goes_on
      (goes_on
        (goes_on
          (goes_on
            (goes_on
              (goes_on
                (goes_on
                  (goes_on
                    (goes_on (comes reading here (arrives reading)) (runs [] [] publishing refl))
                    (runs [] [] parsing refl))
                  (runs [] [] finding refl))
                (runs [] [] numbering refl))
              (runs [] [] testing refl))
            (runs [] [] loading refl))
          (runs [] [] (storing 0) refl))
        (runs [] [] copying refl))
      (runs [] [] sending refl)

Run-all_rx_f_example : ended.receiver ≡ all_rx_f sim first_byte (reading ∷ []) started
unfolding alone
Run-all_rx_f_example = Run-all_rx_f sim first_byte {s = idle} {t = ended} alone (tt, refl) refl refl

-- Both packets have come before a thread has run.
abbrev late : Callbacks sim first_byte
late = record idle { rx = foreign; threads = publishing ∷ publishing ∷ [] }

abbrev twice : Callbacks sim first_byte
twice = record {
  receiver = record started {
    published = publish_mess "data_lora" foreign.buf ∷ publish_mess "data_lora" foreign.buf ∷ [];
  };
  rx = foreign;
  parsed_json = c_string foreign.buf;
  id_node = c_string foreign.buf;
  response = pos 7;
  threads = [];
}

overtaking : Run sim first_byte late [] twice
unfolding advance
overtaking =
    goes_on
      (goes_on
        (goes_on
          (goes_on
            (goes_on
              (goes_on
                (goes_on
                  (goes_on
                    (goes_on (goes_on here (runs (publishing ∷ []) [] publishing refl))
                      (runs [] (parsing ∷ []) publishing refl))
                    (runs [] (parsing ∷ []) parsing refl))
                  (runs (finding ∷ []) [] parsing refl))
                (runs [] (finding ∷ []) finding refl))
              (runs (numbering ∷ []) [] finding refl))
            (runs [] (numbering ∷ []) numbering refl))
          (runs (testing ∷ []) [] numbering refl))
        (runs [] (testing ∷ []) testing refl))
      (runs [] [] testing refl)

Run-overtaken_example :
    twice.receiver.published ≡ replicate 2 (publish_mess "data_lora" foreign.buf) ++ []
Run-overtaken_example = Run-overtaken sim first_byte {s = late} {t = twice} overtaking refl

-- Both threads load the counter before one stores it.
abbrev lost : Callbacks sim first_byte
lost =
    let text = set_lora_msg (c_string reading.buf) (set_node k_lora started.bytes) in
    let again = set_lora_msg (c_string reading.buf) (set_node k_lora text) in
    record {
      receiver = record started {
        count_lora = 1;
        bytes = again;
        published =
            publish_mess "data_lora" reading.buf ∷ publish_mess "data_lora" reading.buf ∷ [];
        sent = (pos 0, again) ∷ (pos 0, text) ∷ [];
      };
      rx = reading;
      parsed_json = c_string reading.buf;
      id_node = c_string reading.buf;
      response = pos 95;
      threads = [];
    }

both : Run sim first_byte idle (reading ∷ reading ∷ []) lost
unfolding advance
both =
    goes_on
      (goes_on
        (goes_on
          (goes_on
            (goes_on
              (goes_on
                (goes_on
                  (goes_on
                    (goes_on
                      (goes_on
                        (goes_on
                          (goes_on
                            (goes_on
                              (goes_on
                                (goes_on
                                  (goes_on
                                    (goes_on
                                      (goes_on
                                        (comes reading (comes reading here (arrives reading))
                                          (arrives reading))
                                        (runs [] (publishing ∷ []) publishing refl))
                                      (runs (parsing ∷ []) [] publishing refl))
                                    (runs [] (parsing ∷ []) parsing refl))
                                  (runs (finding ∷ []) [] parsing refl))
                                (runs [] (finding ∷ []) finding refl))
                              (runs (numbering ∷ []) [] finding refl))
                            (runs [] (numbering ∷ []) numbering refl))
                          (runs (testing ∷ []) [] numbering refl))
                        (runs [] (testing ∷ []) testing refl))
                      (runs (loading ∷ []) [] testing refl))
                    (runs [] (loading ∷ []) loading refl))
                  (runs ((storing 0) ∷ []) [] loading refl))
                (runs [] ((storing 0) ∷ []) (storing 0) refl))
              (runs [] ((storing 0) ∷ []) copying refl))
            (runs [] ((storing 0) ∷ []) sending refl))
          (runs [] [] (storing 0) refl))
        (runs [] [] copying refl))
      (runs [] [] sending refl)

Run-published_example :
    (length lost.receiver.published ≡ length idle.receiver.published + 2)
    × (lost.receiver.count_lora + length idle.receiver.sent
        ≤ idle.receiver.count_lora + length lost.receiver.sent)
Run-published_example =
    Run-published sim first_byte {s = idle} {t = lost} {rxs = reading ∷ reading ∷ []} both refl refl

Run-lost_example :
    (t : Callbacks sim first_byte) × Run sim first_byte
      (record idle { threads = loading ∷ loading ∷ [] })
      []
      t
    × (t.threads ≡ [])
    × (t.receiver.count_lora ≡ 1)
    × (length t.receiver.sent ≡ 2)
Run-lost_example = Run-lost sim first_byte (record idle { threads = loading ∷ loading ∷ [] }) refl
