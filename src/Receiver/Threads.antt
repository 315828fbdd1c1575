-- ===== src/Receiver/Threads.antt =====
-- The threads of `rx_f`: the interrupt handler starts one for each packet and gives it the driver's one buffer
-- (`startRxCallback` of LoRa.c), so that a later packet can come before an earlier thread has read it.
pub mod Alone
pub mod Counting
pub mod Losing
mod Tests
use embeded_linux_gateway.Prelude.{
  ℕ, ◌+◌, ◌≡◌, Bool, true, false, Option, none, some, List, [], ◌∷◌, ◌++◌, ℤ, if◌then◌else◌,
  c_string,
}
use embeded_linux_gateway.Data.{k_lora, set_node, set_lora_msg}
use embeded_linux_gateway.Mqtt.{publish_mess}
use embeded_linux_gateway.Lora.Regs.{RxData}
use embeded_linux_gateway.Lora.Bus.{Bus}
use embeded_linux_gateway.Receiver.{Receiver, eq_ℤ, id_lora}

-- What a thread does next: `publish_mess`; `json_tokener_parse`; `json_object_object_get_ex`;
-- `json_object_get_int`; the test; the load of `countLora++`; its store, with what was loaded; the node and the
-- copy of the text; `send`.
pub data Phase : Type 0 where
  publishing parsing finding numbering testing loading : Phase
  storing : ℕ → Phase
  copying sending : Phase

module _ (bus : Bus) (parse : List ℕ → ℤ) where
  -- `rx` is `modem.rx.data`, `response` the global `checkResponse`, `threads` those that have not ended. The globals
  -- `parsed_json` and `idNode` are the texts that their objects come from.
  pub record Callbacks : Type 0 where
    pub receiver : Receiver bus parse
    pub rx : RxData
    pub parsed_json : List ℕ
    pub id_node : List ℕ
    pub response : ℤ
    pub threads : List Phase

  -- A step of a thread, and what it does after it.
  unfoldable pub advance : Phase → Callbacks → Callbacks × Option Phase
  advance publishing s = (
    record s {
      receiver = record s.receiver {
        published = publish_mess "data_lora" s.rx.buf ∷ s.receiver.published;
      };
    },
    some parsing,
  )
  advance parsing s = (record s { parsed_json = c_string s.rx.buf }, some finding)
  advance finding s = (record s { id_node = s.parsed_json }, some numbering)
  advance numbering s = (record s { response = parse s.id_node }, some testing)
  advance testing s = if eq_ℤ s.response id_lora then (s, some loading) else (s, none)
  advance loading s = (s, some (storing s.receiver.count_lora))
  advance (storing n) s =
      (record s { receiver = record s.receiver { count_lora = n + 1 } }, some copying)
  advance copying s = (
    record s {
      receiver = record s.receiver {
        bytes = set_lora_msg (c_string s.rx.buf) (set_node k_lora s.receiver.bytes);
      };
    },
    some sending,
  )
  advance sending s = (
    record s {
      receiver = record s.receiver {
        sent = (s.receiver.sockfd, s.receiver.bytes) ∷ s.receiver.sent;
      };
    },
    none,
  )

  -- The thread as it stands in the list.
  abbrev pub thread : Option Phase → List Phase
  thread none = []
  thread (some p) = p ∷ []

  -- A packet comes, after which the buffer is `rx`; or one of the threads goes on.
  pub data Step : Callbacks → Option RxData → Callbacks → Type 0 where
    arrives :
        {s : Callbacks} (rx : RxData)
        → Step s (some rx) (record s { rx = rx; threads = publishing ∷ s.threads })
    runs :
        {s : Callbacks} (xs ys : List Phase) (p : Phase)
        → s.threads ≡ xs ++ (p ∷ ys)
        → Step s none (record (advance p s).0 { threads = xs ++ (thread (advance p s).1 ++ ys) })

  -- Steps one after the other, with the packets that come, in their order.
  pub data Run (s : Callbacks) : List RxData → Callbacks → Type 0 where
    here : Run s [] s
    comes :
        {rxs : List RxData} {t u : Callbacks} (rx : RxData)
        → Run s rxs t
        → Step t (some rx) u
        → Run s (rxs ++ (rx ∷ [])) u
    goes_on : {rxs : List RxData} {t u : Callbacks} → Run s rxs t → Step t none u → Run s rxs u
