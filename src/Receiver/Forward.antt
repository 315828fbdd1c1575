-- ===== src/Receiver/Forward.antt =====
-- The way of a LoRa message: from the receiver's callback to the server, as data.h lays it out, and from
-- there to the broker.
use embeded_linux_gateway.Prelude.{
  ℕ, zero, suc, ◌+◌, ◌<◌, ◌≡◌, refl, sym, false, some, List, [], ◌∷◌, ℤ, pos, arith, c_string,
  length, overlay, drop, get_or, NoNul, ap, ◌∙◌,
}
use embeded_linux_gateway.Mqtt.{publish_mess}
use embeded_linux_gateway.Data.{
  k_lora, node_of, sizeof_data, set_node_lem, node_of-set_lora_msg, length-set_lora_msg, set_node,
  set_lora_msg, lora_msg, uart_msg, lora_msg-set_lora_msg, uart_msg-set_lora_msg,
}
use embeded_linux_gateway.Lora.Regs.{RxData}
use embeded_linux_gateway.Lora.Bus.{Bus}
use embeded_linux_gateway.Receiver.{Receiver, rx_f, id_lora}
use embeded_linux_gateway.Server.{Server, Answers, max_fds, poll, round}
use embeded_linux_gateway.Server.Rounds.{Only, round-got}

c_string-NoNul : (l : List ℕ) → NoNul (c_string l)
c_string-NoNul [] = tt
c_string-NoNul (zero ∷ l) = tt
c_string-NoNul (suc c ∷ l) = (omega arith, c_string-NoNul l)

overlay-same : (xs ys : List ℕ) → length xs ≡ length ys → overlay xs ys ≡ xs
overlay-same [] [] h = refl
overlay-same [] (y ∷ ys) h = absurd (omega arith)
overlay-same (x ∷ xs) [] h = absurd (omega arith)
overlay-same (x ∷ xs) (y ∷ ys) h = ap (λ t. x ∷ t) (overlay-same xs ys (omega arith))

-- What `rx_f` sends for a packet.
abbrev pub datagram : RxData → List ℕ → List ℕ
datagram rx bytes = set_lora_msg (c_string rx.buf) (set_node k_lora bytes)

datagram_lem :
    (rx : RxData) (bytes : List ℕ)
    → length bytes ≡ sizeof_data
    → (length (datagram rx bytes) ≡ sizeof_data) × (node_of (datagram rx bytes) ≡ 1)
datagram_lem rx bytes whole =
    let (node, size, name) = set_node_lem k_lora bytes whole in
    (
      length-set_lora_msg (c_string rx.buf) (set_node k_lora bytes) ∙ size,
      node_of-set_lora_msg (c_string rx.buf) (set_node k_lora bytes) size ∙ node,
    )

module _ (bus : Bus) (parse : List ℕ → ℤ) where
  -- For a packet whose text has the "id" of the LoRa nodes, in the driver's buffer of 255 bytes with a 0
  -- among them, `rx_f` publishes the text, counts it, and sends one message to the server: a whole `struct Data`
  -- of the node `kLora` that holds the text in `lora.msg`.
  pub rx_f-sends :
      (rx : RxData) (s : Receiver bus parse)
      → parse (c_string rx.buf) ≡ pos id_lora
      → length rx.buf ≡ 255
      → length (c_string rx.buf) < 255
      → length s.bytes ≡ sizeof_data
      → let t = rx_f bus parse rx s in
        (d : List ℕ) × (t.sent ≡ (s.sockfd, d) ∷ s.sent)
        × (length d ≡ sizeof_data)
        × (node_of d ≡ 1)
        × (lora_msg d ≡ c_string rx.buf)
        × (t.published ≡ publish_mess "data_lora" rx.buf ∷ s.published)
        × (t.count_lora ≡ s.count_lora + 1)
  unfolding rx_f
  rx_f-sends rx s id size ended whole =
      let (kept, node) = datagram_lem rx s.bytes whole in
      rw id (
        datagram rx s.bytes,
        refl,
        kept,
        node,
        lora_msg-set_lora_msg (c_string rx.buf) (set_node k_lora s.bytes) (c_string-NoNul rx.buf)
            ((set_node_lem k_lora s.bytes whole).1) (omega arith),
        refl,
        refl,
      )

-- The string at `uart.msg` in what `rx_f` sends.
datagram-empty :
    (rx : RxData) (bytes : List ℕ)
    → length bytes ≡ sizeof_data
    → get_or bytes 8 1 ≡ 0
    → c_string (drop 8 (datagram rx bytes)) ≡ []
unfolding uart_msg
datagram-empty rx bytes whole empty =
    let (node, size, name) = set_node_lem k_lora bytes whole in
    uart_msg-set_lora_msg (c_string rx.buf) (set_node k_lora bytes) size (name ∙ empty)

-- The same message at the server, from the one client that is ready: if the device name in the message
-- is empty, then the server publishes it on `data_lora` with an empty payload,
-- for it reads `uart.msg`.
pub round-datagram :
    (rx : RxData) (bytes : List ℕ) (i : ℕ) (a : Answers) (s : Server)
    → length bytes ≡ sizeof_data
    → get_or bytes 8 1 ≡ 0
    → length s.bytes ≡ sizeof_data
    → 0 < i
    → i < s.nfds
    → s.nfds < max_fds
    → Only i (poll a s)
    → a.received i ≡ some (datagram rx bytes)
    → (t : Server) × (round a s ≡ some t)
      × (t.published
          ≡ record { topic = "data_lora"; payload = []; qos = 1; retained = false } ∷ s.published)
unfolding publish_mess
round-datagram rx bytes i a s whole empty room p h g only got =
    let (kept, node) = datagram_lem rx bytes whole in
    let (t, e, held, count, out) = round-got i (datagram rx bytes) a s p h g only got in
    (
      t,
      e,
      out
          ∙ rw
              (
                overlay-same (datagram rx bytes) s.bytes (kept ∙ sym room),
                node,
                datagram-empty rx bytes whole empty,
              )
              refl,
    )
