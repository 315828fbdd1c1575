-- ===== src/Sensor/Lora.antt =====
-- src/node/Lora_transmister/Lora_transmister.ino: the node whose packets the receiver daemon takes by LoRa. The
-- reading of the sensors, around which the file has marks of a merge, is left out: the values are an input.
pub mod Following
use embeded_linux_gateway.Prelude.{
  ℕ, ◌+◌, ◌≤◌, ◌≡◌, refl, ◌∙◌, ap, Bool, false, List, [], ◌∷◌, ◌++◌, ℤ, pos, length, overlay, drop,
  replicate, length-overlay, length-replicate, c_string, NoNul, arith,
}
use embeded_linux_gateway.Server.{codes}
use embeded_linux_gateway.Mqtt.{publish_mess}
use embeded_linux_gateway.Lora.Regs.{LoraCtl}
use embeded_linux_gateway.Lora.Bus.{Bus, fifo_slice}
use embeded_linux_gateway.Lora.Radio.Interrupt.{received, received_size}
use embeded_linux_gateway.Receiver.{Receiver, rx_f}
use embeded_linux_gateway.Sensor.{
  Printing, joined, joined-NoNul, has_no_nul-NoNul, c_string-overlay, c_string-drop,
}

abbrev pub id_node : ℤ
id_node = pos 95

module _ (printing : Printing) where
  open printing use {Float, show, show_float}

  -- The values of one round of `loop`.
  pub record Values : Type 0 where
    pub temp : Float
    pub hum : Float
    pub gas : ℤ
    pub pres : Float
    pub rain : ℤ

  abbrev pub pieces : Values → List (List ℕ)
  pieces v =
      codes "{\"id\":"
      ∷ show id_node
      ∷ codes ",\"t\":\""
      ∷ show_float v.temp
      ∷ codes "\",\"h\":\""
      ∷ show_float v.hum
      ∷ codes "\",\"g\":"
      ∷ show v.gas
      ∷ codes ",\"p\":"
      ∷ show_float v.pres
      ∷ codes ",\"r\":"
      ∷ show v.rain
      ∷ codes "}"
      ∷ codes "\r\n"
      ∷ []

  -- The packet: `stringData` with the end that `println` gives it.
  unfoldable pub packet : Values → List ℕ
  packet v = joined (pieces v)

  pub packet-NoNul : (v : Values) → NoNul (packet v)
  unfolding packet
  packet-NoNul v = joined-NoNul (pieces v) (
    has_no_nul-NoNul (codes "{\"id\":") refl,
    (
      printing.show-NoNul id_node,
      (
        has_no_nul-NoNul (codes ",\"t\":\"") refl,
        (
          printing.show_float-NoNul v.temp,
          (
            has_no_nul-NoNul (codes "\",\"h\":\"") refl,
            (
              printing.show_float-NoNul v.hum,
              (
                has_no_nul-NoNul (codes "\",\"g\":") refl,
                (
                  printing.show-NoNul v.gas,
                  (
                    has_no_nul-NoNul (codes ",\"p\":") refl,
                    (
                      printing.show_float-NoNul v.pres,
                      (
                        has_no_nul-NoNul (codes ",\"r\":") refl,
                        (
                          printing.show-NoNul v.rain,
                          (
                            has_no_nul-NoNul (codes "}") refl,
                            (has_no_nul-NoNul (codes "\r\n") refl, tt),
                          ),
                        ),
                      ),
                    ),
                  ),
                ),
              ),
            ),
          ),
        ),
      ),
    ),
  )

  -- If the modem's FIFO holds a packet of the node, and the JSON library finds the node's id in the string in the driver's
  -- buffer, then the callback publishes the packet, and after it what the buffer held behind it of earlier
  -- packets, up to the first 0; it counts the packet.
  pub rx_f-packet :
      (bus : Bus) (parse : List ℕ → ℤ) (signed : Bool) (m : LoraCtl) (r fifo : ℕ → ℕ) (v : Values)
      (s : Receiver bus parse)
      → fifo_slice fifo (r 0x10) (received_size m r) ≡ packet v
      → length (packet v) ≤ length m.rx.buf
      → parse (packet v ++ c_string (drop (length (packet v)) m.rx.buf)) ≡ id_node
      → let t = rx_f bus parse (received signed m r fifo).rx s in
        (t.published
          ≡ record {
            topic = "data_lora";
            payload = packet v ++ c_string (drop (length (packet v)) m.rx.buf);
            qos = 1;
            retained = false;
          }
            ∷ s.published)
        × (t.count_lora ≡ s.count_lora + 1)
  unfolding rx_f publish_mess
  rx_f-packet bus parse signed m r fifo v s arrived fits parsed =
      let text : c_string (overlay (fifo_slice fifo (r 0x10) (received_size m r)) m.rx.buf)
          ≡ packet v ++ c_string (drop (length (packet v)) m.rx.buf) =
        ap (λ l. c_string (overlay l m.rx.buf)) arrived
        ∙ c_string-overlay (packet v) m.rx.buf (packet-NoNul v) fits in
      rw (text, parsed) (refl, refl)
