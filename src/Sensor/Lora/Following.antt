-- ===== src/Sensor/Lora/Following.antt =====
-- A packet of the LoRa node that follows another one, from the modem's interrupt to the broker.
use embeded_linux_gateway.Prelude.{
  ℕ, zero, suc, sym, append-nil, NoNul, ◌%◌, ◌≤◌, ◌<◌, ◌≡◌, refl, ◌∙◌, ap, Bool, false, some, List,
  [], ◌∷◌, ◌++◌, ◌==◌, ℤ, bit_and, length, overlay, drop, replicate, length-overlay,
  length-replicate, c_string, arith,
}
use embeded_linux_gateway.Lora.Regs.{LoraCtl}
use embeded_linux_gateway.Lora.Bus.{Bus, Chip, Callback, fifo_slice}
use embeded_linux_gateway.Lora.Radio.{rx_done_isr_f}
use embeded_linux_gateway.Lora.Radio.Interrupt.{received, received_size, rx_done_isr_f-received}
use embeded_linux_gateway.Receiver.{Receiver, rx_f}
use embeded_linux_gateway.Sensor.{Printing, NoNul-append, c_string-drop}
use embeded_linux_gateway.Sensor.Lora.{id_node, Values, packet, packet-NoNul, rx_f-packet}

-- A text that follows another one in the driver's buffer, which keeps what the new one does not reach.
abbrev pub following : List ℕ → List ℕ → List ℕ
following new old = new ++ drop (length new) old

-- The buffer holds a text, and at least one 0 behind it.
pub record IsHolding (buf text : List ℕ) : Type 0 where
  pub clean : NoNul text
  pub fits : length text < 255
  pub bytes : buf ≡ overlay text (replicate 255 0)

overlay-following :
    (new old : List ℕ) (n : ℕ)
    → length old ≤ n
    → overlay new (overlay old (replicate n 0)) ≡ overlay (following new old) (replicate n 0)
overlay-following [] old n fits = refl
overlay-following (x ∷ new) [] n fits =
    ap (λ l. overlay (x ∷ l) (replicate n 0)) (sym (append-nil new))
overlay-following (x ∷ new) (y ∷ old) zero fits = absurd (omega arith)
overlay-following (x ∷ new) (y ∷ old) (suc n) fits =
    ap (λ l. x ∷ l) (overlay-following new old n (omega arith))

length-following :
    (new old : List ℕ) (n : ℕ) → length new ≤ n → length old ≤ n → length (following new old) ≤ n
length-following [] old n h g = g
length-following (x ∷ new) [] n h g = omega (arith, ap length (append-nil new))
length-following (x ∷ new) (y ∷ old) zero h g = absurd (omega arith)
length-following (x ∷ new) (y ∷ old) (suc n) h g =
    omega (arith, length-following new old n (omega arith) (omega arith))

NoNul-following : (new old : List ℕ) → NoNul new → NoNul old → NoNul (following new old)
NoNul-following [] old h g = g
NoNul-following (x ∷ new) [] h g = NoNul-append (x ∷ new) [] h tt
NoNul-following (x ∷ new) (y ∷ old) h g = (h.0, NoNul-following new old h.1 g.1)

module _ (printing : Printing) where
  -- If the driver's buffer holds a text of at most 254 bytes and zeros behind it, as at the start with the empty one, and the modem, which
  -- is not asleep, signals that it has received a packet of the node of at most 254 bytes, then the interrupt handler
  -- starts the callback with a buffer that holds the packet, followed by what the earlier text has behind its length;
  -- and if the JSON library finds the node's id in that, it is what the callback publishes.
  pub rx_done_isr_f-following :
      (bus : Bus) (parse : List ℕ → ℤ) (signed : Bool) (m : LoraCtl) (chip : Chip bus m.spid)
      (w : bus.World) (old : List ℕ) (v : Values printing) (s : Receiver bus parse)
      → (bit_and (chip.reg w 0x12) 0x40 == 0) ≡ false
      → 0 < chip.reg w 0x01 % 8
      → received_size m (chip.reg w) < 256
      → IsHolding m.rx.buf old
      → fifo_slice (chip.fifo w) (chip.reg w 0x10) (received_size m (chip.reg w))
        ≡ packet printing v
      → length (packet printing v) < 255
      → parse (following (packet printing v) old) ≡ id_node
      → (m' : LoraCtl) × (w' : bus.World) × (rx_done_isr_f bus signed m w
          ≡ some (m', bus.pthread_create (Callback.rx_callback m') w'))
        × IsHolding m'.rx.buf (following (packet printing v) old)
        × ((rx_f bus parse m'.rx s).published
            ≡ record {
              topic = "data_lora";
              payload = following (packet printing v) old;
              qos = 1;
              retained = false;
            }
              ∷ s.published)
  rx_done_isr_f-following bus parse signed m chip w old v s done awake small held arrived fits
        parsed =
      let m' = received signed m (chip.reg w) (chip.fifo w) in
      let (w', runs, _) = rx_done_isr_f-received bus signed m chip w done awake small in
      let new = packet printing v in
      let clean = packet-NoNul printing v in
      let rest =
        ap (λ b. c_string (drop (length new) b)) held.bytes
        ∙ c_string-drop (length new) old 255 held.clean (omega (arith, held.fits)) in
      let whole = ap (λ l. new ++ l) rest in
      let room : length new ≤ length m.rx.buf = omega (
        arith,
        ap length held.bytes,
        length-overlay old (replicate 255 0),
        length-replicate {A = ℕ} 255 0,
        held.fits,
      ) in
      (
        m',
        w',
        runs,
        record {
          clean = NoNul-following new old clean held.clean;
          fits =
              omega (arith, length-following new old 254 (omega arith) (omega (arith, held.fits)));
          bytes =
              ap (λ l. overlay l m.rx.buf) arrived
              ∙ ap (overlay new) held.bytes
              ∙ overlay-following new old 255 (omega (arith, held.fits));
        },
        (rx_f-packet printing bus parse signed m (chip.reg w) (chip.fifo w) v s arrived room
              (ap parse whole ∙ parsed)).0
            ∙ ap
                (λ l.
                  record { topic = "data_lora"; payload = l; qos = 1; retained = false }
                  ∷ s.published)
                whole,
      )
