-- ===== src/Sensor/Rf24/Slot.antt =====
-- A round of the RF24 node that comes while the receiver daemon waits in an RF24 slot.
use embeded_linux_gateway.Prelude.{
  ℕ, ◌+◌, ◌≤◌, ◌≡◌, refl, ◌∙◌, ap, true, some, List, [], ◌∷◌, ◌++◌, ℤ, pos, ltb, length, take,
  arith, inl, inr,
}
use embeded_linux_gateway.Lora.Bus.{Bus}
use embeded_linux_gateway.Receiver.{Receiver, RfEvent, packet, rf_packet, rf_event, rf_listen}
use embeded_linux_gateway.Receiver.Listening.{rf_packet_cases}
use embeded_linux_gateway.Sensor.{Printing}
use embeded_linux_gateway.Sensor.Rf24.{
  id_node, heard, Values, figures, temp_text, hum_text, gas_text, pres_text, round_data,
  take_packets, take_packets-round,
}

module _ (printing : Printing) (bus : Bus) (parse : List ℕ → ℤ) (air : List ℕ → List ℕ) where
  -- The packets at the receiver's radio.
  unfoldable pub packets : List (List ℕ) → List RfEvent
  packets [] = []
  packets (d ∷ ds) = packet (air d) ∷ packets ds

  rf_packet-count :
      (d : List ℕ) (s : Receiver bus parse) → (rf_packet bus parse d s).count ≤ s.count + 1
  rf_packet-count d s = elim (rf_packet_cases bus parse d s) [
    | inl same ↦ omega (arith, ap (λ (t : Receiver bus parse). t.count) same)
    | inr (_, more) ↦ omega (arith, ap (λ (t : Receiver bus parse). t.count) more)
  ]

  -- Packets that the slot has room for are all taken.
  rf_listen-packets :
      (ds : List (List ℕ)) (es : List RfEvent) (s : Receiver bus parse)
      → s.count + length ds ≤ 4
      → rf_listen bus parse (packets ds ++ es) s
        ≡ rf_listen bus parse es (take_packets printing bus parse air ds s)
  unfolding rf_listen rf_event packets take_packets
  rf_listen-packets [] es s h = refl
  rf_listen-packets (d ∷ ds) es s h =
      let room : ltb s.count 4 ≡ true = ground arith in
      rw room (
        rf_listen-packets ds es (rf_packet bus parse (air d) s)
          (omega (arith, rf_packet-count (air d) s)))

  rf_listen-full :
      (es : List RfEvent) (s : Receiver bus parse) → s.count ≡ 4 → rf_listen bus parse es s ≡ some s
  unfolding rf_listen
  rf_listen-full [] s h = rw h refl
  rf_listen-full (e ∷ es) s h = rw h refl

module _ (printing : Printing) where
  open printing use {show, show_float}

  -- If the radio sends the first 32 bytes of what it is given, the JSON library finds the node's id in the four texts, the
  -- numbers of the texts for temperature and humidity have at most 10 characters each, those of the texts for gas
  -- and pressure 12, and no packet has been counted, then the four packets of a round end the daemon's wait,
  -- whatever comes after them, and the daemon has published the four texts whole, in their order.
  pub rf_listen-round :
      (bus : Bus) (parse : List ℕ → ℤ) (air : List ℕ → List ℕ) (v : Values printing)
      (es : List RfEvent) (s : Receiver bus parse)
      → ((d : List ℕ) → air d ≡ take 32 d)
      → figures printing (pos 1) (show_float v.temp) ≤ 10
      → figures printing (pos 2) (show_float v.hum) ≤ 10
      → figures printing (pos 3) (show v.gas) ≤ 12
      → figures printing (pos 4) (show_float v.pres) ≤ 12
      → parse (temp_text printing v) ≡ id_node
      → parse (hum_text printing v) ≡ id_node
      → parse (gas_text printing v) ≡ id_node
      → parse (pres_text printing v) ≡ id_node
      → s.count ≡ 0
      → rf_listen bus parse (packets printing bus parse air (round_data printing v) ++ es) s
        ≡ some (record s {
          published =
              heard (pres_text printing v)
              ∷ heard (gas_text printing v)
              ∷ heard (hum_text printing v)
              ∷ heard (temp_text printing v)
              ∷ s.published;
          count = 4;
        })
  unfolding round_data
  rf_listen-round bus parse air v es s sends ft fh fg fp pt ph pg pp none_yet =
      let ends = take_packets-round printing bus parse air v s sends ft fh fg fp pt ph pg pp in
      let t = take_packets printing bus parse air (round_data printing v) s in
      let sum : s.count + 4 ≡ 4 = omega arith in
      let all_four =
        heard (pres_text printing v)
        ∷ heard (gas_text printing v)
        ∷ heard (hum_text printing v)
        ∷ heard (temp_text printing v)
        ∷ s.published in
      rf_listen-packets printing bus parse air (round_data printing v) es s (omega arith)
      ∙ rf_listen-full printing bus parse air es t
          (ap (λ (u : Receiver bus parse). u.count) ends ∙ sum)
      ∙ ap some (ends ∙ ap (λ n. record s { published = all_four; count = n }) sum)
