-- ===== src/Sensor/Rf24.antt =====
-- src/node/NRF_transmister/Node_RF24_V1.1/Node_RF24_V1.1.ino: the node whose packets the receiver daemon takes by
-- RF24, four in a round. The reading of the sensors, around which the file has marks of a merge, is left out:
-- the values are an input.
pub mod Slot
use embeded_linux_gateway.Prelude.{
  ℕ, zero, suc, ◌+◌, ◌≤◌, ◌≡◌, refl, ◌∙◌, ap, true, false, List, [], ◌∷◌, ℤ, pos, length, overlay,
  take, replicate, c_string, NoNul, arith,
}
use embeded_linux_gateway.Server.{codes}
use embeded_linux_gateway.Mqtt.{Message, publish_mess}
use embeded_linux_gateway.Lora.Bus.{Bus}
use embeded_linux_gateway.Receiver.{Receiver, rf_packet}
use embeded_linux_gateway.Sensor.{
  Printing, joined, size, has_no_nul, joined-NoNul, length-joined, has_no_nul-NoNul,
}

abbrev pub id_node : ℤ
id_node = pos 96

-- The message that the daemon publishes.
abbrev pub heard : List ℕ → Message
heard text = record { topic = "data_rf"; payload = text; qos = 1; retained = false }

take-short : (n : ℕ) (cs : List ℕ) → length cs ≤ n → take n cs ≡ cs
take-short zero [] h = refl
take-short zero (c ∷ cs) h = absurd (omega arith)
take-short (suc n) [] h = refl
take-short (suc n) (c ∷ cs) h = ap (λ l. c ∷ l) (take-short n cs (omega arith))

zeros : (n m k : ℕ) → c_string (overlay (take n (replicate m 0)) (replicate k 0)) ≡ []
zeros zero m zero = refl
zeros zero m (suc k) = refl
zeros (suc n) zero zero = refl
zeros (suc n) zero (suc k) = refl
zeros (suc n) (suc m) zero = refl
zeros (suc n) (suc m) (suc k) = refl

-- A text, cut out of one zeroed buffer and copied to another.
cut :
    (cs : List ℕ) (n m k : ℕ)
    → NoNul cs
    → length cs ≤ n
    → n ≤ m
    → n ≤ k
    → c_string (overlay (take n (overlay cs (replicate m 0))) (replicate k 0)) ≡ cs
cut [] n m k h a b c = zeros n m k
cut (zero ∷ cs) n m k h a b c = absurd (omega (arith, h.0))
cut (suc x ∷ cs) zero m k h a b c = absurd (omega arith)
cut (suc x ∷ cs) (suc n) zero k h a b c = absurd (omega arith)
cut (suc x ∷ cs) (suc n) (suc m) zero h a b c = absurd (omega arith)
cut (suc x ∷ cs) (suc n) (suc m) (suc k) h a b c =
    ap (λ l. suc x ∷ l) (cut cs n m k h.1 (omega arith) (omega arith) (omega arith))

module _ (printing : Printing) where
  open printing use {Float, show, show_float}

  -- The values of one round of `loop`.
  pub record Values : Type 0 where
    pub temp : Float
    pub hum : Float
    pub gas : ℤ
    pub pres : Float

  -- `stringData` piece by piece: the number of the type, the name of the value, the value, and the end.
  abbrev pub pieces : ℤ → List ℕ → List ℕ → List ℕ → List (List ℕ)
  pieces kind name value end_ =
      codes "{\"id\":" ∷ show id_node ∷ codes ",\"type\":" ∷ show kind ∷ name ∷ value ∷ end_ ∷ []

  unfoldable pub temp_text : Values → List ℕ
  temp_text v = joined (pieces (pos 1) (codes ",\"t\":\"") (show_float v.temp) (codes "\"}"))

  unfoldable pub hum_text : Values → List ℕ
  hum_text v = joined (pieces (pos 2) (codes ",\"h\":\"") (show_float v.hum) (codes "\"}"))

  unfoldable pub gas_text : Values → List ℕ
  gas_text v = joined (pieces (pos 3) (codes ",\"g\":") (show v.gas) (codes "}"))

  unfoldable pub pres_text : Values → List ℕ
  pres_text v = joined (pieces (pos 4) (codes ",\"p\":") (show_float v.pres) (codes "}"))

  -- `stringData.toCharArray(data, sizeof(data))` to the zeroed `data[255]`.
  unfoldable pub to_data : List ℕ → List ℕ
  to_data text = overlay (take 254 text) (replicate 255 0)

  -- What `radio.write` is given in a round.
  unfoldable pub round_data : Values → List (List ℕ)
  unfolding to_data
  round_data v =
      to_data (temp_text v)
      ∷ to_data (hum_text v)
      ∷ to_data (gas_text v)
      ∷ to_data (pres_text v)
      ∷ []

  text-NoNul :
      (kind : ℤ) (name value end_ : List ℕ)
      → NoNul name
      → NoNul value
      → NoNul end_
      → NoNul (joined (pieces kind name value end_))
  text-NoNul kind name value end_ h g e = joined-NoNul (pieces kind name value end_) (
    has_no_nul-NoNul (codes "{\"id\":") refl,
    (
      printing.show-NoNul id_node,
      (has_no_nul-NoNul (codes ",\"type\":") refl, (printing.show-NoNul kind, (h, (g, (e, tt))))),
    ),
  )

  -- A short text is in the bytes that go by air, with zeros behind it.
  air_lem :
      (text : List ℕ)
      → NoNul text
      → length text ≤ 32
      → c_string (overlay (take 32 (to_data text)) (replicate 50 0)) ≡ text
  unfolding to_data
  air_lem text h short =
      ap (λ l. c_string (overlay (take 32 (overlay l (replicate 255 0))) (replicate 50 0)))
        (take-short 254 text (omega arith))
      ∙ cut text 32 255 50 h short (omega arith) (omega arith)

  -- The characters of the numbers in a packet of a type.
  abbrev pub figures : ℤ → List ℕ → ℕ
  figures kind value = length (show id_node) + length (show kind) + length value

  module _ (bus : Bus) (parse : List ℕ → ℤ) (air : List ℕ → List ℕ) where
    -- The packets of a round at the receiver.
    unfoldable pub take_packets : List (List ℕ) → Receiver bus parse → Receiver bus parse
    take_packets [] s = s
    take_packets (d ∷ ds) s = take_packets ds (rf_packet bus parse (air d) s)

    one_packet :
        (text : List ℕ) (s : Receiver bus parse)
        → air (to_data text) ≡ take 32 (to_data text)
        → NoNul text
        → length text ≤ 32
        → parse text ≡ id_node
        → rf_packet bus parse (air (to_data text)) s
          ≡ record s { published = heard text ∷ s.published; count = s.count + 1 }
    unfolding rf_packet publish_mess
    one_packet text s sent h short parsed =
        let text_ : c_string (overlay (air (to_data text)) (replicate 50 0)) ≡ text =
          ap (λ d. c_string (overlay d (replicate 50 0))) sent ∙ air_lem text h short in
        rw (text_, parsed) refl

    -- A packet of a type, whose text is short.
    kind_packet :
        (kind : ℤ) (name value end_ : List ℕ) (s : Receiver bus parse)
        → let text = joined (pieces kind name value end_) in
          air (to_data text) ≡ take 32 (to_data text)
          → has_no_nul name ≡ true
          → NoNul value
          → has_no_nul end_ ≡ true
          → size (pieces kind name value end_) ≤ 32
          → parse text ≡ id_node
          → rf_packet bus parse (air (to_data text)) s
            ≡ record s { published = heard text ∷ s.published; count = s.count + 1 }
    kind_packet kind name value end_ s sent h g e short parsed =
        one_packet (joined (pieces kind name value end_)) s sent
          (text-NoNul kind name value end_ (has_no_nul-NoNul name h) g (has_no_nul-NoNul end_ e))
          (omega (arith, length-joined (pieces kind name value end_))) parsed

    -- If the radio sends the first 32 bytes of what it is given, the JSON library finds the node's id in the four texts, and
    -- the numbers of the texts for temperature and humidity have at most 10 characters each, those of the texts
    -- for gas and pressure 12, then the receiver publishes the four texts whole, in their order, and counts them.
    pub take_packets-round :
        (v : Values) (s : Receiver bus parse)
        → ((d : List ℕ) → air d ≡ take 32 d)
        → figures (pos 1) (show_float v.temp) ≤ 10
        → figures (pos 2) (show_float v.hum) ≤ 10
        → figures (pos 3) (show v.gas) ≤ 12
        → figures (pos 4) (show_float v.pres) ≤ 12
        → parse (temp_text v) ≡ id_node
        → parse (hum_text v) ≡ id_node
        → parse (gas_text v) ≡ id_node
        → parse (pres_text v) ≡ id_node
        → take_packets (round_data v) s ≡ record s {
          published =
              heard (pres_text v)
              ∷ heard (gas_text v)
              ∷ heard (hum_text v)
              ∷ heard (temp_text v)
              ∷ s.published;
          count = s.count + 4;
        }
    unfolding take_packets round_data temp_text hum_text gas_text pres_text
    take_packets-round v s sends ft fh fg fp pt ph pg pp =
        let s1 = record s { published = heard (temp_text v) ∷ s.published; count = s.count + 1 } in
        let s2 = record s1 {
          published = heard (hum_text v) ∷ s1.published;
          count = s1.count + 1;
        } in
        let s3 = record s2 {
          published = heard (gas_text v) ∷ s2.published;
          count = s2.count + 1;
        } in
        let one =
          kind_packet (pos 1) (codes ",\"t\":\"") (show_float v.temp) (codes "\"}") s
            (sends (to_data (temp_text v))) refl (printing.show_float-NoNul v.temp) refl
            (omega arith) pt in
        let two =
          kind_packet (pos 2) (codes ",\"h\":\"") (show_float v.hum) (codes "\"}") s1
            (sends (to_data (hum_text v))) refl (printing.show_float-NoNul v.hum) refl (omega arith)
            ph in
        let three =
          kind_packet (pos 3) (codes ",\"g\":") (show v.gas) (codes "}") s2
            (sends (to_data (gas_text v))) refl (printing.show-NoNul v.gas) refl (omega arith) pg in
        let four =
          kind_packet (pos 4) (codes ",\"p\":") (show_float v.pres) (codes "}") s3
            (sends (to_data (pres_text v))) refl (printing.show_float-NoNul v.pres) refl
            (omega arith) pp in
        let sum : s.count + 1 + 1 + 1 + 1 ≡ s.count + 4 = omega arith in
        ap
          (λ u.
            take_packets (to_data (hum_text v) ∷ to_data (gas_text v) ∷ to_data (pres_text v) ∷ [])
              u)
          one
        ∙ ap (λ u. take_packets (to_data (gas_text v) ∷ to_data (pres_text v) ∷ []) u) two
        ∙ ap (λ u. take_packets (to_data (pres_text v) ∷ []) u) three
        ∙ four
        ∙ ap (λ n. record s { published = heard (pres_text v) ∷ s3.published; count = n }) sum
