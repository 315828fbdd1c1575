-- ===== src/Bench/Tally.antt =====
-- The numbers that the programs print, against the packets since the last message with the id 100.
use embeded_linux_gateway.Prelude.{
  ℕ, ◌≡◌, ◌≢◌, refl, true, false, Option, none, some, List, [], ◌∷◌, ℤ, pos, negsuc, if◌then◌else◌,
  c_string, replicate, overlay, length, arith, inl, inr, Bool-cases,
}
use embeded_linux_gateway.Lora.Regs.{RxData}
use embeded_linux_gateway.Receiver.{eq_ℤ, id_lora, id_rf24}
use embeded_linux_gateway.Bench.{Printer, number, rf_round, rx_f}

abbrev pub silent : Printer
silent = record { count = 0; lines = [] }

module _ (parse : List ℕ → ℤ) where
  -- Of a list of texts, the latest first, those that came after the last one with the id 100.
  abbrev until_reset : List (List ℕ) → List (List ℕ)
  until_reset [] = []
  until_reset (t ∷ ts) = if eq_ℤ (parse t) 100 then [] else t ∷ until_reset ts

  -- The texts with the id.
  abbrev having : ℕ → List (List ℕ) → List (List ℕ)
  having id [] = []
  having id (t ∷ ts) = if eq_ℤ (parse t) id then t ∷ having id ts else having id ts

  -- Each text with the id, and how many came before it since the last one with the id 100.
  unfoldable pub numbered : ℕ → List (List ℕ) → List (List ℕ × ℕ)
  numbered id [] = []
  numbered id (t ∷ ts) =
      if eq_ℤ (parse t) id
      then (t, length (having id (until_reset ts))) ∷ numbered id ts
      else numbered id ts

  -- The state after the texts, the latest first.
  IsNumbered : ℕ → List (List ℕ) → Printer → Type 0
  IsNumbered id ts s = (s.count ≡ length (having id (until_reset ts))) × (s.lines ≡ numbered id ts)

  only_one : (x : ℤ) (id : ℕ) → id ≢ 100 → eq_ℤ x 100 ≡ true → eq_ℤ x id ≡ false
  only_one (pos a) id ne h = ground arith
  only_one (negsuc a) id ne h = refl

  number-IsNumbered :
      (id : ℕ) (buf : List ℕ) (ts : List (List ℕ)) (s : Printer)
      → id ≢ 100
      → IsNumbered id ts s
      → IsNumbered id (c_string buf ∷ ts) (number parse id buf s)
  unfolding number numbered IsNumbered
  number-IsNumbered id buf ts s ne h = elim (Bool-cases (eq_ℤ (parse (c_string buf)) 100)) [
    | inl reset ↦ rw (reset, only_one (parse (c_string buf)) id ne reset) (refl, h.1)
    | inr going ↦ elim (Bool-cases (eq_ℤ (parse (c_string buf)) id)) [
      | inl ours ↦ rw (going, ours) (omega (arith, h.0), rw (h.0, h.1) refl)
      | inr other ↦ rw (going, other) h
    ]
  ]

  -- The rounds of testRF.cpp, the latest first, and the texts of their packets.
  unfoldable pub rf_rounds : List (Option (List ℕ)) → Printer → Printer
  rf_rounds [] s = s
  rf_rounds (p ∷ ps) s = rf_round parse p (rf_rounds ps s)

  unfoldable pub rf_texts : List (Option (List ℕ)) → List (List ℕ)
  rf_texts [] = []
  rf_texts (none ∷ ps) = rf_texts ps
  rf_texts (some bs ∷ ps) = c_string (overlay bs (replicate 50 0)) ∷ rf_texts ps

  rf-IsNumbered :
      (ps : List (Option (List ℕ))) → IsNumbered id_rf24 (rf_texts ps) (rf_rounds ps silent)
  unfolding IsNumbered numbered rf_rounds rf_texts rf_round
  rf-IsNumbered [] = (refl, refl)
  rf-IsNumbered (none ∷ ps) = rf-IsNumbered ps
  rf-IsNumbered (some bs ∷ ps) =
      number-IsNumbered id_rf24 (overlay bs (replicate 50 0)) (rf_texts ps) (rf_rounds ps silent)
        (ground arith) (rf-IsNumbered ps)

  -- Over any rounds of testRF.cpp from its start, each message of an RF24 node is printed, with the number
  -- of such messages before it since the last message with the id 100.
  pub rf_rounds-numbered :
      (ps : List (Option (List ℕ))) → (rf_rounds ps silent).lines ≡ numbered id_rf24 (rf_texts ps)
  unfolding IsNumbered
  rf_rounds-numbered ps = (rf-IsNumbered ps).1

  -- The calls of the callback of testLR.cpp, the latest first.
  unfoldable pub rx_all : List RxData → Printer → Printer
  rx_all [] s = s
  rx_all (rx ∷ rxs) s = rx_f parse rx (rx_all rxs s)

  unfoldable pub rx_texts : List RxData → List (List ℕ)
  rx_texts [] = []
  rx_texts (rx ∷ rxs) = c_string rx.buf ∷ rx_texts rxs

  rx-IsNumbered : (rxs : List RxData) → IsNumbered id_lora (rx_texts rxs) (rx_all rxs silent)
  unfolding IsNumbered numbered rx_all rx_texts rx_f
  rx-IsNumbered [] = (refl, refl)
  rx-IsNumbered (rx ∷ rxs) =
      number-IsNumbered id_lora rx.buf (rx_texts rxs) (rx_all rxs silent) (ground arith)
        (rx-IsNumbered rxs)

  -- Over any calls of the callback of testLR.cpp from its start, each message of a LoRa node is printed,
  -- with the number of such messages before it since the last message with the id 100.
  pub rx_all-numbered :
      (rxs : List RxData) → (rx_all rxs silent).lines ≡ numbered id_lora (rx_texts rxs)
  unfolding IsNumbered
  rx_all-numbered rxs = (rx-IsNumbered rxs).1
