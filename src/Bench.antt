-- ===== src/Bench.antt =====
-- testRF.cpp and testLR.cpp under src/service_user_space/client_SPI_Lora_RF24/Lora_RF24/RPI_Receive: the
-- programs that number the packets of one radio.
pub mod Tally
pub mod Receives
use embeded_linux_gateway.Prelude.{
  ℕ, ◌+◌, Bool, true, false, Option, none, some, List, [], ◌∷◌, ℤ, negsuc, is_neg, if◌then◌else◌,
  c_string, replicate, overlay,
}
use embeded_linux_gateway.Start.{Start, returned, looping}
use embeded_linux_gateway.Lora.Regs.{RxData, LoraCtl}
use embeded_linux_gateway.Lora.Bus.{Bus}
use embeded_linux_gateway.Lora.Radio.{lora_begin, lora_receive}
use embeded_linux_gateway.Receiver.{
  eq_ℤ, id_lora, id_rf24, gpio_a, gpio_b, gpio_c, gpio_26, gateway_modem,
}
use embeded_linux_gateway.Receiver.Start.{set_outputs}

-- The counter, and the lines that are printed, each a text with a number, the latest first.
pub record Printer : Type 0 where
  pub count : ℕ
  pub lines : List (List ℕ × ℕ)

-- `parse` stands for the JSON library: the number of "id" in a string.
module _ (parse : List ℕ → ℤ) where
  -- A message with the id 100 starts the count again, one with the radio's id is printed with its number.
  unfoldable pub number : ℕ → List ℕ → Printer → Printer
  number id buf s =
      let s1 = if eq_ℤ (parse (c_string buf)) 100 then record s { count = 0 } else s in
      if eq_ℤ (parse (c_string buf)) id
      then record s1 { count = s1.count + 1; lines = (c_string buf, s1.count) ∷ s1.lines }
      else s1

  -- A round of the loop of testRF.cpp, with the packet that the radio has, which goes into the zeroed
  -- `nrfbuff[50]`.
  unfoldable pub rf_round : Option (List ℕ) → Printer → Printer
  unfolding number
  rf_round none s = s
  rf_round (some bs) s = number id_rf24 (overlay bs (replicate 50 0)) s

  -- The callback of testLR.cpp.
  unfoldable pub rx_f : RxData → Printer → Printer
  unfolding number
  rx_f rx s = number id_lora rx.buf s

module _ (bus : Bus) where
  open bus use {World, gpio_initialise, gpio_write}

  -- `main` of testLR.cpp up to its loop, with the modem that the receiver daemon has too.
  unfoldable pub main_start : World → Start (LoraCtl × World)
  main_start w =
      let (ret, w1) = gpio_initialise w in
      let w2 =
        gpio_write gpio_26 0
          (gpio_write gpio_c 0 (gpio_write gpio_b 0 (gpio_write gpio_a 1 (set_outputs bus w1)))) in
      let (s, m, w3) = lora_begin bus gateway_modem w2 in
      if is_neg ret then returned (negsuc 0) else looping (lora_receive bus m w3)
