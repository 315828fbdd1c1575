-- ===== src/Bench/Receives.antt =====
-- testLR.cpp listens with the modem of the gateway.
use embeded_linux_gateway.Prelude.{◌≡◌, refl, false, ℤ, is_neg, arith}
use embeded_linux_gateway.Start.{looping}
use embeded_linux_gateway.Lora.Regs.{LoraCtl}
use embeded_linux_gateway.Lora.Bus.{Bus, Chip}
use embeded_linux_gateway.Lora.Setup.{lora_reset}
use embeded_linux_gateway.Lora.Packet.{lora_calculate_packet_t}
use embeded_linux_gateway.Lora.Radio.{lora_begin, lora_receive}
use embeded_linux_gateway.Lora.Radio.Session.{IsReceiving, session_lem}
use embeded_linux_gateway.Receiver.{gateway_eth, gateway_modem, gpio_a, gpio_b, gpio_c, gpio_26}
use embeded_linux_gateway.Receiver.Start.{set_outputs}
use embeded_linux_gateway.Bench.{main_start}

module _ (bus : Bus) (spid : ℤ) (chip : Chip bus spid) where
  open bus use {World, gpio_initialise, gpio_write, spi_open}

  -- The pins select the first modem.
  abbrev pub selected : World → World
  selected w =
      gpio_write gpio_26 0
        (gpio_write gpio_c 0 (gpio_write gpio_b 0 (gpio_write gpio_a 1 (set_outputs bus w))))

  -- If pigpio starts both times that it is called and the SPI device opens as `spid`, then `main` of
  -- testLR.cpp comes to its loop, with the handle `spid` and a modem that receives LoRa packets
  -- continuously with the configuration that the receiver daemon has.
  pub main_start-IsReceiving :
      (w : World)
      → is_neg (gpio_initialise w).0 ≡ false
      → let (ret, w2) = gpio_initialise (selected (gpio_initialise w).1) in
        is_neg ret ≡ false
        → (spi_open 0 32000 0 (lora_reset bus 4 w2)).0 ≡ spid
        → is_neg spid ≡ false
        → (m : LoraCtl) × (u : World) × (main_start bus w ≡ looping (m, u))
          × (m.spid ≡ spid)
          × IsReceiving gateway_eth false (chip.reg u)
  unfolding main_start lora_calculate_packet_t
  main_start-IsReceiving w first started opened valid =
      let (handle, receiving, there) =
        session_lem bus spid chip gateway_modem (selected (gpio_initialise w).1) started opened
          valid (omega arith) (omega arith) (omega arith) in
      let (ret, m, w3) = lora_begin bus gateway_modem (selected (gpio_initialise w).1) in
      ((lora_receive bus m w3).0, (lora_receive bus m w3).1, rw first refl, handle, receiving)
