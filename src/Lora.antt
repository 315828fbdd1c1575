-- ===== src/Lora.antt =====
-- The LoRa modem driver, src/service_user_space/client_SPI_Lora_RF24/Lora_RF24/LoRa.{h,c}.
pub mod Regs
pub mod Bus
pub mod Spi
pub mod Setup
pub mod Packet
pub mod Radio
pub mod Sim
mod Tests
