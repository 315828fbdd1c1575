-- ===== src/Lora/Setup/Irq.antt =====
-- The interrupt flags: `lora_reset_irq_flags` clears them, and nothing else.
use embeded_linux_gateway.Prelude.{ℕ, ◌≡◌, ℤ, ◌==◌, if◌then◌else◌}
use embeded_linux_gateway.Lora.Bus.{Bus, Chip}
use embeded_linux_gateway.Lora.Spi.Laws.{reg-clear_irq}
use embeded_linux_gateway.Lora.Setup.{lora_reset_irq_flags}

module _ (bus : Bus) (spid : ℤ) (chip : Chip bus spid) where
  open bus use {World}
  open chip use {reg}

  pub reg-reset_irq_flags :
      (w : World) (q : ℕ)
      → reg (lora_reset_irq_flags bus spid w) q ≡ (if q == 0x12 then 0 else reg w q)
  unfolding lora_reset_irq_flags
  reg-reset_irq_flags w q = reg-clear_irq bus spid chip w q
