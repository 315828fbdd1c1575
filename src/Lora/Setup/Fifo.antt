-- ===== src/Lora/Setup/Fifo.antt =====
-- The FIFO under the setters, and `lora_write_fifo`.
use embeded_linux_gateway.Prelude.{
  ℕ, ◌%◌, ◌<◌, ◌≡◌, refl, fun_ext, bit_and, bit_or, true, false, List, ℤ, arith, ◌==◌, ==_iff,
  if◌then◌else◌, length, checked_to, checked_to_sound,
}
use mathlib.Core.Path.{subst}
use embeded_linux_gateway.Lora.Bus.{Bus, Chip, fifo_slice}
use embeded_linux_gateway.Lora.Spi.{lora_reg_read_byte, lora_reg_write_bytes}
use embeded_linux_gateway.Lora.Spi.Laws.{
  read_byte, fifo-read, fifo-write, fifo-write_mode, fifo-fill, reg-fill, reg-read,
}
use embeded_linux_gateway.Lora.Setup.{
  lora_write_fifo, lora_set_payload, lora_set_addr_ptr, lora_set_dio_tx_mapping, lora_set_tx_mode,
  lora_get_op_mode,
}
use embeded_linux_gateway.Lora.Setup.Laws.{reg-set_payload, reg-set_addr_ptr}

-- The low bits of the value that a mode setter writes.
mode_bits_table : checked_to 256 (λ v. bit_or (bit_and v 0xf8) 3 % 8 == 3) ≡ true
unfolding checked_to
mode_bits_table = refl

mode_bits : (v : ℕ) → v < 256 → bit_or (bit_and v 0xf8) 3 % 8 ≡ 3
mode_bits v h =
    (==_iff _ _).0
      (checked_to_sound 256 (λ v. bit_or (bit_and v 0xf8) 3 % 8 == 3) v mode_bits_table h)

low_mode_table : checked_to 256 (λ v. bit_and v 0x07 == v % 8) ≡ true
unfolding checked_to
low_mode_table = refl

low_mode : (v : ℕ) → v < 256 → bit_and v 0x07 ≡ v % 8
low_mode v h =
    (==_iff _ _).0 (checked_to_sound 256 (λ v. bit_and v 0x07 == v % 8) v low_mode_table h)

module _ (bus : Bus) (spid : ℤ) (chip : Chip bus spid) where
  open bus use {World}
  open chip use {reg, fifo}

  -- `lora_get_op_mode` is the mode field, and reads nothing else.
  pub get_op_mode_lem :
      (w : World)
      → ((lora_get_op_mode bus spid w).0 ≡ reg w 0x01 % 8)
        × (reg (lora_get_op_mode bus spid w).1 ≡ reg w)
  unfolding lora_get_op_mode
  get_op_mode_lem w = (
    rw (read_byte bus spid chip w 1 (omega arith) (omega arith))
        (low_mode (reg w 1) (chip.reg_lt w 1)),
    fun_ext λ q. reg-read bus spid chip w 1 q (omega arith) (omega arith),
  )

  pub fifo-set_dio_tx_mapping :
      (w : World) (a : ℕ) → fifo (lora_set_dio_tx_mapping bus spid w) a ≡ fifo w a
  unfolding lora_set_dio_tx_mapping
  fifo-set_dio_tx_mapping w a = fifo-write bus spid chip w 0x40 a 0x40 (omega arith) refl

  pub fifo-set_tx_mode : (w : World) (a : ℕ) → fifo (lora_set_tx_mode bus spid w) a ≡ fifo w a
  unfolding lora_set_tx_mode
  fifo-set_tx_mode w a =
      rw
        (fifo-write_mode bus spid chip (lora_reg_read_byte bus spid 1 w).1 a
          (bit_or (bit_and (lora_reg_read_byte bus spid 1 w).0 0xf8) 3)
          (rw
            (
              read_byte bus spid chip w 1 (omega arith) (omega arith),
              mode_bits (reg w 1) (chip.reg_lt w 1),
            )
            (omega arith)))
        (fifo-read bus spid chip w 1 a (omega arith) (omega arith))

  -- `lora_write_fifo` outside sleep mode: the bytes stand from the transmit base on, and the length
  -- register says how many.
  pub write_fifo_lem :
      (w : World) (buf : List ℕ) (size : ℕ)
      → 0 < reg w 0x01 % 8
      → length buf < 256
      → fifo_slice (fifo (lora_write_fifo bus spid buf size w).1) 0 (length buf) ≡ buf
  unfolding lora_write_fifo
  write_fifo_lem w buf size awake fits =
      subst
        (λ a. fifo_slice (fifo (lora_reg_write_bytes bus spid 0 buf ready).1) a (length buf) ≡ buf)
        at_base (fifo-fill bus spid chip ready buf (rw mode_kept awake) fits)
    where
      ready : World
      ready = lora_set_payload bus spid size (lora_set_addr_ptr bus spid 0 w)

      at_base : reg ready 0x0d ≡ 0
      at_base = rw (
        reg-set_payload bus spid chip (lora_set_addr_ptr bus spid 0 w) 0x0d size,
        reg-set_addr_ptr bus spid chip w 0x0d 0,
      )

      mode_kept : reg ready 0x01 ≡ reg w 0x01
      mode_kept = rw (
        reg-set_payload bus spid chip (lora_set_addr_ptr bus spid 0 w) 0x01 size,
        reg-set_addr_ptr bus spid chip w 0x01 0,
      )

  pub reg-write_fifo :
      (w : World) (q : ℕ) (buf : List ℕ) (size : ℕ)
      → (q == 0x0d) ≡ false
      → reg (lora_write_fifo bus spid buf size w).1 q ≡ (if q == 0x22 then size % 256 else reg w q)
  unfolding lora_write_fifo
  reg-write_fifo w q buf size ne = rw (
    reg-fill bus spid chip (lora_set_payload bus spid size (lora_set_addr_ptr bus spid 0 w)) q buf
        ne,
    reg-set_payload bus spid chip (lora_set_addr_ptr bus spid 0 w) q size,
    reg-set_addr_ptr bus spid chip w q 0,
    ne,
  )
