-- ===== src/Lora/Spi/Laws.antt =====
-- Register access on a bus with the modem behind it.
use embeded_linux_gateway.Prelude.{
  ℕ, ◌+◌, ◌-◌, ◌%◌, ◌<◌, ◌≡◌, refl, bit_or, true, false, ◌&&◌, List, [], ◌∷◌, ℤ, arith, ltb, leb,
  ◌==◌, ==_iff, if◌then◌else◌, length, get_or, checked_to, checked_to_sound,
}
use embeded_linux_gateway.Lora.Bus.{Bus, Chip, config_run, op_mode_write, fifo_slice}
use embeded_linux_gateway.Lora.Spi.{lora_reg_read_byte, lora_reg_write_byte, lora_reg_write_bytes}

write_bit_table : checked_to 128 (λ r. bit_or r 0x80 == r + 128) ≡ true
unfolding checked_to
write_bit_table = refl

write_bit : (r : ℕ) → r < 128 → bit_or r 0x80 ≡ r + 128
write_bit r h =
    (==_iff _ _).0 (checked_to_sound 128 (λ r. bit_or r 0x80 == r + 128) r write_bit_table h)

module _ (bus : Bus) (spid : ℤ) (chip : Chip bus spid) where
  open bus use {World}
  open chip use {reg, fifo}

  pub read_byte :
      (w : World) (r : ℕ) → 0 < r → r < 128 → (lora_reg_read_byte bus spid r w).0 ≡ reg w r
  unfolding lora_reg_read_byte
  read_byte w r p q = rw (chip.read_ret w r p q, (chip.read_rx w r p q).1)

  pub reg-read :
      (w : World) (r q : ℕ) → 0 < r → r < 128 → reg (lora_reg_read_byte bus spid r w).1 q ≡ reg w q
  unfolding lora_reg_read_byte
  reg-read w r q h k = chip.read_keeps w r q h k

  pub fifo-read :
      (w : World) (r a : ℕ)
      → 0 < r
      → r < 128
      → fifo (lora_reg_read_byte bus spid r w).1 a ≡ fifo w a
  unfolding lora_reg_read_byte
  fifo-read w r q h k = chip.read_fifo w r q h k

  pub reg-write :
      (w : World) (r q b : ℕ)
      → r < 128
      → config_run r 1 ≡ true
      → reg (lora_reg_write_byte bus spid r b w).1 q ≡ (if q == r then b % 256 else reg w q)
  unfolding lora_reg_write_byte
  reg-write w r q b h c = rw (write_bit r h, chip.write_reg w r q (b ∷ []) c) (ground arith)

  pub reg-write_bytes :
      (w : World) (r q : ℕ) (bs : List ℕ)
      → r < 128
      → config_run r (length bs) ≡ true
      → reg (lora_reg_write_bytes bus spid r bs w).1 q
        ≡ (if leb r q && ltb q (r + length bs) then get_or bs (q - r) 0 % 256 else reg w q)
  unfolding lora_reg_write_bytes
  reg-write_bytes w r q bs h c = rw (write_bit r h) (chip.write_reg w r q bs c)

  -- The mode register: its bit 7 changes only in sleep mode.
  pub reg-write_mode :
      (w : World) (q b : ℕ)
      → b < 256
      → reg (lora_reg_write_byte bus spid 0x01 b w).1 q
        ≡ (if q == 1 then op_mode_write (reg w 1) b else reg w q)
  unfolding lora_reg_write_byte
  reg-write_mode w q b h = chip.write_op_mode w q b h

  pub fifo-write :
      (w : World) (r a b : ℕ)
      → r < 128
      → config_run r 1 ≡ true
      → fifo (lora_reg_write_byte bus spid r b w).1 a ≡ fifo w a
  unfolding lora_reg_write_byte
  fifo-write w r a b h c = rw (write_bit r h) (chip.write_fifo w r a (b ∷ []) c)

  pub fifo-write_mode :
      (w : World) (a b : ℕ)
      → 0 < b % 8
      → fifo (lora_reg_write_byte bus spid 0x01 b w).1 a ≡ fifo w a
  unfolding lora_reg_write_byte
  fifo-write_mode w a b h = chip.op_mode_fifo w a b h

  -- Bytes written through the window land in the FIFO from the address pointer on.
  pub fifo-fill :
      (w : World) (bs : List ℕ)
      → 0 < reg w 0x01 % 8
      → length bs < 256
      → fifo_slice (fifo (lora_reg_write_bytes bus spid 0x00 bs w).1) (reg w 0x0d) (length bs) ≡ bs
  unfolding lora_reg_write_bytes
  fifo-fill w bs h k = chip.fill_fifo w bs h k

  pub reg-fill :
      (w : World) (q : ℕ) (bs : List ℕ)
      → (q == 0x0d) ≡ false
      → reg (lora_reg_write_bytes bus spid 0x00 bs w).1 q ≡ reg w q
  unfolding lora_reg_write_bytes
  reg-fill w q bs h = chip.fill_keeps w q bs h

  -- A 1 written to an interrupt flag clears it.
  pub reg-clear_irq :
      (w : World) (q : ℕ)
      → reg (lora_reg_write_byte bus spid 0x12 0xff w).1 q ≡ (if q == 0x12 then 0 else reg w q)
  unfolding lora_reg_write_byte
  reg-clear_irq w q = chip.clear_irq w q
