-- ===== src/Lora/Spi.antt =====
-- LoRa.c: register access over SPI, `lora_reg_read_byte` to `lora_reg_write_bytes`.
pub mod Laws
pub mod Fetch
use embeded_linux_gateway.Prelude.{
  ℕ, ◌+◌, ◌-◌, ◌*◌, ◌%◌, bit_or, Bool, true, false, Option, some, none, List, [], ◌∷◌, ℤ, is_neg,
  to_nat, to_u8, ltb_ℤ, leb, if◌then◌else◌, get_or, take, drop, replicate, overlay,
}
use embeded_linux_gateway.Lora.Bus.{Bus}

module _ (bus : Bus) where
  open bus use {World, spi_xfer}

  -- The result is an `unsigned char`, so the -1 of a short transfer and the negative code of a failed
  -- one are read as bytes too.
  pub lora_reg_read_byte : ℤ → ℕ → World → ℕ × World
  lora_reg_read_byte spid r w =
      let (ret, rx, w') = spi_xfer spid (r ∷ 0 ∷ []) w in
      (
        if is_neg ret
            then to_u8 ret
            else if ltb_ℤ ret 2
            then 255
            else get_or (overlay rx (0 ∷ 0 ∷ [])) 1 0,
        w',
      )

  pub lora_reg_write_byte : ℤ → ℕ → ℕ → World → ℤ × World
  lora_reg_write_byte spid r b w =
      let (ret, rx, w') = spi_xfer spid (bit_or r 0x80 ∷ b ∷ []) w in (ret, w')

  -- `memcpy(buff, &rx[1], ret-1)` with a result below 1 copies almost the whole address space: that is
  -- a fault, `none`. Else the list is what `buff` holds in its first `size` bytes.
  pub lora_reg_read_bytes : ℤ → ℕ → ℕ → World → Option (List ℕ) × ℤ × World
  lora_reg_read_bytes spid r size w =
      let (ret, rx, w') = spi_xfer spid (r ∷ replicate size 0) w in
      (
        if ltb_ℤ ret 1
            then none
            else some (
                overlay (take (to_nat ret - 1) (drop 1 (overlay rx (replicate 257 0))))
                  (replicate size 0)),
        ret,
        w',
      )

  -- `buff` is the first `size` bytes of the caller's buffer.
  pub lora_reg_write_bytes : ℤ → ℕ → List ℕ → World → ℤ × World
  lora_reg_write_bytes spid r buff w =
      let (ret, rx, w') = spi_xfer spid (bit_or r 0x80 ∷ buff) w in (ret, w')
