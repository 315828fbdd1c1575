-- ===== src/Lora/Setup/Laws.antt =====
-- What each setter of `Lora.Setup` leaves in the registers of the modem.
use embeded_linux_gateway.Prelude.{
  ℕ, ◌+◌, ◌*◌, ◌%◌, ◌<◌, ◌≤◌, ◌≡◌, refl, bit_and, bit_or, Bool, true, ℤ, arith, ◌==◌, if◌then◌else◌,
  bit_and-lt, bit_or-lt,
}
use native.Mathlib.Nat.{mod-eq_of_lt}
use embeded_linux_gateway.Lora.Regs.{
  BandWidth, bw_code, SpreadingFactor, sf_code, ErrorCodingRate, ecr_code,
}
use embeded_linux_gateway.Lora.Bus.{Bus, Chip, config_run, op_mode_write}
use embeded_linux_gateway.Lora.Spi.{lora_reg_read_byte}
use embeded_linux_gateway.Lora.Spi.Laws.{read_byte, reg-read, reg-write, reg-write_mode}
use embeded_linux_gateway.Lora.Setup.{
  bit, amend, lora_set_lna, lora_set_agc, lora_set_dio_rx_mapping, lora_set_dio_tx_mapping,
  lora_set_lowdatarateoptimize_on, lora_set_lowdatarateoptimize_off, lora_set_addr_ptr,
  lora_set_payload, lora_set_satandby_mode, lora_set_rxcont_mode, lora_set_tx_mode, lora_set_syncw,
  lora_set_sleep_mode, lora_set_sf, lora_set_crc_on, lora_set_crc_off, lora_set_bandwidth,
  lora_set_errorcr, lora_set_explicit_header, lora_set_implicit_header,
}

mode_byte : {v : ℕ} (m : ℕ) → v < 256 → m < 256 → bit_or (bit_and v 0xf8) m < 256
mode_byte {v} m h k = bit_or-lt (bit_and v 0xf8) m (bit_and-lt v 0xf8 h (omega arith)) k

-- A byte of the register, masked, and with bits set.
masked : {v : ℕ} (k : ℕ) → v < 256 → k < 256 → bit_and v k < 256
masked {v} k h g = bit_and-lt v k h g

raised : {v : ℕ} (k n : ℕ) → v < 256 → k < 256 → n < 256 → bit_or (bit_and v k) n < 256
raised {v} k n h g f = bit_or-lt (bit_and v k) n (bit_and-lt v k h g) f

sf_code-lt : (sf : SpreadingFactor) → sf_code sf < 256
sf_code-lt sf = ground arith

bw_code-lt : (bw : BandWidth) → bw_code bw < 256
bw_code-lt bw = ground arith

ecr_code-lt : (cr : ErrorCodingRate) → ecr_code cr < 256
ecr_code-lt cr = ground arith

-- `m` is the number of `lo` to `hi` that is nearest to `n`.
pub record IsClamped (lo hi n m : ℕ) : Type 0 where
  pub below : n < lo → m ≡ lo
  pub within : lo ≤ n → n ≤ hi → m ≡ n
  pub above : hi < n → m ≡ hi

module _ (bus : Bus) (spid : ℤ) (chip : Chip bus spid) where
  open bus use {World}
  open chip use {reg}

  -- A read-modify-write changes its register by the function, and no other.
  pub reg-amend :
      (w : World) (r q : ℕ) (f : ℕ → ℕ)
      → 0 < r
      → r < 128
      → config_run r 1 ≡ true
      → f (reg w r) < 256
      → reg (amend bus spid r f w) q ≡ (if q == r then f (reg w r) else reg w q)
  reg-amend w r q f p h c small = rw (
    reg-write bus spid chip (lora_reg_read_byte bus spid r w).1 r q
        (f (lora_reg_read_byte bus spid r w).0) h c,
    read_byte bus spid chip w r p h,
    reg-read bus spid chip w r q p h,
    mod-eq_of_lt small,
  )

  pub reg-amend_mode :
      (w : World) (q : ℕ) (f : ℕ → ℕ)
      → f (reg w 1) < 256
      → reg (amend bus spid 0x01 f w) q
        ≡ (if q == 1 then op_mode_write (reg w 1) (f (reg w 1)) else reg w q)
  reg-amend_mode w q f h = rw (
    reg-write_mode bus spid chip (lora_reg_read_byte bus spid 0x01 w).1 q
        (f (lora_reg_read_byte bus spid 0x01 w).0)
        (rw (read_byte bus spid chip w 0x01 (omega arith) (omega arith)) h),
    read_byte bus spid chip w 0x01 (omega arith) (omega arith),
    reg-read bus spid chip w 0x01 0x01 (omega arith) (omega arith),
    reg-read bus spid chip w 0x01 q (omega arith) (omega arith),
  )

  pub reg-set_sf :
      (w : World) (q : ℕ) (sf : SpreadingFactor)
      → reg (lora_set_sf bus spid sf w) q
        ≡ (if q == 0x1e then bit_or (bit_and (reg w 0x1e) 0x0f) (sf_code sf) else reg w q)
  unfolding lora_set_sf
  reg-set_sf w q sf =
      reg-amend w 0x1e q (λ v. bit_or (bit_and v 0x0f) (sf_code sf)) (omega arith) (omega arith)
        refl (raised 0x0f (sf_code sf) (chip.reg_lt w 0x1e) (omega arith) (sf_code-lt sf))

  pub reg-set_crc_on :
      (w : World) (q : ℕ)
      → reg (lora_set_crc_on bus spid w) q
        ≡ (if q == 0x1e then bit_or (bit_and (reg w 0x1e) 0xfb) 0x04 else reg w q)
  unfolding lora_set_crc_on
  reg-set_crc_on w q =
      reg-amend w 0x1e q (λ v. bit_or (bit_and v 0xfb) 0x04) (omega arith) (omega arith) refl
        (raised 0xfb 0x04 (chip.reg_lt w 0x1e) (omega arith) (omega arith))

  pub reg-set_crc_off :
      (w : World) (q : ℕ)
      → reg (lora_set_crc_off bus spid w) q
        ≡ (if q == 0x1e then bit_and (reg w 0x1e) 0xfb else reg w q)
  unfolding lora_set_crc_off
  reg-set_crc_off w q =
      reg-amend w 0x1e q (λ v. bit_and v 0xfb) (omega arith) (omega arith) refl
        (masked 0xfb (chip.reg_lt w 0x1e) (omega arith))

  pub reg-set_bandwidth :
      (w : World) (q : ℕ) (bw : BandWidth)
      → reg (lora_set_bandwidth bus spid bw w) q
        ≡ (if q == 0x1d then bit_or (bit_and (reg w 0x1d) 0x0f) (bw_code bw) else reg w q)
  unfolding lora_set_bandwidth
  reg-set_bandwidth w q bw =
      reg-amend w 0x1d q (λ v. bit_or (bit_and v 0x0f) (bw_code bw)) (omega arith) (omega arith)
        refl (raised 0x0f (bw_code bw) (chip.reg_lt w 0x1d) (omega arith) (bw_code-lt bw))

  pub reg-set_errorcr :
      (w : World) (q : ℕ) (cr : ErrorCodingRate)
      → reg (lora_set_errorcr bus spid cr w) q
        ≡ (if q == 0x1d then bit_or (bit_and (reg w 0x1d) 0xf1) (ecr_code cr) else reg w q)
  unfolding lora_set_errorcr
  reg-set_errorcr w q cr =
      reg-amend w 0x1d q (λ v. bit_or (bit_and v 0xf1) (ecr_code cr)) (omega arith) (omega arith)
        refl (raised 0xf1 (ecr_code cr) (chip.reg_lt w 0x1d) (omega arith) (ecr_code-lt cr))

  pub reg-set_explicit_header :
      (w : World) (q : ℕ)
      → reg (lora_set_explicit_header bus spid w) q
        ≡ (if q == 0x1d then bit_and (reg w 0x1d) 0xfe else reg w q)
  unfolding lora_set_explicit_header
  reg-set_explicit_header w q =
      reg-amend w 0x1d q (λ v. bit_and v 0xfe) (omega arith) (omega arith) refl
        (masked 0xfe (chip.reg_lt w 0x1d) (omega arith))

  pub reg-set_implicit_header :
      (w : World) (q : ℕ)
      → reg (lora_set_implicit_header bus spid w) q
        ≡ (if q == 0x1d then bit_or (reg w 0x1d) 0x01 else reg w q)
  unfolding lora_set_implicit_header
  reg-set_implicit_header w q =
      reg-amend w 0x1d q (λ v. bit_or v 0x01) (omega arith) (omega arith) refl
        (bit_or-lt (reg w 0x1d) 0x01 (chip.reg_lt w 0x1d) (omega arith))

  pub reg-set_lowdatarateoptimize_on :
      (w : World) (q : ℕ)
      → reg (lora_set_lowdatarateoptimize_on bus spid w) q
        ≡ (if q == 0x26 then bit_or (bit_and (reg w 0x26) 0xf7) 0x08 else reg w q)
  unfolding lora_set_lowdatarateoptimize_on
  reg-set_lowdatarateoptimize_on w q =
      reg-amend w 0x26 q (λ v. bit_or (bit_and v 0xf7) 0x08) (omega arith) (omega arith) refl
        (raised 0xf7 0x08 (chip.reg_lt w 0x26) (omega arith) (omega arith))

  pub reg-set_lowdatarateoptimize_off :
      (w : World) (q : ℕ)
      → reg (lora_set_lowdatarateoptimize_off bus spid w) q
        ≡ (if q == 0x26 then bit_and (reg w 0x26) 0xf7 else reg w q)
  unfolding lora_set_lowdatarateoptimize_off
  reg-set_lowdatarateoptimize_off w q =
      reg-amend w 0x26 q (λ v. bit_and v 0xf7) (omega arith) (omega arith) refl
        (masked 0xf7 (chip.reg_lt w 0x26) (omega arith))

  pub reg-set_satandby_mode :
      (w : World) (q : ℕ)
      → reg (lora_set_satandby_mode bus spid w) q ≡ (
          if q == 1
          then op_mode_write (reg w 1) (bit_or (bit_and (reg w 1) 0xf8) 0x01)
          else reg w q)
  unfolding lora_set_satandby_mode
  reg-set_satandby_mode w q =
      reg-amend_mode w q (λ v. bit_or (bit_and v 0xf8) 0x01)
        (mode_byte 0x01 (chip.reg_lt w 1) (omega arith))

  pub reg-set_rxcont_mode :
      (w : World) (q : ℕ)
      → reg (lora_set_rxcont_mode bus spid w) q ≡ (
          if q == 1
          then op_mode_write (reg w 1) (bit_or (bit_and (reg w 1) 0xf8) 0x05)
          else reg w q)
  unfolding lora_set_rxcont_mode
  reg-set_rxcont_mode w q =
      reg-amend_mode w q (λ v. bit_or (bit_and v 0xf8) 0x05)
        (mode_byte 0x05 (chip.reg_lt w 1) (omega arith))

  pub reg-set_tx_mode :
      (w : World) (q : ℕ)
      → reg (lora_set_tx_mode bus spid w) q ≡ (
          if q == 1
          then op_mode_write (reg w 1) (bit_or (bit_and (reg w 1) 0xf8) 0x03)
          else reg w q)
  unfolding lora_set_tx_mode
  reg-set_tx_mode w q =
      reg-amend_mode w q (λ v. bit_or (bit_and v 0xf8) 0x03)
        (mode_byte 0x03 (chip.reg_lt w 1) (omega arith))

  pub reg-set_sleep_mode :
      (w : World) (q : ℕ)
      → reg (lora_set_sleep_mode bus spid w) q ≡ (
          if q == 1
          then op_mode_write (reg w 1) (bit_or (bit_and (reg w 1) 0xf8) 0x00)
          else reg w q)
  unfolding lora_set_sleep_mode
  reg-set_sleep_mode w q =
      reg-amend_mode w q (λ v. bit_or (bit_and v 0xf8) 0x00)
        (mode_byte 0x00 (chip.reg_lt w 1) (omega arith))

  pub reg-set_lna :
      (w : World) (q : ℕ) (gain : ℕ) (boost : Bool)
      → reg (lora_set_lna bus spid gain boost w) q
        ≡ (if q == 0x0c then (gain * 32 + bit boost) % 256 else reg w q)
  unfolding lora_set_lna
  reg-set_lna w q gain boost =
      rw (reg-write bus spid chip w 0x0c q ((gain * 32 + bit boost) % 256) (omega arith) refl)
        (ground arith)

  pub reg-set_agc :
      (w : World) (q : ℕ) (agc : Bool)
      → reg (lora_set_agc bus spid agc w) q ≡ (if q == 0x26 then bit agc * 4 else reg w q)
  unfolding lora_set_agc
  reg-set_agc w q agc =
      rw (reg-write bus spid chip w 0x26 q (bit agc * 4) (omega arith) refl) (ground arith)

  pub reg-set_dio_rx_mapping :
      (w : World) (q : ℕ)
      → reg (lora_set_dio_rx_mapping bus spid w) q ≡ (if q == 0x40 then 0x00 else reg w q)
  unfolding lora_set_dio_rx_mapping
  reg-set_dio_rx_mapping w q = reg-write bus spid chip w 0x40 q (0x00) (omega arith) refl

  pub reg-set_dio_tx_mapping :
      (w : World) (q : ℕ)
      → reg (lora_set_dio_tx_mapping bus spid w) q ≡ (if q == 0x40 then 0x40 else reg w q)
  unfolding lora_set_dio_tx_mapping
  reg-set_dio_tx_mapping w q = reg-write bus spid chip w 0x40 q (0x40) (omega arith) refl

  pub reg-set_addr_ptr :
      (w : World) (q : ℕ) (addr : ℕ)
      → reg (lora_set_addr_ptr bus spid addr w) q ≡ (if q == 0x0d then addr % 256 else reg w q)
  unfolding lora_set_addr_ptr
  reg-set_addr_ptr w q addr = reg-write bus spid chip w 0x0d q (addr) (omega arith) refl

  pub reg-set_payload :
      (w : World) (q : ℕ) (payload : ℕ)
      → reg (lora_set_payload bus spid payload w) q ≡ (if q == 0x22 then payload % 256 else reg w q)
  unfolding lora_set_payload
  reg-set_payload w q payload = reg-write bus spid chip w 0x22 q (payload) (omega arith) refl

  pub reg-set_syncw :
      (w : World) (q : ℕ) (word : ℕ)
      → reg (lora_set_syncw bus spid word w) q ≡ (if q == 0x39 then word % 256 else reg w q)
  unfolding lora_set_syncw
  reg-set_syncw w q word = reg-write bus spid chip w 0x39 q (word) (omega arith) refl
