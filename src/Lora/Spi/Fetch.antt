-- ===== src/Lora/Spi/Fetch.antt =====
-- `lora_reg_read_bytes` on the FIFO: the bytes arrive in the caller's buffer.
use embeded_linux_gateway.Prelude.{
  ℕ, zero, suc, ◌+◌, ◌-◌, ◌%◌, ◌<◌, ◌≤◌, ◌≡◌, refl, ap, false, some, List, [], ◌∷◌, ◌++◌, ℤ, arith,
  ◌==◌, length, take, drop, replicate, overlay, overlay-eq, length-replicate, append-nil,
}
use embeded_linux_gateway.Lora.Bus.{Bus, Chip, fifo_slice}
use embeded_linux_gateway.Lora.Spi.{lora_reg_read_bytes}

length-fifo_slice : (f : ℕ → ℕ) (a n : ℕ) → length (fifo_slice f a n) ≡ n
length-fifo_slice f a zero = refl
length-fifo_slice f a (suc n) = ap suc (length-fifo_slice f (a + 1) n)

take-length : (xs ys : List ℕ) → take (length xs) (xs ++ ys) ≡ xs
take-length [] ys = refl
take-length (x ∷ xs) ys = ap (λ t. x ∷ t) (take-length xs ys)

drop-replicate : (n : ℕ) → drop {A = ℕ} n (replicate n 0) ≡ []
drop-replicate zero = refl
drop-replicate (suc n) = drop-replicate n

-- What `memset`, `spiXfer` and `memcpy` leave in the caller's buffer of `n` bytes.
through_rx :
    (x n k : ℕ) (xs : List ℕ)
    → length xs ≡ n
    → n ≤ k
    → overlay (take n (drop 1 (overlay (x ∷ xs) (replicate (suc k) 0)))) (replicate n 0) ≡ xs
through_rx x n k xs e h =
    rw
      (
        overlay-eq xs (replicate k 0) (rw (e, length-replicate {A = ℕ} k 0) h),
        ← e,
        take-length xs (drop (length xs) (replicate k 0)),
        overlay-eq xs (replicate (length xs) 0)
            (rw (length-replicate {A = ℕ} (length xs) 0) (omega arith)),
        drop-replicate (length xs),
      )
      (append-nil xs)

added : (n : ℕ) → n + 1 - 1 ≡ n
added n = omega arith

module _ (bus : Bus) (spid : ℤ) (chip : Chip bus spid) where
  open bus use {World}
  open chip use {reg, fifo}

  pub read_bytes_lem :
      (w : World) (n : ℕ)
      → 0 < reg w 0x01 % 8
      → n < 256
      → (lora_reg_read_bytes bus spid 0x00 n w).0 ≡ some (fifo_slice (fifo w) (reg w 0x0d) n)
  unfolding lora_reg_read_bytes
  read_bytes_lem w n awake small =
      let (x, e) = chip.fetch_fifo w n small awake in
      rw (chip.fetch_ret w n small, e)
        (ground (
          arith,
          added n,
          through_rx x n 256 slice (length-fifo_slice (fifo w) (reg w 0x0d) n) (omega arith),
        ))
    where
      slice : List ℕ
      slice = fifo_slice (fifo w) (reg w 0x0d) n

  pub reg-read_bytes :
      (w : World) (n q : ℕ)
      → (q == 0x0d) ≡ false
      → reg (lora_reg_read_bytes bus spid 0x00 n w).2 q ≡ reg w q
  unfolding lora_reg_read_bytes
  reg-read_bytes w n q h = chip.fetch_keeps w n q h
