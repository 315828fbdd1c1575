-- ===== src/Lora/Setup/Words.antt =====
-- The values that span several registers: the carrier frequency and the preamble length.
use embeded_linux_gateway.Prelude.{
  ℕ, zero, suc, ◌+◌, ◌-◌, ◌*◌, ◌/◌, ◌%◌, ◌<◌, ◌≤◌, ◌≡◌, refl, [], ◌∷◌, ℤ, arith, ◌==◌,
  if◌then◌else◌, get_or,
}
use embeded_linux_gateway.Lora.Bus.{Bus, Chip}
use embeded_linux_gateway.Lora.Spi.Laws.{reg-write_bytes}
use embeded_linux_gateway.Lora.Setup.Laws.{IsClamped}
use embeded_linux_gateway.Lora.Setup.{
  frf_of, frf_bytes, clamp_preamble, preamble_bytes, lora_set_freq, lora_set_preamble,
}

-- The frequency that a number in the FRF registers stands for, in units of 1/256 Hz, is the number
-- times 15625. It is the first one not below `freq`.
pub frf_of_lem :
    (freq : ℕ) → (256 * freq ≤ 15625 * frf_of freq) × (15625 * frf_of freq < 256 * freq + 15625)
unfolding frf_of
frf_of_lem freq = omega arith

pub clamp_preamble_lem : (n : ℕ) → (6 ≤ clamp_preamble n) × (clamp_preamble n < 65536)
unfolding clamp_preamble
clamp_preamble_lem n = ground arith

pub clamp_preamble-IsClamped : (n : ℕ) → IsClamped 6 65535 n (clamp_preamble n)
unfolding clamp_preamble
clamp_preamble-IsClamped n = record {
  below = λ h. ground arith;
  within = λ h g. ground arith;
  above = λ h. ground arith;
}

frf_bytes_lem : (n : ℕ) → frf_bytes n ≡ n / 65536 % 256 ∷ n / 256 % 256 ∷ n % 256 ∷ []
unfolding frf_bytes
frf_bytes_lem n = ground arith

preamble_bytes_lem : (n : ℕ) → n < 65536 → preamble_bytes n ≡ n / 256 ∷ n % 256 ∷ []
unfolding preamble_bytes
preamble_bytes_lem n h = ground arith

-- A byte of a short list, by tests on its index.
get_or-three :
    (a b c d : ℕ)
    → get_or (a ∷ b ∷ c ∷ []) d 0
      ≡ (if d == 0 then a else if d == 1 then b else if d == 2 then c else 0)
get_or-three a b c zero = refl
get_or-three a b c (suc zero) = refl
get_or-three a b c (suc (suc zero)) = refl
get_or-three a b c (suc (suc (suc d))) = ground arith

get_or-two : (a b d : ℕ) → get_or (a ∷ b ∷ []) d 0 ≡ (if d == 0 then a else if d == 1 then b else 0)
get_or-two a b zero = refl
get_or-two a b (suc zero) = refl
get_or-two a b (suc (suc d)) = ground arith

module _ (bus : Bus) (spid : ℤ) (chip : Chip bus spid) where
  open bus use {World}
  open chip use {reg}

  pub reg-set_freq :
      (w : World) (q freq : ℕ)
      → reg (lora_set_freq bus spid freq w) q ≡ (
          if q == 0x06
          then frf_of freq / 65536 % 256
          else if q == 0x07
          then frf_of freq / 256 % 256
          else if q == 0x08
          then frf_of freq % 256
          else reg w q)
  unfolding lora_set_freq
  reg-set_freq w q freq =
      rw
        (
          lora_set_freq,
          frf_bytes_lem (frf_of freq),
          reg-write_bytes bus spid chip w 0x06 q
              (frf_of freq / 65536 % 256 ∷ frf_of freq / 256 % 256 ∷ frf_of freq % 256 ∷ [])
              (omega arith) refl,
          get_or-three (frf_of freq / 65536 % 256) (frf_of freq / 256 % 256) (frf_of freq % 256)
              (q - 6),
        )
        (ground arith)

  pub reg-set_preamble :
      (w : World) (q n : ℕ)
      → reg (lora_set_preamble bus spid n w) q ≡ (
          if q == 0x20
          then clamp_preamble n / 256
          else if q == 0x21
          then clamp_preamble n % 256
          else reg w q)
  unfolding lora_set_preamble
  reg-set_preamble w q n =
      rw
        (
          lora_set_preamble,
          preamble_bytes_lem (clamp_preamble n) (clamp_preamble_lem n).1,
          reg-write_bytes bus spid chip w 0x20 q
              (clamp_preamble n / 256 ∷ clamp_preamble n % 256 ∷ []) (omega arith) refl,
          get_or-two (clamp_preamble n / 256) (clamp_preamble n % 256) (q - 32),
        )
        (ground (arith, clamp_preamble_lem n))
