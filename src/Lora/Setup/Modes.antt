-- ===== src/Lora/Setup/Modes.antt =====
-- The operating mode: what `lora_set_lora_mode` and the mode setters leave of the mode register.
use embeded_linux_gateway.Prelude.{
  ℕ, ◌+◌, ◌*◌, ◌/◌, ◌%◌, ◌<◌, ◌≡◌, refl, bit_and, bit_or, true, ℤ, arith, ◌==◌, ==_iff,
  if◌then◌else◌, checked_to, checked_to_sound, bit_and-lt, bit_or-lt,
}
use native.Mathlib.Nat.{add-zero}
use embeded_linux_gateway.Lora.Bus.{Bus, Chip, op_mode_write}
use embeded_linux_gateway.Lora.Setup.{lora_set_lora_mode, lora_set_sleep_mode}
use embeded_linux_gateway.Lora.Setup.Laws.{reg-amend_mode, reg-set_sleep_mode}

-- What the mode setters and `lora_set_lora_mode` leave, from any value of the register, at modes other
-- than sleep from a register that keeps its bit 7.
mode_table :
    checked_to 256
      (λ v. checked_to 8 (λ m. op_mode_write v (bit_or (bit_and v 0xf8) m) == v / 8 * 8 + m))
    ≡ true
unfolding checked_to
mode_table = refl

lora_table :
    checked_to 256 (λ v.
      op_mode_write (v / 8 * 8) (bit_or (bit_and (v / 8 * 8) 0x7f) 0x80) == 128 + v / 8 % 16 * 8)
    ≡ true
unfolding checked_to
lora_table = refl

pub op_mode_value :
    (v m : ℕ) → v < 256 → m < 8 → op_mode_write v (bit_or (bit_and v 0xf8) m) ≡ v / 8 * 8 + m
op_mode_value v m h k = (==_iff _ _).0 (
    checked_to_sound 8 (λ m. op_mode_write v (bit_or (bit_and v 0xf8) m) == v / 8 * 8 + m) m
      (checked_to_sound 256
        (λ v. checked_to 8 (λ m. op_mode_write v (bit_or (bit_and v 0xf8) m) == v / 8 * 8 + m)) v
        mode_table h)
      k)

lora_value :
    (v : ℕ)
    → v < 256
    → op_mode_write (v / 8 * 8) (bit_or (bit_and (v / 8 * 8) 0x7f) 0x80) ≡ 128 + v / 8 % 16 * 8
lora_value v h = (==_iff _ _).0 (
    checked_to_sound 256
      (λ v.
        op_mode_write (v / 8 * 8) (bit_or (bit_and (v / 8 * 8) 0x7f) 0x80) == 128 + v / 8 % 16 * 8)
      v lora_table h)

module _ (bus : Bus) (spid : ℤ) (chip : Chip bus spid) where
  open bus use {World}
  open chip use {reg}

  pub reg-set_lora_mode :
      (w : World) (q : ℕ)
      → reg (lora_set_lora_mode bus spid w) q
        ≡ (if q == 1 then 128 + reg w 1 / 8 % 16 * 8 else reg w q)
  unfolding lora_set_lora_mode
  reg-set_lora_mode w q =
      rw
        (
          reg-amend_mode bus spid chip (lora_set_sleep_mode bus spid w) q
              (λ v. bit_or (bit_and v 0x7f) 0x80)
              (bit_or-lt _ 0x80 (bit_and-lt _ 0x7f (chip.reg_lt _ 1) (omega arith)) (omega arith)),
          reg-set_sleep_mode bus spid chip w 1,
          op_mode_value (reg w 1) 0 (chip.reg_lt w 1) (omega arith),
          add-zero,
          lora_value (reg w 1) (chip.reg_lt w 1),
          reg-set_sleep_mode bus spid chip w q,
        )
        (ground arith)
