-- ===== src/Lora/Setup/Power.antt =====
-- The over-current limit and the output power, read back by the tables of the modem's data sheet.
use embeded_linux_gateway.Prelude.{
  ℕ, ◌+◌, ◌-◌, ◌*◌, ◌%◌, ◌<◌, ◌≤◌, ◌≡◌, refl, bit_and, ℤ, arith, ltb, leb, ◌==◌, if◌then◌else◌,
  bit_and-lt, sym,
}
use native.Mathlib.Nat.{mod-eq_of_lt}
use embeded_linux_gateway.Lora.Regs.{
  OutputPower, op20, power_code, PowerAmplifireOutputPin, rfo, pa_boost,
}
use embeded_linux_gateway.Lora.Bus.{Bus, Chip}
use embeded_linux_gateway.Lora.Spi.Laws.{reg-write}
use embeded_linux_gateway.Lora.Setup.{
  ocp_trim, clamp_power, pa_values, poke, lora_set_ocp, lora_set_tx_power,
}
use mathlib.Core.Path.{subst}
use embeded_linux_gateway.Lora.Setup.Laws.{reg-amend, IsClamped}

-- Imax in mA of the field OcpTrim.
abbrev pub i_max : ℕ → ℕ
i_max trim = if ltb trim 16 then 45 + 5 * trim else if ltb trim 28 then 10 * trim - 30 else 240

-- The limit that the driver aims at: at least 50 mA, none strictly between 120 and 130 mA, at most
-- 240 mA.
abbrev pub nearest_limit : ℕ → ℕ
nearest_limit ocp =
    if ltb ocp 50
    then 50
    else if leb ocp 120
    then ocp
    else if ltb ocp 130
    then 130
    else if ltb 240 ocp
    then 240
    else ocp

-- For a limit that is a byte, the trim value that `lora_set_ocp` computes has the enabling bit and fits
-- in 6 bits, and the current that it stands for is the limit that the driver aims at, or less than 10 mA
-- below.
pub ocp_trim_lem :
    (ocp : ℕ)
    → ocp < 256
    → (0x20 ≤ ocp_trim ocp)
      × (ocp_trim ocp < 0x40)
      × (i_max (ocp_trim ocp - 0x20) ≤ nearest_limit ocp)
      × (nearest_limit ocp < i_max (ocp_trim ocp - 0x20) + 10)
unfolding ocp_trim
ocp_trim_lem ocp h = ground arith

pa_values-lt :
    (power : OutputPower) (pin : PowerAmplifireOutputPin)
    → ((pa_values power pin).0 < 256) × ((pa_values power pin).1 < 256)
unfolding pa_values clamp_power
pa_values-lt op20 rfo = omega arith
pa_values-lt op20 pa_boost = omega arith
pa_values-lt _ rfo = omega arith
pa_values-lt _ pa_boost = omega arith

module _ (bus : Bus) (spid : ℤ) (chip : Chip bus spid) where
  open bus use {World}
  open chip use {reg}

  pub reg-set_ocp :
      (w : World) (q ocp : ℕ)
      → reg (lora_set_ocp bus spid ocp w) q ≡ (
          if q == 0x0b
          then (if ocp == 0 then bit_and (reg w 0x0b) 0xdf else ocp_trim ocp % 256)
          else reg w q)
  unfolding lora_set_ocp
  reg-set_ocp w q ocp = ground (
    arith,
    reg-amend bus spid chip w 0x0b q (λ v. bit_and v 0xdf) (omega arith) (omega arith) refl
        (bit_and-lt (reg w 0x0b) 0xdf (chip.reg_lt w 0x0b) (omega arith)),
    reg-write bus spid chip w 0x0b q (ocp_trim ocp) (omega arith) refl,
  )

  pub reg-set_tx_power :
      (w : World) (q : ℕ) (power : OutputPower) (pin : PowerAmplifireOutputPin)
      → reg (lora_set_tx_power bus spid power pin w) q ≡ (
          if q == 0x09
          then (pa_values power pin).1
          else if q == 0x4d
          then (pa_values power pin).0
          else if q == 0x0b
          then 0x1f
          else reg w q)
  unfolding lora_set_tx_power
  reg-set_tx_power w q power pin = rw (
    reg-write bus spid chip (poke bus spid 0x4d (pa_values power pin).0 (poke bus spid 0x0b 0x1f w))
        0x09 q (pa_values power pin).1 (omega arith) refl,
    reg-write bus spid chip (poke bus spid 0x0b 0x1f w) 0x4d q (pa_values power pin).0 (omega arith)
        refl,
    reg-write bus spid chip w 0x0b q 0x1f (omega arith) refl,
    mod-eq_of_lt (pa_values-lt power pin).0,
    mod-eq_of_lt (pa_values-lt power pin).1,
  )

-- The output in dBm that PA_CONFIG and PA_DAC stand for, with MaxPower 7: on RFO the field
-- OutputPower, on PA_BOOST two more, and three more again with the high-power setting of PA_DAC.
abbrev pub output_dbm : ℕ → ℕ → ℕ
output_dbm dac config =
    if ltb config 128 then config % 16 else if dac == 0x87 then config % 16 + 5 else config % 16 + 2

-- What the code's clamp leaves of the power, except at the top setting.
abbrev expected_dbm : OutputPower → PowerAmplifireOutputPin → ℕ
expected_dbm power rfo = clamp_power 0 15 (power_code power)
expected_dbm op20 pa_boost = 7
expected_dbm power pa_boost = clamp_power 2 17 (power_code power)

output_dbm-expected :
    (power : OutputPower) (pin : PowerAmplifireOutputPin)
    → output_dbm (pa_values power pin).0 (pa_values power pin).1 ≡ expected_dbm power pin
unfolding pa_values clamp_power
output_dbm-expected op20 rfo = refl
output_dbm-expected op20 pa_boost = refl
output_dbm-expected _ rfo = refl
output_dbm-expected _ pa_boost = refl

clamp_power-IsClamped :
    (lo hi power : ℕ) → lo ≤ hi → IsClamped lo hi power (clamp_power lo hi power)
unfolding clamp_power
clamp_power-IsClamped lo hi power h = record {
  below = λ l. ground arith;
  within = λ l g. ground arith;
  above = λ l. ground arith;
}

-- `dbm` is what the pin gives of the power that is asked for: the nearest in 0..15 dBm on RFO and in 2..17 dBm
-- on PA_BOOST, but 7 dBm for the setting 20 on PA_BOOST, which is meant to be 20 dBm.
abbrev pub IsPower : OutputPower → PowerAmplifireOutputPin → ℕ → Type 0
IsPower power rfo dbm = IsClamped 0 15 (power_code power) dbm
IsPower op20 pa_boost dbm = dbm ≡ 7
IsPower power pa_boost dbm = IsClamped 2 17 (power_code power) dbm

expected_dbm-IsPower :
    (power : OutputPower) (pin : PowerAmplifireOutputPin)
    → IsPower power pin (expected_dbm power pin)
expected_dbm-IsPower op20 rfo = clamp_power-IsClamped 0 15 (power_code op20) (omega arith)
expected_dbm-IsPower op20 pa_boost = refl
expected_dbm-IsPower power rfo = clamp_power-IsClamped 0 15 (power_code power) (omega arith)
expected_dbm-IsPower power pa_boost = clamp_power-IsClamped 2 17 (power_code power) (omega arith)

-- The power that the two register values stand for is the one that is asked for if the pin gives it, else the
-- nearest that it gives, of 0..15 dBm on RFO and of 2..17 dBm on PA_BOOST; except that the setting 20 on PA_BOOST,
-- which is meant to be 20 dBm, gives 7 dBm.
pub output_dbm-pa_values :
    (power : OutputPower) (pin : PowerAmplifireOutputPin)
    → IsPower power pin (output_dbm (pa_values power pin).0 (pa_values power pin).1)
output_dbm-pa_values power pin =
    subst (IsPower power pin) (sym (output_dbm-expected power pin)) (expected_dbm-IsPower power pin)
