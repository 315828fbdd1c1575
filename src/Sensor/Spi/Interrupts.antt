-- ===== src/Sensor/Spi/Interrupts.antt =====
-- The loop of the node step by step, with the interrupt between any two of its steps.
pub mod Putting
pub mod Splitting
use embeded_linux_gateway.Prelude.{
  ℕ, ◌+◌, Bool, true, false, Option, none, some, List, [], ◌∷◌, ◌++◌, ℤ, ◌==◌, if◌then◌else◌,
  get_or,
}
use embeded_linux_gateway.Sensor.Spi.{Slave, isr, count_char, string_data}

-- The node in `loop`: `sending` is `flag1`, and `text` is `stringData` while it is put.
pub record Looping : Type 0 where
  pub slave : Slave
  pub sending : Bool
  pub text : List ℕ

-- A byte comes, or the loop goes on.
pub data Event : Type 0 where
  byte : ℕ → Event
  next : Event

module _ (show : ℤ → List ℕ) where
  -- The test of `process` with the start of a round, in one step.
  unfoldable pub begin_round : Looping → Looping
  begin_round s =
      if s.slave.process
      then record {
        slave = record s.slave { receive_gw = [] };
        sending = true;
        text = string_data show s.slave;
      }
      else s

  -- A round of `while (flag1)`.
  unfoldable pub put_char : Looping → Option Looping
  put_char s =
      let t = record s.slave {
        spdr = s.slave.spdr ++ (get_or s.text s.slave.k 0 ∷ []);
        k = s.slave.k + 1;
      } in
      elim (count_char s.text) [
        | none ↦ none
        | some n ↦ some (
            if t.k == n
            then record { slave = record t { k = 0 }; sending = false; text = [] }
            else record s { slave = t })
      ]

  unfoldable pub act : Event → Looping → Option Looping
  unfolding begin_round put_char
  act (byte c) s = some (record s { slave = isr c s.slave })
  act next s = if s.sending then put_char s else some (begin_round s)

  unfoldable pub act_all : List Event → Looping → Option Looping
  unfolding act
  act_all [] s = some s
  act_all (e ∷ es) s = elim (act e s) [ none ↦ none | some t ↦ act_all es t ]
