-- ===== src/Sensor/Spi.antt =====
-- src/node/nodeSPI/SPIuser.ino: the node that clientSPI.c polls. An interrupt takes the bytes of the requests;
-- the loop puts the characters of its answer to the data register one after the other.
pub mod Words
pub mod Transmit
pub mod Answers
pub mod Interrupts
use embeded_linux_gateway.Prelude.{
  ℕ, zero, suc, ◌+◌, Bool, true, false, ◌||◌, Option, none, some, List, [], ◌∷◌, ◌++◌, ℤ, pos, ◌==◌,
  if◌then◌else◌, get_or,
}
use embeded_linux_gateway.Server.{codes}
use embeded_linux_gateway.Sensor.{equals}

abbrev pub key : List ℕ
key = codes "b*"

abbrev pub key_data : ℤ
key_data = pos 97

abbrev pub closing : ℕ
closing = b'}'

-- The globals; `spdr` are the characters that were put to the data register, in their order.
pub record Slave : Type 0 where
  pub process : Bool
  pub receive_gw : List ℕ
  pub temp : ℤ
  pub k : ℕ
  pub spdr : List ℕ

abbrev pub is_letter : ℕ → Bool
is_letter c = c == b'a' || c == b'b'

-- `ISR (SPI_STC_vect)`, with the byte in the data register.
unfoldable pub isr : ℕ → Slave → Slave
isr c s =
    let word = if is_letter c || c == b'*' then s.receive_gw ++ (c ∷ []) else s.receive_gw in
    if c == b'*'
    then record s { process = equals key word; receive_gw = [] }
    else record s { receive_gw = word }

unfoldable pub isr_all : List ℕ → Slave → Slave
isr_all [] s = s
isr_all (c ∷ cs) s = isr_all cs (isr c s)

-- The number of characters up to the first '}'; without one the search does not end, `none`.
unfoldable pub count_char : List ℕ → Option ℕ
count_char [] = none
count_char (c ∷ cs) =
    let rest = count_char cs in
    if c == closing then some 1 else elim rest [ none ↦ none | some n ↦ some (n + 1) ]

-- `show` is how a number is appended to a `String`.
module _ (show : ℤ → List ℕ) where
  -- `stringData` when it is complete.
  unfoldable pub string_data : Slave → List ℕ
  string_data s =
      codes "{\"keynode\":"
      ++ (show key_data ++ (codes ",\"Temp\":" ++ (show s.temp ++ (closing ∷ []))))

  -- `while (flag1)`, with `fuel` rounds at most; a round past the end of the text puts a 0.
  unfoldable pub transmit : ℕ → List ℕ → Slave → Option Slave
  transmit zero text s = none
  transmit (suc fuel) text s =
      let t = record s { spdr = s.spdr ++ (get_or text s.k 0 ∷ []); k = s.k + 1 } in
      let rest = transmit fuel text t in
      elim (count_char text) [
        | none ↦ none
        | some n ↦ if t.k == n then some (record t { k = 0 }) else rest
      ]

  -- A round of `while (process)`.
  unfoldable pub loop_round : ℕ → Slave → Option Slave
  loop_round fuel s =
      if s.process then transmit fuel (string_data s) (record s { receive_gw = [] }) else some s

  -- A number of rounds, each with the same fuel.
  unfoldable pub loop_rounds : ℕ → ℕ → Slave → Option Slave
  loop_rounds fuel zero s = some s
  loop_rounds fuel (suc n) s = elim (loop_round fuel s) [
    | none ↦ none
    | some t ↦ loop_rounds fuel n t
  ]
