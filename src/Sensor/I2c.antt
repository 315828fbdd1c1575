-- ===== src/Sensor/I2c.antt =====
-- src/node/nodeI2C/I2Cuser.ino: the node that clientI2C.c sends its requests to.
pub mod Requests
use embeded_linux_gateway.Prelude.{
  ℕ, ◌+◌, Bool, true, false, ◌&&◌, Option, none, some, List, [], ◌∷◌, ◌++◌, ℤ, pos, ltb, ◌==◌,
  if◌then◌else◌, get_or, set, replicate,
}
use embeded_linux_gateway.Server.{codes}
use embeded_linux_gateway.Sensor.{equals}

abbrev pub key_node : List ℕ
key_node = codes "1997."

abbrev pub data_node : List ℕ
data_node = codes "da*"

abbrev pub keynode : ℤ
keynode = pos 97

abbrev pub key_data : ℤ
key_data = pos 99

-- The globals.
pub record Slave : Type 0 where
  pub key : List ℕ
  pub i : ℕ
  pub flag : ℕ
  pub receive_gw : List ℕ

-- `memset(&key,'/0',sizeof(key))`: the low byte of the constant is that of '0'.
abbrev pub filled : List ℕ
filled = replicate 6 b'0'

-- What the end of a word does: its value of `flag` is set if the word is the one.
unfoldable pub end_word : List ℕ → ℕ → Slave → Slave
end_word word value s = record {
  key = filled;
  i = 0;
  flag = if equals word s.receive_gw then value else s.flag;
  receive_gw = [];
}

-- A round of `while (0 < Wire.available())`, with the byte; `none` is a write past the end of `key[6]`.
unfoldable pub receive_byte : ℕ → Slave → Option Slave
unfolding end_word
receive_byte c s =
    let s1 = record s { key = set s.key s.i c; receive_gw = s.receive_gw ++ (c ∷ []) } in
    let s2 = if get_or s1.key s1.i 0 == b'.' then end_word key_node 0 s1 else s1 in
    let s3 = if get_or s2.key s2.i 0 == b'*' then end_word data_node 1 s2 else s2 in
    if ltb s.i 6 then some (record s3 { i = s3.i + 1 }) else none

-- `receiveEvent`.
unfoldable pub receive_event : List ℕ → Slave → Option Slave
receive_event [] s = some s
receive_event (c ∷ cs) s = elim (receive_byte c s) [ none ↦ none | some t ↦ receive_event cs t ]

-- The text of an answer; `show` is how a number is appended to a `String`.
unfoldable pub answer : (ℤ → List ℕ) → ℤ → List ℕ
answer show number = codes "{\"keynode\":" ++ (show number ++ codes "}")

-- `requestEvent`: what it prints to the bus, with the end of the line.
unfoldable pub request_event : (ℤ → List ℕ) → Slave → List ℕ
unfolding answer
request_event show s =
    if s.flag == 0
    then answer show keynode ++ codes "\r\n"
    else answer show key_data ++ codes "\r\n"
