-- ===== src/Sensor/Bluetooth/Rounds.antt =====
-- Rounds of the Bluetooth node, with the daemon that reads its lines: a pressure that has not changed is sent as
-- -1, and the daemon drops short lines.
use embeded_linux_gateway.Prelude.{
  ℕ, ◌≤◌, ◌<◌, ◌≡◌, ap, true, false, some, List, [], ◌∷◌, length, ℤ, pos, negsuc, ltb, ◌==◌,
  if◌then◌else◌, arith,
}
use embeded_linux_gateway.Mqtt.{Message}
use embeded_linux_gateway.Uart.{Uart, read_message}
use embeded_linux_gateway.Sensor.{Printing}
use embeded_linux_gateway.Sensor.Bluetooth.{Values, same_ℤ, pressure, line, figures}

-- The range of an `int` of the node, of 16 bits.
abbrev pub IsInt : ℤ → Type 0
IsInt (pos n) = n < 32768
IsInt (negsuc n) = n < 32768

eq→≡ : (m n : ℕ) → (m == n) ≡ true → m ≡ n
eq→≡ m n h = ground arith

pub same_ℤ→≡ : (a b : ℤ) → same_ℤ a b ≡ true → a ≡ b
same_ℤ→≡ (pos a) (pos b) h = ap pos (eq→≡ a b h)
same_ℤ→≡ (negsuc a) (negsuc b) h = ap negsuc (eq→≡ a b h)
same_ℤ→≡ (pos a) (negsuc b) h = absurd (ground arith)
same_ℤ→≡ (negsuc a) (pos b) h = absurd (ground arith)

-- The pressure that those know who have the messages with these values, the latest first: the last that is not -1.
abbrev pub known : List Values → ℤ
known [] = negsuc 0
known (v ∷ vs) = let rest = known vs in if same_ℤ v.pres (negsuc 0) then rest else v.pres

-- The pressure that `valuePres` has held last before it is compared.
abbrev pub last_read : List Values → ℤ → ℤ
last_read [] pres = pres
last_read (r ∷ rs) pres = last_read rs r.pres

module _ (printing : Printing) (parse : List ℕ → ℤ) where
  abbrev pub message : Values → Message
  message v = record { topic = "data_bl"; payload = line printing v; qos = 1; retained = false }

  abbrev pub messages : List Values → List Message
  messages [] = []
  messages (v ∷ vs) = message v ∷ messages vs

  -- The values that are sent, of a reading and `valuePres_temp`.
  abbrev pub sent : Values → ℤ → Values
  sent r pres_temp = record r { pres = (pressure r.pres pres_temp).0 }

  -- Rounds of the node, whose lines the daemon reads each with one `read`, with `valuePres_temp`.
  unfoldable pub rounds : List Values → ℤ → Uart → Uart
  rounds [] pres_temp u = u
  rounds (r ∷ rs) pres_temp u =
      rounds rs (pressure r.pres pres_temp).1
        (read_message parse (some (line printing (sent r pres_temp))) u)

  -- The values of a reading are in the range of their variables, of 16 bits. Its numbers have more than 8 characters,
  -- and at most 16, with the pressure or -1, so that the line leaves a 0 in the daemon's buffer. The pressure is not
  -- -1.
  pub record Fits (r : Values) : Type 0 where
    pub long : 8 < figures printing r
    pub short : figures printing r ≤ 16
    pub unchanged : figures printing (record r { pres = negsuc 0 }) ≤ 16
    pub range : IsInt r.temp × IsInt r.hum × IsInt r.gas × IsInt r.pres
    pub real : same_ℤ r.pres (negsuc 0) ≡ false

  abbrev pub AllFit : List Values → Type 0
  AllFit [] = Unit
  AllFit (r ∷ rs) = Fits r × AllFit rs

  -- The values in the lines that are more than 41 characters, of those sent, the latest first.
  unfoldable pub taken : List Values → ℤ → List Values → List Values
  taken [] pres_temp vs = vs
  taken (r ∷ rs) pres_temp vs =
      let v = sent r pres_temp in
      taken rs (pressure r.pres pres_temp).1
        (if ltb 41 (length (line printing v)) then v ∷ vs else vs)
