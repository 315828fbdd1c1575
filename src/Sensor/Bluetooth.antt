-- ===== src/Sensor/Bluetooth.antt =====
-- src/node/bluetooth_master/bluetooth_master.ino: the node whose lines ClientUART.c reads. The file has marks of a
-- merge around the reading of the gas sensor, which is left out here: its value is an input.
pub mod Rounds
use embeded_linux_gateway.Prelude.{
  ℕ, ◌+◌, ◌≤◌, ◌≡◌, refl, ◌∙◌, ap, Bool, false, some, List, [], ◌∷◌, ℤ, pos, negsuc, ltb, ◌==◌,
  if◌then◌else◌, length, replicate, overlay, c_string, NoNul, arith, Bool-cases, inl, inr,
}
use embeded_linux_gateway.Server.{codes}
use embeded_linux_gateway.Mqtt.{publish_mess}
use embeded_linux_gateway.Uart.{Uart, read_message}
use embeded_linux_gateway.Sensor.{
  Printing, joined, joined-NoNul, length-joined, has_no_nul-NoNul, c_string-blank,
}

abbrev pub id_node : ℤ
id_node = pos 97

-- The values of one round of `loop`, as the 16-bit variables `valueTemp` to `valuePres` hold them. How the values
-- that the libraries give as `float` become these is left out.
pub record Values : Type 0 where
  pub temp : ℤ
  pub hum : ℤ
  pub gas : ℤ
  pub pres : ℤ

-- `==` on integers.
abbrev pub same_ℤ : ℤ → ℤ → Bool
same_ℤ (pos a) (pos b) = a == b
same_ℤ (negsuc a) (negsuc b) = a == b
same_ℤ _ _ = false

-- The pressure that is sent, and `valuePres_temp`, from what the sensor reads: the same value as the round
-- before is sent as -1.
unfoldable pub pressure : ℤ → ℤ → ℤ × ℤ
pressure read pres_temp = if same_ℤ pres_temp read then (negsuc 0, pres_temp) else (read, read)

module _ (printing : Printing) where
  open printing use {show}

  -- `stringData` piece by piece, and the line that is sent, with the end that `println` gives it.
  abbrev pub pieces : Values → List (List ℕ)
  pieces v =
      codes "{\"id\":"
      ∷ show id_node
      ∷ codes ",\"t\":\""
      ∷ show v.temp
      ∷ codes "\",\"h\":\""
      ∷ show v.hum
      ∷ codes "\",\"g\":"
      ∷ show v.gas
      ∷ codes ",\"p\":"
      ∷ show v.pres
      ∷ codes "}"
      ∷ codes "\r\n"
      ∷ []

  unfoldable pub line : Values → List ℕ
  line v = joined (pieces v)

  -- The characters of the numbers.
  abbrev pub figures : Values → ℕ
  figures v =
      length (show id_node)
      + length (show v.temp)
      + length (show v.hum)
      + length (show v.gas)
      + length (show v.pres)

  length-line : (v : Values) → length (line v) ≡ 33 + figures v
  unfolding line
  length-line v = omega (arith, length-joined (pieces v))

  line-NoNul : (v : Values) → NoNul (line v)
  unfolding line
  line-NoNul v = joined-NoNul (pieces v) (
    has_no_nul-NoNul (codes "{\"id\":") refl,
    (
      printing.show-NoNul id_node,
      (
        has_no_nul-NoNul (codes ",\"t\":\"") refl,
        (
          printing.show-NoNul v.temp,
          (
            has_no_nul-NoNul (codes "\",\"h\":\"") refl,
            (
              printing.show-NoNul v.hum,
              (
                has_no_nul-NoNul (codes "\",\"g\":") refl,
                (
                  printing.show-NoNul v.gas,
                  (
                    has_no_nul-NoNul (codes ",\"p\":") refl,
                    (
                      printing.show-NoNul v.pres,
                      (
                        has_no_nul-NoNul (codes "}") refl,
                        (has_no_nul-NoNul (codes "\r\n") refl, tt),
                      ),
                    ),
                  ),
                ),
              ),
            ),
          ),
        ),
      ),
    ),
  )

  long_enough : (n : ℕ) → ltb 41 (33 + n) ≡ ltb 8 n
  long_enough n = ground arith

  -- The lines that the daemon takes.
  pub size-line : (v : Values) → ltb 41 (length (line v)) ≡ ltb 8 (figures v)
  size-line v = ap (ltb 41) (length-line v) ∙ long_enough (figures v)

  -- A line of the node whose numbers have at most 16 characters, and in which the JSON library finds the node's
  -- id, is published by the daemon that reads it at once exactly if its numbers have more than 8 characters; it
  -- is then published whole.
  pub read_message-line :
      (parse : List ℕ → ℤ) (v : Values) (u : Uart)
      → figures v ≤ 16
      → parse (line v) ≡ id_node
      → (read_message parse (some (line v)) u).published ≡ (
          if ltb 8 (figures v)
          then record { topic = "data_bl"; payload = line v; qos = 1; retained = false }
            ∷ u.published
          else u.published)
  unfolding read_message publish_mess
  read_message-line parse v u fits parsed =
      let whole : c_string (overlay (line v) (replicate 50 0)) ≡ line v =
        c_string-blank (line v) 50 (line-NoNul v) (omega (arith, length-line v)) in
      let size_ = size-line v in
      elim (Bool-cases (ltb 8 (figures v))) [
        | inl long ↦ rw (size_, long, whole, parsed) refl
        | inr short ↦ rw (size_, short) refl
      ]
