-- ===== src/Sensor/Wifi/Readings.antt =====
-- What the node publishes of the readings of its sensors. Whether two numbers are equal, and the number -1, are
-- parameters, since `float` is one.
use embeded_linux_gateway.Prelude.{
  ℕ, ◌+◌, ◌^◌, ◌≤◌, ◌<◌, ◌≡◌, refl, ◌∙◌, ap, Bool, true, Option, none, some, List, [], ◌∷◌, ℤ, leb,
  lt→ltb, ◌==◌, if◌then◌else◌, length, arith, Bool-cases, inl, inr,
}
use embeded_linux_gateway.Mqtt.{Message}
use embeded_linux_gateway.Sensor.{Printing}
use embeded_linux_gateway.Sensor.Wifi.{Station, Values, elapsed, string_data, loop_round}
use embeded_linux_gateway.Sensor.Wifi.Publishing.{figures, message, text}

module _ (printing : Printing) where
  open printing use {Float}

  -- The sensors in one round.
  pub record Reading : Type 0 where
    pub gas_din : ℕ
    pub gas_ain : ℤ
    pub temp : Float
    pub hum : Float
    pub pres : Float

  -- The globals that the readings go to.
  pub record Measured : Type 0 where
    pub values : Values printing
    pub pres_temp : Float

  -- The time of the last of some rounds.
  abbrev pub last_time : ℕ → List (ℕ × Reading) → ℕ
  last_time t [] = t
  last_time t ((now, r) ∷ later) = last_time now later

  -- Each round begins more than 2000 ms after the one before.
  abbrev pub Paced : ℕ → List (ℕ × Reading) → Type 0
  Paced t [] = Unit
  Paced t ((now, r) ∷ later) = (2000 < elapsed now t) × (elapsed now t < 2 ^ 31) × Paced now later

  module _ (same : Float → Float → Bool) (unread : Float) where
    unfoldable pub measure : Reading → Measured → Measured
    measure r m =
        let again = same m.pres_temp r.pres in
        record {
          values = record {
            temp = r.temp;
            hum = r.hum;
            gas = if r.gas_din == 0 then r.gas_ain else m.values.gas;
            pres = if again then unread else r.pres;
          };
          pres_temp = if again then m.pres_temp else r.pres;
        }

    -- Rounds of `while(1)`, each with the time that it has from `millis()`.
    unfoldable pub measured_rounds : List (ℕ × Reading) → Measured → Station → Option Station
    measured_rounds [] m s = some s
    measured_rounds ((now, r) ∷ later) m s =
        let t = measure r m in
        elim (loop_round printing now t.values s) [
          | none ↦ none
          | some u ↦ measured_rounds later t u
        ]

    -- One message for each round, after `old`, the latest first. `gas` is the gas value so far, and `pres` the
    -- pressure read in the round before.
    abbrev pub reports : List (ℕ × Reading) → ℤ → Float → List (ℕ × Message) → List (ℕ × Message)
    reports [] gas pres old = old
    reports ((now, r) ∷ later) gas pres old =
        let seen = if r.gas_din == 0 then r.gas_ain else gas in
        let v : Values printing = record {
          temp = r.temp;
          hum = r.hum;
          gas = seen;
          pres = if same pres r.pres then unread else r.pres;
        } in
        reports later seen r.pres ((now, message printing v) ∷ old)

    -- The numbers of each text have at most 28 characters.
    abbrev pub AllFit : List (ℕ × Reading) → Measured → Type 0
    AllFit [] m = Unit
    AllFit ((now, r) ∷ later) m =
        (figures printing (measure r m).values ≤ 28) × AllFit later (measure r m)

    one_round :
        (now : ℕ) (v : Values printing) (s : Station)
        → figures printing v ≤ 28
        → 2000 < elapsed now s.last_msg
        → elapsed now s.last_msg < 2 ^ 31
        → loop_round printing now v s
          ≡ some (record { last_msg = now; published = (now, message printing v) ∷ s.published })
    unfolding loop_round
    one_round now v s fits late soon =
        let (small, whole) = text printing v fits in
        let room : leb (length (string_data printing v) + 1) 60 ≡ true = ground arith in
        rw
          (
            room,
            lt→ltb 2000 (elapsed now s.last_msg) late,
            lt→ltb (elapsed now s.last_msg) (2 ^ 31) soon,
            whole,
          )
          refl

    noted :
        (r : Reading) (m : Measured)
        → ((a b : Float) → same a b ≡ true → a ≡ b)
        → (measure r m).pres_temp ≡ r.pres
    unfolding measure
    noted r m equal = elim (Bool-cases (same m.pres_temp r.pres)) [
      | inl again ↦ rw again (equal m.pres_temp r.pres again)
      | inr new ↦ rw new refl
    ]

    -- If each round begins more than 2000 ms after the one before, by the 32-bit clock, the texts fit, and numbers
    -- that compare as the same are equal, then every round publishes the whole text of its values, in order: the
    -- gas value is the last that was read with the sensor's pin at 0, and the pressure is -1 if it is the same as in
    -- the round before.
    pub measured_rounds-reports :
        (rs : List (ℕ × Reading)) (m : Measured) (s : Station)
        → Paced s.last_msg rs
        → AllFit rs m
        → ((a b : Float) → same a b ≡ true → a ≡ b)
        → measured_rounds rs m s
          ≡ some (record {
            last_msg = last_time s.last_msg rs;
            published = reports rs m.values.gas m.pres_temp s.published;
          })
    unfolding measured_rounds measure
    measured_rounds-reports [] m s paced fit equal = refl
    measured_rounds-reports ((now, r) ∷ later) m s paced fit equal =
        let t = measure r m in
        let new = (now, message printing t.values) ∷ s.published in
        rw (measured_rounds, one_round now t.values s fit.0 paced.0 paced.1)
          (measured_rounds-reports later t (record { last_msg = now; published = new }) paced.2
              fit.1 equal
            ∙ ap
                (λ p. some (record {
                  last_msg = last_time now later;
                  published = reports later t.values.gas p new;
                }))
                (noted r m equal))
