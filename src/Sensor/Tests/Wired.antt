-- ===== src/Sensor/Tests/Wired.antt =====
-- The nodes on SPI and I2C, and the one with its own network, at concrete inputs.
use embeded_linux_gateway.Prelude.{
  true, drop, ltb, ℕ, ◌%◌, ◌≡◌, refl, false, none, some, List, [], ◌∷◌, ◌++◌, ℤ, pos, negsuc, ◌==◌,
  arith, inr, replicate, c_string, take, if◌then◌else◌,
}
use embeded_linux_gateway.Server.{codes}
use embeded_linux_gateway.Node.{request_key, Event, asked, Poller, first_state, main_start, act_all}
use embeded_linux_gateway.Node.Stream.{chars}
use embeded_linux_gateway.Node.Watching.{hears}
use embeded_linux_gateway.I2c.{requests}
use embeded_linux_gateway.Sensor.{equals, joined}
use embeded_linux_gateway.Sensor.Spi.{Slave, string_data, loop_rounds, isr_all}
use embeded_linux_gateway.Sensor.Spi.Words.{letters, isr_all-process}
use embeded_linux_gateway.Sensor.Spi.Answers.{request-temp}
use embeded_linux_gateway.Sensor.Spi.Interrupts
use embeded_linux_gateway.Sensor.Spi.Interrupts.{Looping, byte, next}
use embeded_linux_gateway.Sensor.Spi.Interrupts.Putting.{IsPut, act_all-texts}
use embeded_linux_gateway.Sensor.Spi.Interrupts.Splitting.{act_all-split}
use embeded_linux_gateway.Sensor.I2c
use embeded_linux_gateway.Sensor.I2c.{answer, receive_event, request_event}
use embeded_linux_gateway.Sensor.I2c.Requests.{
  IsBetween, take_requests, take_requests-requests, receive_event-NoEnd,
}
use embeded_linux_gateway.Sensor.Wifi.{Values, credentials}
use embeded_linux_gateway.Sensor.Bluetooth.{same_ℤ}
use embeded_linux_gateway.Sensor.Bluetooth.Rounds.{same_ℤ→≡}
use embeded_linux_gateway.Sensor.Wifi.Readings
use embeded_linux_gateway.Sensor.Wifi.Credentials.{credentials-line}
use embeded_linux_gateway.Sensor.Tests.{two_digits, printing}

abbrev measured : Slave
measured = record { process = false; receive_gw = []; temp = pos 30; k = 0; spdr = [] }

abbrev parsed : List ℕ → ℤ × ℤ
parsed text = (pos 97, pos 30)

-- Two texts, and a request in the midst of the second.
abbrev heard_all : List Event
heard_all =
    hears (codes "{\"keynode\":97,\"Temp\":30}{\"keynode\":97,")
    ++ (asked ∷ hears (codes "\"Temp\":30}"))

request-temp_example :
    (u : Slave) × (t : Poller) × (loop_rounds two_digits 24 2 (isr_all request_key measured)
      ≡ some u)
    × (u.spdr ≡ joined (replicate 2 (string_data two_digits measured)))
    × (act_all parsed (asked ∷ heard_all) first_state ≡ some t)
    × (t.link.sent ≡ replicate 2 (pos 30))
unfolding main_start chars string_data
request-temp_example =
    request-temp two_digits parsed measured 24 2 (pos 0) {d = first_state} heard_all
      (refl, refl, refl) (inr (omega arith, omega arith), (inr (omega arith, omega arith), tt))
      (inr (omega arith, omega arith), (inr (omega arith, omega arith), tt)) (omega arith)
      (omega arith) refl refl refl

-- A byte 48 in the word, and bytes before and after.
isr_all-process_example :
    (isr_all ((97 ∷ []) ++ (42 ∷ (48 ∷ 98 ∷ []) ++ (42 ∷ 97 ∷ []))) measured).process
    ≡ equals (98 ∷ []) (letters (48 ∷ 98 ∷ []))
isr_all-process_example =
    isr_all-process (97 ∷ []) (48 ∷ 98 ∷ []) (97 ∷ []) measured (ground arith, (ground arith, tt))
      (ground arith, tt)

-- The node has its text to put, and a byte comes in the midst of it.
abbrev asked_for : Looping
asked_for = record { slave = record measured { process = true }; sending = false; text = [] }

act_all-texts_example :
    (t : Looping) × (Interrupts.act_all two_digits (next ∷ next ∷ byte 98 ∷ next ∷ []) asked_for
      ≡ some t)
    × IsPut two_digits (string_data two_digits measured) (pos 30) t
unfolding string_data
act_all-texts_example =
    act_all-texts two_digits (next ∷ next ∷ byte 98 ∷ next ∷ []) asked_for
      (inr (omega arith, omega arith), (inr (omega arith, omega arith), tt))
      (inr (omega arith, omega arith), (inr (omega arith, omega arith), tt)) refl refl refl

act_all-split_example :
    (t : Looping) × (Interrupts.act_all two_digits
        (byte 98 ∷ next ∷ (replicate 3 next ++ (byte 42 ∷ [])))
        asked_for
      ≡ some t)
    × (t.slave.process ≡ false)
act_all-split_example =
    act_all-split two_digits 3 asked_for
      (inr (omega arith, omega arith), (inr (omega arith, omega arith), tt))
      (inr (omega arith, omega arith), (inr (omega arith, omega arith), tt)) refl refl refl refl

abbrev still : I2c.Slave
still = record { key = replicate 6 0; i = 0; flag = 0; receive_gw = [] }

take_requests-requests_example :
    (t : I2c.Slave) × (take_requests (requests 4 9) still ≡ some t)
    × IsBetween t
    × (request_event two_digits t
        ≡ answer two_digits (if 3 % 10 == 0 then pos 97 else pos 99) ++ (13 ∷ 10 ∷ []))
take_requests-requests_example =
    take_requests-requests two_digits 3 still
      (record { size = refl; index = omega arith; word = refl })

-- Five bytes have come.
abbrev full : I2c.Slave
full = record { key = replicate 6 48; i = 5; flag = 0; receive_gw = replicate 5 48 }

receive_event-NoEnd_example : receive_event (48 ∷ 49 ∷ []) full ≡ none
receive_event-NoEnd_example =
    receive_event-NoEnd (48 ∷ 49 ∷ []) full
      (ground arith, ground arith, (ground arith, ground arith, tt)) refl (omega arith)
      (omega arith)

-- The name "ab" after "xyz", and the password "abcde" with an object of 4 bytes.
credentials-line_example :
    let (name, word) =
      credentials 4
        (codes "ab" ++ (46 ∷ codes "abcde" ++ (10 ∷ [])))
        (codes "xyz" ++ replicate 47 0, replicate 50 0) in
    (c_string name ≡ codes "ab" ++ c_string (drop 2 (codes "xyz" ++ replicate 47 0)))
    × (c_string word ≡ (
        if ltb 5 4
        then codes "abcde"
        else take 4 (codes "abcde") ++ c_string (drop 4 (replicate 50 0))))
credentials-line_example =
    credentials-line 4 (codes "ab") (codes "abcde") [] (codes "xyz" ++ replicate 47 0)
      (replicate 50 0) (omega arith) refl refl
      (omega arith, ground arith, ground arith, (omega arith, ground arith, ground arith, tt))
      (omega arith)
      (
        omega arith,
        ground arith,
        (
          omega arith,
          ground arith,
          (omega arith, ground arith, (omega arith, ground arith, (omega arith, ground arith, tt))),
        ),
      )

abbrev values : Values printing
values = record { temp = pos 30; hum = pos 60; gas = pos 12; pres = pos 99 }

-- Gas in the first round, and the same pressure in both.
abbrev gassy : Readings.Reading printing
gassy = record { gas_din = 0; gas_ain = pos 55; temp = pos 30; hum = pos 60; pres = pos 99 }

abbrev fresh : Readings.Reading printing
fresh = record { gas_din = 1; gas_ain = pos 12; temp = pos 31; hum = pos 60; pres = pos 99 }

abbrev before : Readings.Measured printing
before = record {
  values = record { temp = negsuc 0; hum = negsuc 0; gas = negsuc 0; pres = negsuc 0 };
  pres_temp = negsuc 0;
}

measured_rounds-reports_example :
    Readings.measured_rounds printing same_ℤ
      (negsuc 0)
      ((20000, gassy) ∷ (25100, fresh) ∷ [])
      before
      (record { last_msg = 0; published = [] })
    ≡ some (record {
      last_msg = 25100;
      published =
          Readings.reports printing same_ℤ
            (negsuc 0)
            ((20000, gassy) ∷ (25100, fresh) ∷ [])
            (negsuc 0)
            (negsuc 0)
            [];
    })
unfolding Readings.measure
measured_rounds-reports_example =
    Readings.measured_rounds-reports printing same_ℤ (negsuc 0)
      ((20000, gassy) ∷ (25100, fresh) ∷ []) before (record { last_msg = 0; published = [] })
      (omega arith, omega arith, (omega arith, omega arith, tt)) (omega arith, (omega arith, tt))
      same_ℤ→≡
