-- ===== src/Sensor/Spi/Answers.antt =====
-- A request of the daemon and the answers of the node, from end to end.
use embeded_linux_gateway.Prelude.{
  ℕ, zero, suc, ◌+◌, ◌≤◌, ◌≡◌, refl, sym, ◌∙◌, ap, true, some, List, [], ◌∷◌, ◌++◌, ℤ, append-nil,
  append_assoc, replicate, if◌then◌else◌, length, length-append, arith, c_string,
}
use embeded_linux_gateway.Sensor.{equals, AllFigures, joined}
use embeded_linux_gateway.Sensor.Spi.{
  Slave, key, key_data, closing, string_data, transmit, loop_round, loop_rounds, isr, isr_all,
}
use embeded_linux_gateway.Start.{looping}
use embeded_linux_gateway.Node.{opening, request_key, Event, asked, Poller, main_start, act_all}
use embeded_linux_gateway.Node.Stream.{chars, framed, told, AllTexts, act_all-told}
use embeded_linux_gateway.Node.Framing.{AllInner, AllInner-NoNul, alone}
use embeded_linux_gateway.Sensor.Spi.Transmit.{
  opening-IsInner, inside, inside-AllInner, inside-length, transmit_lem, string_data-inside,
}

-- The node is idle: no word has begun, and the next character is the first of a text.
abbrev pub IsIdle : Slave → Type 0
IsIdle s = (s.receive_gw ≡ []) × (s.k ≡ 0) × (s.spdr ≡ [])

-- The node between two texts.
abbrev IsReady : Slave → Type 0
IsReady s = (s.process ≡ true) × (s.receive_gw ≡ []) × (s.k ≡ 0)

module _ (show : ℤ → List ℕ) (parse : List ℕ → ℤ × ℤ) where
  -- The inner part of the node's text.
  abbrev inner : Slave → List ℕ
  inner s = inside (show key_data) (show s.temp)

  inner-AllInner :
      (s : Slave) → AllFigures (show key_data) → AllFigures (show s.temp) → AllInner (inner s)
  inner-AllInner s h g = inside-AllInner (show key_data) (show s.temp) h g

  loop_round-IsReady :
      (s : Slave) (fuel : ℕ)
      → IsReady s
      → AllFigures (show key_data)
      → AllFigures (show s.temp)
      → length (string_data show s) ≤ fuel
      → loop_round show fuel s ≡ some (record s { spdr = s.spdr ++ string_data show s })
  unfolding loop_round string_data
  loop_round-IsReady s fuel ready h g enough =
      let p = record s { receive_gw = [] } in
      let text = string_data-inside show s in
      let size : length (opening ∷ inner s ++ (closing ∷ [])) ≡ length (string_data show s) =
        ap length (sym text) in
      let sends =
        transmit_lem show fuel (inner s) p (inner-AllInner s h g) ready.2
          (omega (arith, length-append (inner s) (closing ∷ []))) in
      ap (λ b. if b then transmit show fuel (string_data show s) p else some s) ready.0
      ∙ ap (λ l. transmit show fuel l p) text
      ∙ sends
      ∙ ap (λ l. some (record p { spdr = s.spdr ++ l; k = 0 })) (sym text)
      ∙ ap (λ w. some (record s { spdr = s.spdr ++ string_data show s; receive_gw = w; k = 0 }))
          (sym ready.1)
      ∙ ap (λ n. some (record s { spdr = s.spdr ++ string_data show s; k = n })) (sym ready.2)

  loop_rounds-IsReady :
      (n : ℕ) (s : Slave) (fuel : ℕ)
      → IsReady s
      → AllFigures (show key_data)
      → AllFigures (show s.temp)
      → length (string_data show s) ≤ fuel
      → loop_rounds show fuel n s
        ≡ some (record s { spdr = s.spdr ++ joined (replicate n (string_data show s)) })
  unfolding loop_rounds string_data
  loop_rounds-IsReady zero s fuel ready h g enough =
      ap (λ l. some (record s { spdr = l })) (sym (append-nil s.spdr))
  loop_rounds-IsReady (suc n) s fuel ready h g enough =
      let t = record s { spdr = s.spdr ++ string_data show s } in
      rw (loop_rounds, loop_round-IsReady s fuel ready h g enough)
        (loop_rounds-IsReady n t fuel ready h g enough
          ∙ ap (λ l. some (record s { spdr = l }))
              (append_assoc s.spdr (string_data show s)
                (joined (replicate n (string_data show s)))))

  asked-IsReady :
      (s : Slave) → IsIdle s → isr_all request_key s ≡ record s { process = true; receive_gw = [] }
  unfolding isr_all isr
  asked-IsReady s idle =
      ap (λ w. record s { process = equals key (w ++ (b'b' ∷ []) ++ (b'*' ∷ [])); receive_gw = [] })
        idle.0

  -- The texts as the daemon takes them.
  framed-replicate :
      (n : ℕ) (cs : List ℕ)
      → joined (replicate n (opening ∷ cs ++ (closing ∷ []))) ≡ framed (replicate n cs)
  unfolding framed
  framed-replicate zero cs = refl
  framed-replicate (suc n) cs =
      ap (λ l. opening ∷ (cs ++ (closing ∷ [])) ++ l) (framed-replicate n cs)

  AllTexts-replicate :
      (n : ℕ) (cs : List ℕ) → AllInner cs → length cs ≤ 47 → AllTexts (replicate n cs)
  AllTexts-replicate zero cs h short = tt
  AllTexts-replicate (suc n) cs h short = (h, short, AllTexts-replicate n cs h short)

  replicate-shift :
      (n : ℕ) (x : ℤ) (old : List ℤ) → replicate n x ++ (x ∷ old) ≡ x ∷ replicate n x ++ old
  replicate-shift zero x old = refl
  replicate-shift (suc n) x old = ap (λ l. x ∷ l) (replicate-shift n x old)

  told-replicate :
      (n : ℕ) (cs : List ℕ) {temp : ℤ} (old : List ℤ)
      → parse (c_string (opening ∷ cs ++ (closing ∷ []))) ≡ (key_data, temp)
      → told parse (replicate n cs) old ≡ replicate n temp ++ old
  unfolding told
  told-replicate zero cs old e = refl
  told-replicate (suc n) cs {temp} old e =
      rw (told, e) (told-replicate n cs (temp ∷ old) e ∙ replicate-shift n temp old)

  -- If the numbers are printed with at most 29 digits and signs in all, the JSON library finds the two numbers in the text,
  -- and `main` of the daemon has come to its loop, then after the daemon's request any number of rounds of the idle
  -- node's loop each put the text to the data register, within as many rounds of the inner loop as it has
  -- characters; and when the daemon has heard these characters, wherever it has sent further requests in between, it
  -- has sent exactly the node's temperature to the server, once for each text.
  pub request-temp :
      (s : Slave) (fuel n : ℕ) (created : ℤ) {d : Poller} (es : List Event)
      → IsIdle s
      → AllFigures (show key_data)
      → AllFigures (show s.temp)
      → length (show key_data) + length (show s.temp) ≤ 29
      → length (string_data show s) ≤ fuel
      → parse (string_data show s) ≡ (key_data, s.temp)
      → main_start created ≡ looping d
      → chars es ≡ joined (replicate n (string_data show s))
      → (u : Slave) × (t : Poller) × (loop_rounds show fuel n (isr_all request_key s) ≡ some u)
        × (u.spdr ≡ joined (replicate n (string_data show s)))
        × (act_all parse (asked ∷ es) d ≡ some t)
        × (t.link.sent ≡ replicate n s.temp)
  unfolding string_data
  request-temp s fuel n created {d} es idle h g short enough parsed start heard_all =
      let p = record s { process = true; receive_gw = [] } in
      let text = string_data-inside show s in
      let cs = inner s in
      let words = inner-AllInner s h g in
      let runs = loop_rounds-IsReady n p fuel (refl, refl, idle.1) h g enough in
      let line : c_string (opening ∷ cs ++ (closing ∷ [])) ≡ opening ∷ cs ++ (closing ∷ []) =
        alone parse (opening ∷ cs) (AllInner-NoNul parse (opening ∷ cs) (opening-IsInner, words)) in
      let (t, ends, sent) =
        act_all-told parse created {s = d} es (replicate n cs) start
          (heard_all ∙ ap (λ l. joined (replicate n l)) text ∙ framed-replicate n cs)
          (AllTexts-replicate n cs words
            (omega (arith, inside-length (show key_data) (show s.temp)))) in
      let numbers : parse (c_string (opening ∷ cs ++ (closing ∷ []))) ≡ (key_data, s.temp) =
        ap parse (line ∙ sym text) ∙ parsed in
      (
        record p { spdr = s.spdr ++ joined (replicate n (string_data show s)) },
        t,
        ap (loop_rounds show fuel n) (asked-IsReady s idle) ∙ runs,
        ap (λ l. l ++ joined (replicate n (string_data show s))) idle.2,
        ends,
        sent ∙ told-replicate n cs [] numbers ∙ append-nil (replicate n s.temp),
      )
