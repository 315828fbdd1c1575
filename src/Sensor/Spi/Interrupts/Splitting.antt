-- ===== src/Sensor/Spi/Interrupts/Splitting.antt =====
-- A request of which the start of a round comes in the midst.
use embeded_linux_gateway.Prelude.{
  ℕ, zero, suc, ◌≡◌, refl, ◌∙◌, ap, Bool, true, false, some, List, [], ◌∷◌, ◌++◌, ℤ, if◌then◌else◌,
  replicate, length, Bool-cases, inl, inr,
}
use embeded_linux_gateway.Sensor.{equals, AllFigures}
use embeded_linux_gateway.Sensor.Spi.{Slave, key, key_data, isr, count_char, string_data}
use embeded_linux_gateway.Sensor.Spi.Transmit.{count_char-string_data}
use embeded_linux_gateway.Sensor.Spi.Interrupts.{
  Looping, Event, byte, next, begin_round, put_char, act, act_all,
}
use embeded_linux_gateway.Sensor.Spi.Interrupts.Putting.{
  IsPut, begin_round-IsPut, put_char-IsPut, IsPut-start, string_data-temp,
}

module _ (show : ℤ → List ℕ) where
  act_all-step :
      (e : Event) (es : List Event) (s t : Looping)
      → act show e s ≡ some t
      → act_all show (e ∷ es) s ≡ act_all show es t
  unfolding act_all
  act_all-step e es s t h = rw (act_all, h) refl

  act-next :
      (b : Bool) (s : Looping)
      → s.sending ≡ b
      → act show next s ≡ (if b then put_char show s else some (begin_round show s))
  unfolding act
  act-next b s h = ap (λ c. if c then put_char show s else some (begin_round show s)) h

  begin_round-keeps :
      (s : Looping)
      → s.slave.process ≡ true
      → ((begin_round show s).slave.process ≡ true) × ((begin_round show s).slave.receive_gw ≡ [])
  unfolding begin_round
  begin_round-keeps s on = simp on (refl, refl)

  module _ (temp : ℤ) (whole : List ℕ)
      (data_ : (s : Slave) → s.temp ≡ temp → string_data show s ≡ whole)
      (count : count_char whole ≡ some (length whole)) where
    -- The loop goes on while it has a request and no word has begun; then the word ends.
    ends_lem :
        (n : ℕ) (s : Looping)
        → IsPut show whole temp s
        → s.slave.process ≡ true
        → s.slave.receive_gw ≡ []
        → (t : Looping) × (act_all show (replicate n next ++ (byte b'*' ∷ [])) s ≡ some t)
          × (t.slave.process ≡ false)
    unfolding act_all act isr
    ends_lem zero s h on empty =
        (record s { slave = isr b'*' s.slave }, refl, ap (λ w. equals key (w ++ (b'*' ∷ []))) empty)
    ends_lem (suc n) s h on empty =
        let later = replicate n next ++ (byte b'*' ∷ []) in
        elim (Bool-cases s.sending) [
          | inl busy ↦
              let (t, e, k, p, w) = put_char-IsPut show temp whole data_ count s h busy in
              let (u, f, q) = ends_lem n t k (p ∙ on) (w ∙ empty) in
              (u, act_all-step next later s t (act-next true s busy ∙ e) ∙ f, q)
          | inr idle ↦
              let (p, w) = begin_round-keeps s on in
              let t = begin_round show s in
              let (u, f, q) =
                ends_lem n t (begin_round-IsPut show temp whole data_ count s h idle) p w in
              (u, act_all-step next later s t (act-next false s idle) ∙ f, q)
        ]

  -- If the node has a request and is between two texts, then it loses the request if a round starts between the two
  -- characters of the request's repetition, however many steps of the loop come before the second.
  pub act_all-split :
      (n : ℕ) (s : Looping)
      → AllFigures (show key_data)
      → AllFigures (show s.slave.temp)
      → s.sending ≡ false
      → s.slave.k ≡ 0
      → s.slave.spdr ≡ []
      → s.slave.process ≡ true
      → (t : Looping) × (act_all show (byte b'b' ∷ next ∷ (replicate n next ++ (byte b'*' ∷ []))) s
          ≡ some t)
        × (t.slave.process ≡ false)
  unfolding act isr
  act_all-split n s h g idle start empty on =
      let later = replicate n next ++ (byte b'*' ∷ []) in
      let r = record s { slave = isr b'b' s.slave } in
      let whole = string_data show r.slave in
      let data_ = string_data-temp show r.slave in
      let count = count_char-string_data show r.slave h g in
      let t = begin_round show r in
      let (p, w) = begin_round-keeps r on in
      let k =
        begin_round-IsPut show s.slave.temp whole data_ count r
          (IsPut-start show r idle start empty) idle in
      let (u, f, q) = ends_lem s.slave.temp whole data_ count n t k p w in
      (
        u,
        act_all-step (byte b'b') (next ∷ later) s r refl
            ∙ act_all-step next later r t (act-next false r idle)
            ∙ f,
        q,
      )
