-- ===== src/Sensor/Spi/Interrupts/Putting.antt =====
-- Interrupts at any place do not disturb the texts, but one can lose a request that comes in two parts.
use embeded_linux_gateway.Prelude.{
  ℕ, zero, suc, ◌+◌, ◌<◌, ◌≡◌, refl, sym, ◌∙◌, ap, true, false, some, List, [], ◌∷◌, ◌++◌,
  append-nil, append_assoc, ℤ, ◌==◌, if◌then◌else◌, get_or, take, replicate, length, arith,
  Bool-cases, inl, inr,
}
use mathlib.Core.Bool.{true≢false}
use embeded_linux_gateway.Server.{codes}
use embeded_linux_gateway.Sensor.{AllFigures, joined}
use embeded_linux_gateway.Sensor.Spi.{Slave, key_data, closing, isr, count_char, string_data}
use embeded_linux_gateway.Sensor.Spi.Transmit.{count_char-string_data}
use embeded_linux_gateway.Sensor.Spi.Interrupts.{
  Looping, Event, byte, next, begin_round, put_char, act, act_all,
}

take-suc :
    (k : ℕ) (cs : List ℕ) → k < length cs → take (suc k) cs ≡ take k cs ++ (get_or cs k 0 ∷ [])
take-suc k [] h = absurd (omega arith)
take-suc zero (c ∷ cs) h = refl
take-suc (suc k) (c ∷ cs) h = ap (λ l. c ∷ l) (take-suc k cs (omega arith))

take-whole : (cs : List ℕ) → take (length cs) cs ≡ cs
take-whole [] = refl
take-whole (c ∷ cs) = ap (λ l. c ∷ l) (take-whole cs)

joined-more : (n : ℕ) (cs : List ℕ) → joined (replicate n cs) ++ cs ≡ joined (replicate (suc n) cs)
joined-more zero cs = sym (append-nil cs)
joined-more (suc n) cs =
    append_assoc cs (joined (replicate n cs)) cs ∙ ap (λ l. cs ++ l) (joined-more n cs)

-- What the interrupt leaves as it is.
isr-keeps :
    (c : ℕ) (s : Slave)
    → ((isr c s).k ≡ s.k) × ((isr c s).spdr ≡ s.spdr) × ((isr c s).temp ≡ s.temp)
unfolding isr
isr-keeps c s = elim (Bool-cases (c == b'*')) [
  | inl star ↦ rw star (refl, refl, refl)
  | inr other ↦ rw other (refl, refl, refl)
]

module _ (show : ℤ → List ℕ) where
  pub string_data-temp : (s t : Slave) → t.temp ≡ s.temp → string_data show t ≡ string_data show s
  unfolding string_data
  string_data-temp s t e =
      ap
        (λ n.
          codes "{\"keynode\":"
          ++ (show key_data ++ (codes ",\"Temp\":" ++ (show n ++ (closing ∷ [])))))
        e

  pub string_data-long : (s : Slave) → 0 < length (string_data show s)
  unfolding string_data
  string_data-long s = omega arith

  -- The whole texts that have been put, and the part of the next one.
  pub record IsPut (whole : List ℕ) (temp : ℤ) (s : Looping) : Type 0 where
    pub texts : ℕ
    pub put : s.slave.spdr ≡ joined (replicate texts whole) ++ take s.slave.k whole
    pub inside : s.slave.k < length whole
    pub between : s.sending ≡ false → s.slave.k ≡ 0
    pub text : s.sending ≡ true → s.text ≡ whole
    pub temp_kept : s.slave.temp ≡ temp

  module _ (temp : ℤ) (whole : List ℕ)
      (data_ : (s : Slave) → s.temp ≡ temp → string_data show s ≡ whole)
      (count : count_char whole ≡ some (length whole)) where
    byte-IsPut :
        (c : ℕ) (s : Looping)
        → IsPut whole temp s
        → IsPut whole temp (record s { slave = isr c s.slave })
    byte-IsPut c s h =
        let (k, spdr, same) = isr-keeps c s.slave in
        record {
          texts = h.texts;
          put = spdr ∙ h.put ∙ ap (λ n. joined (replicate h.texts whole) ++ take n whole) (sym k);
          inside = omega (arith, k, h.inside);
          between = λ e. k ∙ h.between e;
          text = h.text;
          temp_kept = same ∙ h.temp_kept;
        }

    pub begin_round-IsPut :
        (s : Looping)
        → IsPut whole temp s
        → s.sending ≡ false
        → IsPut whole temp (begin_round show s)
    unfolding begin_round
    begin_round-IsPut s h idle = elim (Bool-cases s.slave.process) [
      | inl on ↦ simp on (record {
        texts = h.texts;
        put = h.put;
        inside = h.inside;
        between = λ e. absurd (true≢false e);
        text = λ e. data_ s.slave h.temp_kept;
        temp_kept = h.temp_kept;
      })
      | inr off ↦ simp off h
    ]

    pub put_char-IsPut :
        (s : Looping)
        → IsPut whole temp s
        → s.sending ≡ true
        → (t : Looping) × (put_char show s ≡ some t)
          × IsPut whole temp t
          × (t.slave.process ≡ s.slave.process)
          × (t.slave.receive_gw ≡ s.slave.receive_gw)
    unfolding put_char
    put_char-IsPut s h on =
        let text = h.text on in
        let found : count_char s.text ≡ some (length whole) = ap count_char text ∙ count in
        let k = s.slave.k in
        let char = get_or s.text k 0 in
        let same : char ≡ get_or whole k 0 = ap (λ l. get_or l k 0) text in
        let spdr : s.slave.spdr ++ (char ∷ [])
            ≡ joined (replicate h.texts whole) ++ take (suc k) whole =
          ap (λ l. l ++ (char ∷ [])) h.put
          ∙ append_assoc (joined (replicate h.texts whole)) (take k whole) (char ∷ [])
          ∙ ap (λ c. joined (replicate h.texts whole) ++ (take k whole ++ (c ∷ []))) same
          ∙ ap (λ l. joined (replicate h.texts whole) ++ l) (sym (take-suc k whole h.inside)) in
        let plus : suc k ≡ k + 1 = omega arith in
        elim (Bool-cases (k + 1 == length whole)) [
          | inl last ↦
              let all : suc k ≡ length whole = ground arith in
              (
                record {
                  slave = record s.slave { spdr = s.slave.spdr ++ (char ∷ []); k = 0 };
                  sending = false;
                  text = [];
                },
                simp (put_char, found, last) refl,
                record {
                  texts = suc h.texts;
                  put =
                      spdr
                      ∙ ap (λ n. joined (replicate h.texts whole) ++ take n whole) all
                      ∙ ap (λ l. joined (replicate h.texts whole) ++ l) (take-whole whole)
                      ∙ joined-more h.texts whole
                      ∙ sym (append-nil (joined (replicate (suc h.texts) whole)));
                  inside = omega (arith, h.inside);
                  between = λ e. refl;
                  text = λ e. absurd (true≢false (sym e));
                  temp_kept = h.temp_kept;
                },
                refl,
                refl,
              )
          | inr early ↦ (
            record s { slave = record s.slave { spdr = s.slave.spdr ++ (char ∷ []); k = k + 1 } },
            simp (put_char, found, early) refl,
            record {
              texts = h.texts;
              put = spdr ∙ ap (λ n. joined (replicate h.texts whole) ++ take n whole) plus;
              inside = ground (arith, h.inside);
              between = λ e. absurd (true≢false (sym on ∙ e));
              text = h.text;
              temp_kept = h.temp_kept;
            },
            refl,
            refl,
          )
        ]

    act-IsPut :
        (e : Event) (s : Looping)
        → IsPut whole temp s
        → (t : Looping) × (act show e s ≡ some t) × IsPut whole temp t
    unfolding act
    act-IsPut (byte c) s h = (record s { slave = isr c s.slave }, refl, byte-IsPut c s h)
    act-IsPut next s h = elim (Bool-cases s.sending) [
      | inl on ↦
          let (t, e, k, _, _) = put_char-IsPut s h on in
          (t, ap (λ b. if b then put_char show s else some (begin_round show s)) on ∙ e, k)
      | inr off ↦ (
        begin_round show s,
        ap (λ b. if b then put_char show s else some (begin_round show s)) off,
        begin_round-IsPut s h off,
      )
    ]

    act_all-IsPut :
        (es : List Event) (s : Looping)
        → IsPut whole temp s
        → (t : Looping) × (act_all show es s ≡ some t) × IsPut whole temp t
    unfolding act_all
    act_all-IsPut [] s h = (s, refl, h)
    act_all-IsPut (e ∷ es) s h =
        let (t, one, k) = act-IsPut e s h in
        let (u, rest, l) = act_all-IsPut es t k in (u, rw (act_all, one) rest, l)

  pub IsPut-start :
      (s : Looping)
      → s.sending ≡ false
      → s.slave.k ≡ 0
      → s.slave.spdr ≡ []
      → IsPut (string_data show s.slave) s.slave.temp s
  IsPut-start s idle start empty = record {
    texts = 0;
    put = empty ∙ ap (λ n. take n (string_data show s.slave)) (sym start);
    inside = omega (arith, start, string_data-long s.slave);
    between = λ e. start;
    text = λ e. absurd (true≢false (sym e ∙ idle));
    temp_kept = refl;
  }

  -- From the start of a text, whatever bytes come between the steps of the loop: it goes on, and what has been put
  -- to the data register is a number of whole texts and the part of a further one up to the index, which is 0 when
  -- no text is being put.
  pub act_all-texts :
      (es : List Event) (s : Looping)
      → AllFigures (show key_data)
      → AllFigures (show s.slave.temp)
      → s.sending ≡ false
      → s.slave.k ≡ 0
      → s.slave.spdr ≡ []
      → (t : Looping) × (act_all show es s ≡ some t)
        × IsPut (string_data show s.slave) s.slave.temp t
  act_all-texts es s h g idle start empty =
      let whole = string_data show s.slave in
      act_all-IsPut s.slave.temp whole (string_data-temp s.slave)
        (count_char-string_data show s.slave h g) es s (IsPut-start s idle start empty)
