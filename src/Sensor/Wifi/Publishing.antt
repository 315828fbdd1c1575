-- ===== src/Sensor/Wifi/Publishing.antt =====
-- How long the node waits for the network, and how often it publishes.
use embeded_linux_gateway.Prelude.{
  ℕ, zero, suc, ◌+◌, ◌^◌, ◌&&◌, ◌≤◌, ◌<◌, ◌≡◌, refl, sym, Bool, true, false, ◌||◌, some, List, [],
  ◌∷◌, ltb, leb, ltb→lt, length, replicate, overlay, c_string, arith, inl, inr, Bool-cases,
}
use mathlib.Core.Path.{subst}
use embeded_linux_gateway.Server.{codes}
use embeded_linux_gateway.Mqtt.{Message}
use embeded_linux_gateway.Sensor.{
  Printing, joined, joined-NoNul, length-joined, has_no_nul-NoNul, c_string-blank,
}
use embeded_linux_gateway.Sensor.Wifi.{
  set_up_wifi, id_node, Station, Values, pieces, string_data, elapsed, loop_round, rounds,
}

-- Whether one of the `n` tests from the `i`-th on succeeds.
abbrev pub some_of : ℕ → ℕ → (ℕ → Bool) → Bool
some_of zero i connected = false
some_of (suc n) i connected = connected i || some_of n (i + 1) connected

set_up_wifi-from :
    (n i : ℕ) (connected : ℕ → Bool)
    → i + suc n ≡ 21
    → set_up_wifi (suc n) i connected ≡ some (some_of (suc n) i connected)
unfolding set_up_wifi
set_up_wifi-from zero i connected e = elim (Bool-cases (connected i)) [
  | inl up ↦ rw (set_up_wifi, up) refl
  | inr down ↦ let last : ltb 20 (i + 1) ≡ true = ground arith in rw (set_up_wifi, down, last) refl
]
set_up_wifi-from (suc n) i connected e = elim (Bool-cases (connected i)) [
  | inl up ↦ rw (set_up_wifi, up) refl
  | inr down ↦
      let more : ltb 20 (i + 1) ≡ false = ground arith in
      rw (set_up_wifi, down, more) (set_up_wifi-from n (i + 1) connected (omega arith))
]

-- The wait for the network ends within 21 tests, and succeeds exactly if one of them does.
pub set_up_wifi_lem :
    (connected : ℕ → Bool) → set_up_wifi 21 0 connected ≡ some (some_of 21 0 connected)
set_up_wifi_lem connected = set_up_wifi-from 20 0 connected refl

andb-left : (a b : Bool) → a && b ≡ true → a ≡ true
andb-left true b h = refl
andb-left false b h = h

module _ (printing : Printing) where
  open printing use {show, show_float}

  -- The characters of the numbers.
  abbrev pub figures : Values printing → ℕ
  figures v =
      length (show id_node)
      + length (show_float v.temp)
      + length (show_float v.hum)
      + length (show v.gas)
      + length (show_float v.pres)

  abbrev pub message : Values printing → Message
  message v = record {
    topic = "data_wifi";
    payload = string_data printing v;
    qos = 0;
    retained = false;
  }

  abbrev pub AllFit : List (ℕ × Values printing) → Type 0
  AllFit [] = Unit
  AllFit (r ∷ rs) = (figures r.1 ≤ 28) × AllFit rs

  -- By the clock, each message is more than 2000 ms after the one before.
  abbrev pub Spaced : List (ℕ × Message) → Type 0
  Spaced [] = Unit
  Spaced (p ∷ []) = Unit
  Spaced (p ∷ q ∷ l) = (2000 < elapsed p.0 q.0) × Spaced (q ∷ l)

  -- Each message is the whole text of some values.
  abbrev pub Whole : List (ℕ × Message) → Type 0
  Whole [] = Unit
  Whole (p ∷ l) = ((v : Values printing) × (p.1 ≡ message v)) × Whole l

  -- `lastMsg` is the time of the last message.
  abbrev Latest : ℕ → List (ℕ × Message) → Type 0
  Latest t [] = Unit
  Latest t (p ∷ l) = p.0 ≡ t

  record IsSpaced (s : Station) : Type 0 where
    spaced : Spaced s.published
    whole : Whole s.published
    latest : Latest s.last_msg s.published

  pub text :
      (v : Values printing)
      → figures v ≤ 28
      → (length (string_data printing v) ≤ 59)
        × (c_string (overlay (string_data printing v) (replicate 60 0)) ≡ string_data printing v)
  unfolding string_data
  text v fits =
      let small : length (joined (pieces printing v)) ≤ 59 =
        omega (arith, length-joined (pieces printing v)) in
      (
        small,
        c_string-blank (joined (pieces printing v)) 60
            (joined-NoNul (pieces printing v) (
              has_no_nul-NoNul (codes "{\"id\":") refl,
              (
                printing.show-NoNul id_node,
                (
                  has_no_nul-NoNul (codes ",\"t\":\"") refl,
                  (
                    printing.show_float-NoNul v.temp,
                    (
                      has_no_nul-NoNul (codes "\",\"h\":\"") refl,
                      (
                        printing.show_float-NoNul v.hum,
                        (
                          has_no_nul-NoNul (codes "\",\"g\":") refl,
                          (
                            printing.show-NoNul v.gas,
                            (
                              has_no_nul-NoNul (codes ",\"p\":") refl,
                              (
                                printing.show_float-NoNul v.pres,
                                (has_no_nul-NoNul (codes "}") refl, tt),
                              ),
                            ),
                          ),
                        ),
                      ),
                    ),
                  ),
                ),
              ),
            ))
            (omega arith),
      )

  further :
      (now : ℕ) (m : Message) (s : Station)
      → 2000 < elapsed now s.last_msg
      → Latest s.last_msg s.published
      → Spaced s.published
      → Spaced ((now, m) ∷ s.published)
  further now m s late latest spaced = go s.published latest spaced
    where
      go : (l : List (ℕ × Message)) → Latest s.last_msg l → Spaced l → Spaced ((now, m) ∷ l)
      go [] a b = tt
      go (q ∷ l) a b = (subst (λ t. 2000 < elapsed now t) (sym a) late, b)

  loop_round-IsSpaced :
      (now : ℕ) (v : Values printing) (s : Station)
      → figures v ≤ 28
      → IsSpaced s
      → (t : Station) × (loop_round printing now v s ≡ some t) × IsSpaced t
  unfolding loop_round
  loop_round-IsSpaced now v s fits h =
      let (small, whole) = text v fits in
      let room : leb (length (string_data printing v) + 1) 60 ≡ true = ground arith in
      elim (Bool-cases
        (ltb 2000 (elapsed now s.last_msg) && ltb (elapsed now s.last_msg) (2 ^ 31))) [
          | inl late ↦ (
            record { last_msg = now; published = (now, message v) ∷ s.published },
            rw (room, late, whole) refl,
            record {
              spaced =
                  further now (message v) s
                    (ltb→lt 2000 (elapsed now s.last_msg) (
                      andb-left (ltb 2000 (elapsed now s.last_msg))
                        (ltb (elapsed now s.last_msg) (2 ^ 31)) late))
                    h.latest h.spaced;
              whole = ((v, refl), h.whole);
              latest = refl;
            },
          )
          | inr early ↦ (s, rw (room, early) refl, h)
        ]

  rounds-IsSpaced :
      (rs : List (ℕ × Values printing)) (s : Station)
      → AllFit rs
      → IsSpaced s
      → (t : Station) × (rounds printing rs s ≡ some t) × IsSpaced t
  unfolding rounds
  rounds-IsSpaced [] s h k = (s, refl, k)
  rounds-IsSpaced ((now, v) ∷ rs) s h k =
      let (t, e, k') = loop_round-IsSpaced now v s h.0 k in
      let (u, f, k'') = rounds-IsSpaced rs t h.1 k' in (u, rw (rounds, e) f, k'')

  -- From the start, over any rounds in which the numbers have at most 28 characters: no text runs past the
  -- buffer, every message that is published is the whole text of some values, and by the 32-bit clock each is more than 2000 ms
  -- after the one before it.
  pub rounds-Spaced :
      (rs : List (ℕ × Values printing))
      → AllFit rs
      → (t : Station) × (rounds printing rs (record { last_msg = 0; published = [] }) ≡ some t)
        × Spaced t.published
        × Whole t.published
  rounds-Spaced rs h =
      let (t, e, k) =
        rounds-IsSpaced rs (record { last_msg = 0; published = [] }) h
          (record { spaced = tt; whole = tt; latest = tt }) in
      (t, e, k.spaced, k.whole)
