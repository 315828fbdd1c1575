-- ===== src/Node/Watching.antt =====
-- The watch on the node: its loss is reported exactly if no text has answered the requests.
use embeded_linux_gateway.Prelude.{
  ℕ, ◌+◌, ◌≡◌, refl, Bool, true, ◌||◌, some, List, ℤ, if◌then◌else◌, map, replicate, arith, inl,
  inr, Bool-cases, c_string,
}
use embeded_linux_gateway.Receiver.{eq_ℤ}
use embeded_linux_gateway.Node.{
  respone_key, respone_data, Link, respond, receive, Event, asked, heard, Poller, act,
}
use embeded_linux_gateway.Node.Framing.{between}

-- The number of "keynode" in an answer.
abbrev pub is_answer : ℤ → Bool
is_answer key = eq_ℤ key respone_key || eq_ℤ key respone_data

abbrev pub hears : List ℕ → List Event
hears cs = map heard cs

abbrev pub asks : ℕ → List Event
asks n = replicate n asked

module _ (parse : List ℕ → ℤ × ℤ) where
  pub act-heard :
      (c : ℕ) (s : Poller) (k : Link)
      → s.receiving ≡ true
      → receive parse c s.link ≡ some k
      → act parse (heard c) s ≡ some (record s { link = k })
  unfolding act
  act-heard c s k on goes = simp (act, on, goes) refl

  pub respond-counts :
      (line : List ℕ) (s : Link)
      → ((respond parse line s).flag_detect
          ≡ s.flag_detect + (if is_answer (parse (c_string line)).0 then 1 else 0))
        × ((respond parse line s).lost ≡ s.lost)
        × ((respond parse line s).flag_detec_count ≡ s.flag_detec_count)
  unfolding respond
  respond-counts line s = ground arith

  pub respond-between :
      (line : List ℕ) (s : Link) → respond parse line (between s) ≡ between (respond parse line s)
  unfolding respond
  respond-between line s = elim (Bool-cases (eq_ℤ (parse (c_string line)).0 respone_key)) [
    | inl key ↦ rw key refl
    | inr other ↦ elim (Bool-cases (eq_ℤ (parse (c_string line)).0 respone_data)) [
      | inl data_ ↦ rw (other, data_) refl
      | inr neither ↦ rw (other, neither) refl
    ]
  ]

  -- The state in which a text has been handled, and `n` requests have been sent since.
  abbrev opened : List ℕ → ℕ → Link → Link
  opened line n s =
      let t = respond parse line s in record t { flag_detec_count = t.flag_detec_count + n }
