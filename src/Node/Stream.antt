-- ===== src/Node/Stream.antt =====
-- The daemon over all that it asks and hears: a request in the midst of a text does no harm, and what is sent
-- to the server is what the texts say.
use embeded_linux_gateway.Prelude.{
  ℕ, ◌+◌, ◌≤◌, ◌≡◌, refl, sym, ◌∙◌, ap, true, false, none, some, Option-cases, some-injective,
  none≢some, List, [], ◌∷◌, ◌++◌, ℤ, pos, negsuc, if◌then◌else◌, length, arith, inl, inr,
  Bool-cases, c_string,
}
use mathlib.Core.Path.{subst}
use embeded_linux_gateway.Start.{looping, in_loop, is_zero}
use embeded_linux_gateway.Receiver.{eq_ℤ}
use embeded_linux_gateway.Node.{
  respone_key, respone_data, Link, opening, closing, respond, receive, receive_all,
  send_request_to_node, Event, asked, heard, Poller, act, act_all, first_state, main_start,
  set_up_spi, pin, frame, request_key,
}
use embeded_linux_gateway.Node.Framing.{AllInner, between, receive_all-text}
use embeded_linux_gateway.Node.Counts.{Like, receive-Like}
use embeded_linux_gateway.Node.Watching.{act-heard, respond-between, respond-counts}

-- The characters that are heard.
unfoldable pub chars : List Event → List ℕ
chars [] = []
chars (asked ∷ es) = chars es
chars (heard c ∷ es) = c ∷ chars es

-- A text with its braces, and texts one after the other.
abbrev whole : List ℕ → List ℕ
whole cs = opening ∷ cs ++ closing ∷ []

unfoldable pub framed : List (List ℕ) → List ℕ
framed [] = []
framed (cs ∷ texts) = whole cs ++ framed texts

-- The texts that the daemon can take.
abbrev pub AllTexts : List (List ℕ) → Type 0
AllTexts [] = Unit
AllTexts (cs ∷ texts) = AllInner cs × (length cs ≤ 47) × AllTexts texts

not_data : (x : ℤ) → eq_ℤ x respone_key ≡ true → eq_ℤ x respone_data ≡ false
not_data (pos a) h = ground arith
not_data (negsuc a) h = refl

main_start-first :
    (created : ℤ) (s : Poller) → in_loop (main_start created) ≡ some s → first_state ≡ s
unfolding main_start
main_start-first created s h = elim (Bool-cases (is_zero created)) [
  | inl ok ↦ some-injective (sym (rw ok refl) ∙ h)
  | inr bad ↦ absurd (none≢some (sym (rw bad refl) ∙ h))
]

module _ (parse : List ℕ → ℤ × ℤ) where
  act_all-Like :
      (es : List Event) (s : Poller) (l l' : Link)
      → s.receiving ≡ true
      → Like s.link l
      → receive_all parse (chars es) l ≡ some l'
      → (t : Poller) × (act_all parse es s ≡ some t) × Like t.link l'
  unfolding act_all act send_request_to_node chars receive_all
  act_all-Like [] s l l' on like h = (s, refl, subst (λ l. Like s.link l) (some-injective h) like)
  act_all-Like (asked ∷ es) s l l' on like h =
      let (d, n, m, e) = like in
      act_all-Like es
        (record s {
          link = send_request_to_node s.link;
          receiving = true;
          wires = pin 1 ∷ frame request_key ∷ pin 0 ∷ s.wires;
        })
        l l' refl (d, n + 1, m, ap send_request_to_node e) h
  act_all-Like (heard c ∷ es) s l l' on like h = elim (Option-cases (receive parse c l)) [
    | inl fails ↦
        let f : receive_all parse (c ∷ chars es) l ≡ none = rw (receive_all, fails) in
        absurd (none≢some (sym f ∙ h))
    | inr (m, f) ↦
        let (k, g, like') = receive-Like parse c s.link l m like f in
        let last : receive_all parse (c ∷ chars es) l ≡ receive_all parse (chars es) m =
          rw (receive_all, f) in
        let (t, run, end_) = act_all-Like es (record s { link = k }) m l' on like' (sym last ∙ h) in
        (t, rw (act_all, act-heard parse c s k on g) run, end_)
  ]

  receive_all-append :
      (cs ds : List ℕ) (s t : Link)
      → receive_all parse cs s ≡ some t
      → receive_all parse (cs ++ ds) s ≡ receive_all parse ds t
  unfolding receive_all
  receive_all-append [] ds s t h = ap (receive_all parse ds) (some-injective h)
  receive_all-append (c ∷ cs) ds s t h = elim (Option-cases (receive parse c s)) [
    | inl fails ↦
        let f : receive_all parse (c ∷ cs) s ≡ none = rw (receive_all, fails) in
        absurd (none≢some (sym f ∙ h))
    | inr (u, f) ↦
        let last : receive_all parse (c ∷ cs) s ≡ receive_all parse cs u = rw (receive_all, f) in
        rw (receive_all, f) (receive_all-append cs ds u t (sym last ∙ h))
  ]

  -- The numbers that the texts have sent to the server after `old`, the latest first.
  unfoldable pub told : List (List ℕ) → List ℤ → List ℤ
  told [] old = old
  told (cs ∷ texts) old =
      let (key, temp) = parse (c_string (whole cs)) in
      told texts (if eq_ℤ key respone_data then temp ∷ old else old)

  respond-sent :
      (line : List ℕ) (s : Link)
      → (respond parse line s).sent ≡ (
          let (key, temp) = parse (c_string line) in
          if eq_ℤ key respone_data then temp ∷ s.sent else s.sent)
  unfolding respond
  respond-sent line s = elim (Bool-cases (eq_ℤ (parse (c_string line)).0 respone_key)) [
    | inl key ↦ rw (key, not_data (parse (c_string line)).0 key) refl
    | inr other ↦ elim (Bool-cases (eq_ℤ (parse (c_string line)).0 respone_data)) [
      | inl data_ ↦ rw (other, data_) refl
      | inr neither ↦ rw (other, neither) refl
    ]
  ]

  receive_all-texts :
      (texts : List (List ℕ)) (k : Link)
      → k.flag_detec_count ≤ 3
      → AllTexts texts
      → (t : Link) × (receive_all parse (framed texts) (between k) ≡ some t)
        × (t.sent ≡ told texts k.sent)
  unfolding framed told receive_all
  receive_all-texts [] k few h = (between k, refl, refl)
  receive_all-texts (cs ∷ texts) k few h =
      let r = respond parse (whole cs) k in
      let one : receive_all parse (whole cs) (between k) ≡ some (between r) =
        receive_all-text parse cs k few h.0 h.1 ∙ ap some (respond-between parse (whole cs) k) in
      let counts = respond-counts parse (whole cs) k in
      let (t, rest, sent) = receive_all-texts texts r (omega (arith, counts.2)) h.2 in
      (
        t,
        receive_all-append (whole cs) (framed texts) (between k) (between r) one ∙ rest,
        sent ∙ ap (told texts) (respond-sent (whole cs) k),
      )

  act_all-first :
      (es : List Event) (texts : List (List ℕ))
      → chars es ≡ framed texts
      → AllTexts texts
      → (t : Poller) × (act_all parse (asked ∷ es) first_state ≡ some t)
        × (t.link.sent ≡ told texts [])
  unfolding act_all act send_request_to_node first_state set_up_spi
  act_all-first es texts same h =
      let (l, run, sent) = receive_all-texts texts first_state.link (omega arith) h in
      let (t, goes, like) =
        act_all-Like es
          (record first_state {
            link = send_request_to_node first_state.link;
            receiving = true;
            wires = pin 1 ∷ frame request_key ∷ pin 0 ∷ first_state.wires;
          })
          first_state.link l refl (0, 1, 0, refl)
          (ap (λ cs. receive_all parse cs first_state.link) same ∙ run) in
      let (d, n, m, e) = like in (t, goes, ap (λ (k : Link). k.sent) e ∙ sent)

  -- If `main` comes to its loop, and from its first request on the characters that are heard are whole texts,
  -- each of at most 49 characters with none of '}', '.', 'a', 'b' and 0 inside, then wherever requests come
  -- between the characters no access is outside the buffer, and what is sent to the server is in their order
  -- the numbers of the texts whose "keynode" is 97.
  pub act_all-told :
      (created : ℤ) {s : Poller} (es : List Event) (texts : List (List ℕ))
      → main_start created ≡ looping s
      → chars es ≡ framed texts
      → AllTexts texts
      → (t : Poller) × (act_all parse (asked ∷ es) s ≡ some t) × (t.link.sent ≡ told texts [])
  act_all-told created {s} es texts start same h =
      subst
        (λ s.
          (t : Poller) × (act_all parse (asked ∷ es) s ≡ some t) × (t.link.sent ≡ told texts []))
        (main_start-first created s (ap in_loop start)) (act_all-first es texts same h)
