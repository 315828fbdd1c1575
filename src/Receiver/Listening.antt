-- ===== src/Receiver/Listening.antt =====
-- The waits of the receiver's slots, `while (count < 4)` and the one on `countLora`.
use Prim.Native.String.{String}
use embeded_linux_gateway.Prelude.{
  ℕ, ◌+◌, ◌-◌, ◌≤◌, ◌<◌, ◌≡◌, refl, sym, true, false, none, some, List, [], ◌∷◌, ◌++◌, ℤ, pos,
  negsuc, arith, ltb, ◌==◌, c_string, replicate, overlay, length, Bool-cases, ==_iff, ltb→lt,
  some-injective, none≢some, ap, ◌∙◌, append_assoc, length-append, ◌⊎◌, inl, inr,
}
use mathlib.Core.Path.{subst}
use embeded_linux_gateway.Mqtt.{Message, publish_mess}
use embeded_linux_gateway.Lora.Bus.{Bus}
use embeded_linux_gateway.Receiver.{
  Receiver, RfEvent, packet, alarmed_packet, alarm, eq_ℤ, id_rf24, rf_packet, rf_event, rf_listen,
  timer_handler,
}

-- `x == n` is the equality with the constant.
pub eq_ℤ-eq : (x : ℤ) (n : ℕ) → eq_ℤ x n ≡ true → x ≡ pos n
eq_ℤ-eq (pos a) n h = ap pos ((==_iff a n).0 h)
eq_ℤ-eq (negsuc a) n h = absurd (ground arith)

-- Every message of the list goes to `topic`, with a text whose "id" is `n`.
abbrev pub AllFrom : (List ℕ → ℤ) → String → ℕ → List Message → Type 0
AllFrom parse topic n [] = Unit
AllFrom parse topic n (m ∷ ms) =
    ((m.topic ≡ topic) × (parse m.payload ≡ pos n)) × AllFrom parse topic n ms

pub AllFrom-append :
    (parse : List ℕ → ℤ) (topic : String) (n : ℕ) (ms ns : List Message)
    → AllFrom parse topic n ms
    → AllFrom parse topic n ns
    → AllFrom parse topic n (ms ++ ns)
AllFrom-append parse topic n [] ns h k = k
AllFrom-append parse topic n (m ∷ ms) ns h k = (h.0, AllFrom-append parse topic n ms ns h.1 k)

module _ (bus : Bus) (parse : List ℕ → ℤ) where
  abbrev State : Type 0
  State = Receiver bus parse

  -- From `s` to `t` at most `n` more messages are published, all on `data_rf` with the id of an RF24
  -- node, and nothing is sent to the server.
  pub record Published (n : ℕ) (s t : State) : Type 0 where
    pub new : List Message
    pub few : length new ≤ n
    pub right : AllFrom parse "data_rf" id_rf24 new
    pub order : t.published ≡ new ++ s.published
    pub silent : t.sent ≡ s.sent
    pub select_kept : t.select ≡ s.select
    pub pins_kept : t.pins ≡ s.pins
    pub eth_kept : t.modem.eth ≡ s.modem.eth

  pub rf_packet_cases :
      (bs : List ℕ) (s : State)
      → ((rf_packet bus parse bs s ≡ s)
          ⊎ ((parse (c_string (overlay bs (replicate 50 0))) ≡ pos id_rf24)
              × (rf_packet bus parse bs s ≡ record s {
                published = publish_mess "data_rf" (overlay bs (replicate 50 0)) ∷ s.published;
                count = s.count + 1;
              })))
  unfolding rf_packet
  rf_packet_cases bs s =
      elim (Bool-cases (eq_ℤ (parse (c_string (overlay bs (replicate 50 0)))) id_rf24)) [
        | inl h ↦ inr (eq_ℤ-eq _ _ h, rw h refl)
        | inr h ↦ inl (rw h refl)
      ]

  same :
      (s t : State)
      → t.published ≡ s.published
      → t.sent ≡ s.sent
      → t.select ≡ s.select
      → t.pins ≡ s.pins
      → t.modem.eth ≡ s.modem.eth
      → Published 0 s t
  same s t p q r u v = record {
    new = [];
    few = omega arith;
    right = tt;
    order = p;
    silent = q;
    select_kept = r;
    pins_kept = u;
    eth_kept = v;
  }

  joined : {m n : ℕ} {s t u : State} → Published m s t → Published n t u → Published (m + n) s u
  joined {m} {n} {s} {t} {u} a b = record {
    new = b.new ++ a.new;
    few = omega (arith, length-append b.new a.new, a.few, b.few);
    right = AllFrom-append parse "data_rf" id_rf24 b.new a.new b.right a.right;
    order = b.order ∙ ap (λ l. b.new ++ l) a.order ∙ sym (append_assoc b.new a.new s.published);
    silent = b.silent ∙ a.silent;
    select_kept = b.select_kept ∙ a.select_kept;
    pins_kept = b.pins_kept ∙ a.pins_kept;
    eth_kept = b.eth_kept ∙ a.eth_kept;
  }

  widen : {m n : ℕ} {s t : State} → m ≤ n → Published m s t → Published n s t
  widen h a = record {
    new = a.new;
    few = omega (arith, a.few);
    right = a.right;
    order = a.order;
    silent = a.silent;
    select_kept = a.select_kept;
    pins_kept = a.pins_kept;
    eth_kept = a.eth_kept;
  }

  -- The state after a packet of an RF24 node.
  abbrev accepted : List ℕ → State → State
  accepted bs s = record s {
    published = publish_mess "data_rf" (overlay bs (replicate 50 0)) ∷ s.published;
    count = s.count + 1;
  }

  accepted-Published :
      (bs : List ℕ) (s : State)
      → parse (c_string (overlay bs (replicate 50 0))) ≡ pos id_rf24
      → Published 1 s (accepted bs s)
  unfolding publish_mess
  accepted-Published bs s h = record {
    new = publish_mess "data_rf" (overlay bs (replicate 50 0)) ∷ [];
    few = omega arith;
    right = ((refl, h), tt);
    order = refl;
    silent = refl;
    select_kept = refl;
    pins_kept = refl;
    eth_kept = refl;
  }

  abbrev Progress : State → State → Type 0
  Progress s t =
      ((Published 0 s t) × (s.count ≤ t.count)) ⊎ ((Published 1 s t) × (s.count < t.count))

  -- One event adds a message only if it adds to the count.
  rf_event-Progress : (e : RfEvent) (s : State) → s.count < 4 → Progress s (rf_event bus parse e s)
  unfolding rf_event timer_handler
  rf_event-Progress alarm s h =
      inl (same s (timer_handler bus parse s) refl refl refl refl refl, omega arith)
  rf_event-Progress (packet bs) s h = elim (rf_packet_cases bs s) [
    | inl e ↦ rw e (inl (same s s refl refl refl refl refl, omega arith))
    | inr (id, e) ↦ rw e (inr (accepted-Published bs s id, omega arith))
  ]
  rf_event-Progress (alarmed_packet bs) s h = elim (rf_packet_cases bs s) [
    | inl e ↦
        rw (e, self s.count)
          (inl (same s (timer_handler bus parse s) refl refl refl refl refl, omega arith))
    | inr (id, e) ↦ rw (e, next s.count) (inr (accepted-Published bs s id, omega arith))
  ]
    where
      self : (n : ℕ) → (n == n) ≡ true
      self n = ground arith

      next : (n : ℕ) → (n + 1 == n) ≡ false
      next n = ground arith

  rf_listen-stop :
      (es : List RfEvent) (s : State) → ltb s.count 4 ≡ false → rf_listen bus parse es s ≡ some s
  unfolding rf_listen
  rf_listen-stop [] s h = rw h refl
  rf_listen-stop (e ∷ es) s h = rw h refl

  rf_listen-step :
      (e : RfEvent) (es : List RfEvent) (s : State)
      → ltb s.count 4 ≡ true
      → rf_listen bus parse (e ∷ es) s ≡ rf_listen bus parse es (rf_event bus parse e s)
  unfolding rf_listen
  rf_listen-step e es s h = rw h refl

  rf_listen-wait : (s : State) → ltb s.count 4 ≡ true → rf_listen bus parse [] s ≡ none
  unfolding rf_listen
  rf_listen-wait s h = rw h refl

  stopped : (n : ℕ) (s t : State) → some s ≡ some t → Published n s t
  stopped n s t h =
      subst (Published n s) (some-injective h)
        (widen (omega arith) (same s s refl refl refl refl refl))

  -- A wait that ends has published at most as many messages as the count is short of 4, each the text of
  -- a packet whose "id" is that of the RF24 nodes, in their order after the earlier ones. It has sent
  -- nothing to the server, and left the slot, the pins and the modem's configuration.
  pub rf_listen-Published :
      (es : List RfEvent) (s t : State)
      → rf_listen bus parse es s ≡ some t
      → Published (4 - s.count) s t
  rf_listen-Published [] s t h = elim (Bool-cases (ltb s.count 4)) [
    | inr done ↦ stopped (4 - s.count) s t (sym (rf_listen-stop [] s done) ∙ h)
    | inl going ↦ absurd (none≢some (sym (rf_listen-wait s going) ∙ h))
  ]
  rf_listen-Published (e ∷ es) s t h = elim (Bool-cases (ltb s.count 4)) [
    | inr done ↦ stopped (4 - s.count) s t (sym (rf_listen-stop (e ∷ es) s done) ∙ h)
    | inl going ↦
        let rest =
          rf_listen-Published es (rf_event bus parse e s) t
            (sym (rf_listen-step e es s going) ∙ h) in
        let short = ltb→lt s.count 4 going in
        elim (rf_event-Progress e s short) [
          | inl (a, le) ↦ widen (omega arith) (joined a rest)
          | inr (a, lt) ↦ widen (omega arith) (joined a rest)
        ]
  ]

  -- A wait in which the timer fires while no packet is handled ends, whatever comes before and after.
  pub rf_listen-ends :
      (es fs : List RfEvent) (s : State)
      → (t : State) × (rf_listen bus parse (es ++ alarm ∷ fs) s ≡ some t)
  unfolding rf_event timer_handler
  rf_listen-ends [] fs s = elim (Bool-cases (ltb s.count 4)) [
    | inr done ↦ (s, rf_listen-stop (alarm ∷ fs) s done)
    | inl going ↦ (
      timer_handler bus parse s,
      rf_listen-step alarm fs s going ∙ rf_listen-stop fs (timer_handler bus parse s) refl,
    )
  ]
  rf_listen-ends (e ∷ es) fs s = elim (Bool-cases (ltb s.count 4)) [
    | inr done ↦ (s, rf_listen-stop (e ∷ es ++ alarm ∷ fs) s done)
    | inl going ↦
        let (t, h) = rf_listen-ends es fs (rf_event bus parse e s) in
        (t, rf_listen-step e (es ++ alarm ∷ fs) s going ∙ h)
  ]
