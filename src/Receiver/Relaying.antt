-- ===== src/Receiver/Relaying.antt =====
-- The waits of the LoRa slots: what goes to the server, and that the timer ends them.
use embeded_linux_gateway.Prelude.{
  ℕ, ◌+◌, ◌-◌, ◌≤◌, ◌<◌, ◌≡◌, refl, sym, true, false, none, some, List, [], ◌∷◌, ◌++◌, ℤ, arith,
  ltb, ◌==◌, c_string, length, Bool-cases, some-injective, none≢some, ap, ◌∙◌, append_assoc,
  length-append, ◌⊎◌, inl, inr,
}
use mathlib.Core.Path.{subst}
use embeded_linux_gateway.Data.{set_node, set_lora_msg, k_lora}
use embeded_linux_gateway.Lora.Regs.{RxData}
use embeded_linux_gateway.Lora.Bus.{Bus}
use embeded_linux_gateway.Receiver.{
  Receiver, LoraEvent, message, alarmed_message, alarm_lora, eq_ℤ, id_lora, lora_event, lora_listen,
  rx_f, timer_handler_lora,
}

-- Every send of the list goes to the descriptor `fd`.
abbrev pub AllTo : ℤ → List (ℤ × List ℕ) → Type 0
AllTo fd [] = Unit
AllTo fd (m ∷ ms) = (m.0 ≡ fd) × AllTo fd ms

AllTo-append :
    (fd : ℤ) (ms ns : List (ℤ × List ℕ)) → AllTo fd ms → AllTo fd ns → AllTo fd (ms ++ ns)
AllTo-append fd [] ns h k = k
AllTo-append fd (m ∷ ms) ns h k = (h.0, AllTo-append fd ms ns h.1 k)

module _ (bus : Bus) (parse : List ℕ → ℤ) where
  abbrev State : Type 0
  State = Receiver bus parse

  -- From `s` to `t` at most `n` messages go to the server, all by the descriptor of `s`.
  pub record Relayed (n : ℕ) (s t : State) : Type 0 where
    pub new : List (ℤ × List ℕ)
    pub few : length new ≤ n
    pub right : AllTo s.sockfd new
    pub order : t.sent ≡ new ++ s.sent
    pub socket_kept : t.sockfd ≡ s.sockfd
    pub select_kept : t.select ≡ s.select
    pub pins_kept : t.pins ≡ s.pins
    pub eth_kept : t.modem.eth ≡ s.modem.eth

  same :
      (s t : State)
      → t.sent ≡ s.sent
      → t.sockfd ≡ s.sockfd
      → t.select ≡ s.select
      → t.pins ≡ s.pins
      → t.modem.eth ≡ s.modem.eth
      → Relayed 0 s t
  same s t p q r u v = record {
    new = [];
    few = omega arith;
    right = tt;
    order = p;
    socket_kept = q;
    select_kept = r;
    pins_kept = u;
    eth_kept = v;
  }

  joined : {m n : ℕ} {s t u : State} → Relayed m s t → Relayed n t u → Relayed (m + n) s u
  joined {m} {n} {s} {t} {u} a b = record {
    new = b.new ++ a.new;
    few = omega (arith, length-append b.new a.new, a.few, b.few);
    right =
        AllTo-append s.sockfd b.new a.new (subst (λ fd. AllTo fd b.new) a.socket_kept b.right)
          a.right;
    order = b.order ∙ ap (λ l. b.new ++ l) a.order ∙ sym (append_assoc b.new a.new s.sent);
    socket_kept = b.socket_kept ∙ a.socket_kept;
    select_kept = b.select_kept ∙ a.select_kept;
    pins_kept = b.pins_kept ∙ a.pins_kept;
    eth_kept = b.eth_kept ∙ a.eth_kept;
  }

  widen : {m n : ℕ} {s t : State} → m ≤ n → Relayed m s t → Relayed n s t
  widen h a = record {
    new = a.new;
    few = omega (arith, a.few);
    right = a.right;
    order = a.order;
    socket_kept = a.socket_kept;
    select_kept = a.select_kept;
    pins_kept = a.pins_kept;
    eth_kept = a.eth_kept;
  }

  abbrev Progress : State → State → Type 0
  Progress s t =
      ((Relayed 0 s t) × (s.count_lora ≤ t.count_lora))
      ⊎ ((Relayed 1 s t) × (s.count_lora < t.count_lora))

  -- What the callback makes of a packet: without the id of a LoRa node it is only published; with it,
  -- it goes to the server too and is counted.
  rx_f_cases :
      (rx : RxData) (s : State)
      → ((Relayed 0 s (rx_f bus parse rx s)) × ((rx_f bus parse rx s).count_lora ≡ s.count_lora))
        ⊎ ((Relayed 1 s (rx_f bus parse rx s))
            × ((rx_f bus parse rx s).count_lora ≡ s.count_lora + 1))
  unfolding rx_f
  rx_f_cases rx s = elim (Bool-cases (eq_ℤ (parse (c_string rx.buf)) id_lora)) [
    | inl h ↦ inr (relayed h, counted h)
    | inr h ↦ inl (quiet h, still h)
  ]
    where
      relayed : eq_ℤ (parse (c_string rx.buf)) id_lora ≡ true → Relayed 1 s (rx_f bus parse rx s)
      relayed h = rw h (record {
        new = (s.sockfd, set_lora_msg (c_string rx.buf) (set_node k_lora s.bytes)) ∷ [];
        few = omega arith;
        right = (refl, tt);
        order = refl;
        socket_kept = refl;
        select_kept = refl;
        pins_kept = refl;
        eth_kept = refl;
      })

      counted :
          eq_ℤ (parse (c_string rx.buf)) id_lora ≡ true
          → (rx_f bus parse rx s).count_lora ≡ s.count_lora + 1
      counted h = rw h refl

      quiet : eq_ℤ (parse (c_string rx.buf)) id_lora ≡ false → Relayed 0 s (rx_f bus parse rx s)
      quiet h = rw h (same s _ refl refl refl refl refl)

      still :
          eq_ℤ (parse (c_string rx.buf)) id_lora ≡ false
          → (rx_f bus parse rx s).count_lora ≡ s.count_lora
      still h = rw h refl

  lora_event-Progress :
      (e : LoraEvent) (s : State) → s.count_lora < 3 → Progress s (lora_event bus parse e s)
  unfolding lora_event timer_handler_lora
  lora_event-Progress alarm_lora s h =
      inl (same s (timer_handler_lora bus parse s) refl refl refl refl refl, omega arith)
  lora_event-Progress (message rx) s h = elim (rx_f_cases rx s) [
    | inl (a, e) ↦ inl (a, omega arith)
    | inr (a, e) ↦ inr (a, omega arith)
  ]
  lora_event-Progress (alarmed_message rx) s h = elim (rx_f_cases rx s) [
    | inl (a, e) ↦ rw (test_eq _ _ e) (
        inl (
          joined a (
              same (rx_f bus parse rx s) (timer_handler_lora bus parse (rx_f bus parse rx s)) refl
                refl refl refl refl),
          omega arith,
        ))
    | inr (a, e) ↦ rw (test_suc _ _ e) (inr (a, omega arith))
  ]
    where
      test_eq : (m n : ℕ) → m ≡ n → (m == n) ≡ true
      test_eq m n e = ground arith

      test_suc : (m n : ℕ) → m ≡ n + 1 → (m == n) ≡ false
      test_suc m n e = ground arith

  lora_listen-stop :
      (fs : List LoraEvent) (s : State)
      → ltb 2 s.count_lora ≡ true
      → lora_listen bus parse fs s ≡ some s
  unfolding lora_listen
  lora_listen-stop [] s h = rw h refl
  lora_listen-stop (e ∷ fs) s h = rw h refl

  lora_listen-step :
      (e : LoraEvent) (fs : List LoraEvent) (s : State)
      → ltb 2 s.count_lora ≡ false
      → lora_listen bus parse (e ∷ fs) s ≡ lora_listen bus parse fs (lora_event bus parse e s)
  unfolding lora_listen
  lora_listen-step e fs s h = rw h refl

  lora_listen-wait : (s : State) → ltb 2 s.count_lora ≡ false → lora_listen bus parse [] s ≡ none
  unfolding lora_listen
  lora_listen-wait s h = rw h refl

  short : (n : ℕ) → ltb 2 n ≡ false → n < 3
  short n h = ground arith

  stopped : (n : ℕ) (s t : State) → some s ≡ some t → Relayed n s t
  stopped n s t h =
      subst (Relayed n s) (some-injective h)
        (widen (omega arith) (same s s refl refl refl refl refl))

  -- A wait of a LoRa slot that ends has sent at most as many messages to the server as `countLora` is
  -- short of 3, all by the descriptor that it found, after the earlier ones. It has left the slot,
  -- the pins and the modem's configuration.
  pub lora_listen-Relayed :
      (fs : List LoraEvent) (s t : State)
      → lora_listen bus parse fs s ≡ some t
      → Relayed (3 - s.count_lora) s t
  lora_listen-Relayed [] s t h = elim (Bool-cases (ltb 2 s.count_lora)) [
    | inl done ↦ stopped (3 - s.count_lora) s t (sym (lora_listen-stop [] s done) ∙ h)
    | inr going ↦ absurd (none≢some (sym (lora_listen-wait s going) ∙ h))
  ]
  lora_listen-Relayed (e ∷ fs) s t h = elim (Bool-cases (ltb 2 s.count_lora)) [
    | inl done ↦ stopped (3 - s.count_lora) s t (sym (lora_listen-stop (e ∷ fs) s done) ∙ h)
    | inr going ↦
        let rest =
          lora_listen-Relayed fs (lora_event bus parse e s) t
            (sym (lora_listen-step e fs s going) ∙ h) in
        let less = short s.count_lora going in
        elim (lora_event-Progress e s less) [
          | inl (a, le) ↦ widen (omega arith) (joined a rest)
          | inr (a, lt) ↦ widen (omega arith) (joined a rest)
        ]
  ]

  -- A wait of a LoRa slot in which the timer fires while no packet is handled ends, whatever comes
  -- before and after.
  pub lora_listen-ends :
      (es fs : List LoraEvent) (s : State)
      → (t : State) × (lora_listen bus parse (es ++ alarm_lora ∷ fs) s ≡ some t)
  unfolding lora_event timer_handler_lora
  lora_listen-ends [] fs s = elim (Bool-cases (ltb 2 s.count_lora)) [
    | inl done ↦ (s, lora_listen-stop (alarm_lora ∷ fs) s done)
    | inr going ↦ (
      timer_handler_lora bus parse s,
      lora_listen-step alarm_lora fs s going
          ∙ lora_listen-stop fs (timer_handler_lora bus parse s) refl,
    )
  ]
  lora_listen-ends (e ∷ es) fs s = elim (Bool-cases (ltb 2 s.count_lora)) [
    | inl done ↦ (s, lora_listen-stop (e ∷ es ++ alarm_lora ∷ fs) s done)
    | inr going ↦
        let (t, h) = lora_listen-ends es fs (lora_event bus parse e s) in
        (t, lora_listen-step e (es ++ alarm_lora ∷ fs) s going ∙ h)
  ]
