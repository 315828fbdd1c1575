-- ===== src/Uart/Reads.antt =====
-- What a sequence of reads from the serial line publishes.
use embeded_linux_gateway.Prelude.{
  ℕ, suc, ◌+◌, ◌≤◌, ◌≡◌, refl, sym, ap, ◌∙◌, Option, none, some, List, [], ◌∷◌, ◌++◌, ℤ, ltb,
  length, overlay, replicate, c_string, Bool-cases, inl, inr, append_assoc, length-append, arith,
}
use mathlib.Core.Path.{subst}
use embeded_linux_gateway.Mqtt.{Message, publish_mess}
use embeded_linux_gateway.Receiver.{eq_ℤ}
use embeded_linux_gateway.Receiver.Listening.{AllFrom, AllFrom-append, eq_ℤ-eq}
use embeded_linux_gateway.Uart.{id_blue, Uart, read_message, read_messages}

module _ (parse : List ℕ → ℤ) where
  -- From `s` to `t`, over `n` reads: the new messages go to `data_bl` with the id of the Bluetooth node,
  -- each of them is counted, and each read is counted at most once.
  pub record Heard (n : ℕ) (s t : Uart) : Type 0 where
    pub new : List Message
    pub order : t.published ≡ new ++ s.published
    pub right : AllFrom parse "data_bl" id_blue new
    pub counted : s.count + length new ≤ t.count
    pub once : t.count ≤ s.count + n

  none_new :
      (n : ℕ) (s t : Uart)
      → t.published ≡ s.published
      → s.count ≤ t.count
      → t.count ≤ s.count + n
      → Heard n s t
  none_new n s t e p q = record { new = []; order = e; right = tt; counted = omega arith; once = q }

  joined : {m n : ℕ} {s t u : Uart} → Heard m s t → Heard n t u → Heard (m + n) s u
  joined {m} {n} {s} {t} {u} a b = record {
    new = b.new ++ a.new;
    order = b.order ∙ ap (λ l. b.new ++ l) a.order ∙ sym (append_assoc b.new a.new s.published);
    right = AllFrom-append parse "data_bl" id_blue b.new a.new b.right a.right;
    counted = omega (arith, length-append b.new a.new, a.counted, b.counted);
    once = omega (arith, a.once, b.once);
  }

  read_message-Heard : (r : Option (List ℕ)) (s : Uart) → Heard 1 s (read_message parse r s)
  unfolding read_message publish_mess
  read_message-Heard none s = none_new 1 s s refl (omega arith) (omega arith)
  read_message-Heard (some bs) s = elim (Bool-cases (ltb 41 (length bs))) [
    | inr short ↦ rw short (none_new 1 s s refl (omega arith) (omega arith))
    | inl long ↦ elim (Bool-cases (eq_ℤ (parse (c_string (overlay bs (replicate 50 0)))) id_blue)) [
      | inr other ↦
          rw (long, other)
            (none_new 1 s (record s { count = s.count + 1 }) refl (omega arith) (omega arith))
      | inl blue ↦
          rw (long, blue)
            (record {
              new = publish_mess "data_bl" (overlay bs (replicate 50 0)) ∷ [];
              order = refl;
              right = ((refl, eq_ℤ-eq _ _ blue), tt);
              counted = omega arith;
              once = omega arith;
            })
    ]
  ]

  -- Whatever is read, the messages published go to `data_bl`, each a text whose "id" is that of the
  -- Bluetooth node, after the earlier ones; `count` grows by at least their number and at most by the
  -- number of reads.
  pub read_messages-Heard :
      (rs : List (Option (List ℕ))) (s : Uart) → Heard (length rs) s (read_messages parse rs s)
  unfolding read_messages
  read_messages-Heard [] s = none_new 0 s s refl (omega arith) (omega arith)
  read_messages-Heard (r ∷ rs) s =
      let t = read_message parse r s in
      let one_more : 1 + length rs ≡ suc (length rs) = omega arith in
      subst (λ n. Heard n s (read_messages parse rs t)) one_more
        (joined (read_message-Heard r s) (read_messages-Heard rs t))
