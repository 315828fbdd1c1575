-- ===== src/Receiver/Threads/Counting.antt =====
-- Threads in any order: how often they publish, and what.
use embeded_linux_gateway.Prelude.{
  ℕ, zero, suc, ◌+◌, ◌≡◌, refl, sym, ◌∙◌, ap, List, [], ◌∷◌, ◌++◌, ℤ, length, length-append,
  replicate, length-replicate, Bool-cases, inl, inr, arith,
}
use embeded_linux_gateway.Mqtt.{Message, publish_mess}
use embeded_linux_gateway.Lora.Regs.{RxData}
use embeded_linux_gateway.Lora.Bus.{Bus}
use embeded_linux_gateway.Receiver.{eq_ℤ, id_lora}
use embeded_linux_gateway.Receiver.Threads.{
  Phase, publishing, testing, storing, Callbacks, advance, thread, arrives, runs, Run, here, comes,
  goes_on,
}

-- The threads that have still to publish.
abbrev pub starting : List Phase → ℕ
starting [] = 0
starting (publishing ∷ ps) = 1 + starting ps
starting (_ ∷ ps) = starting ps

starting-append : (xs ys : List Phase) → starting (xs ++ ys) ≡ starting xs + starting ys
starting-append [] ys = omega arith
starting-append (publishing ∷ xs) ys = omega (arith, starting-append xs ys)
starting-append (_ ∷ xs) ys = starting-append xs ys

module _ (bus : Bus) (parse : List ℕ → ℤ) where
  abbrev State : Type 0
  State = Callbacks bus parse

  -- What the buffer's text is published as.
  abbrev pub message_of : State → Message
  message_of s = publish_mess "data_lora" s.rx.buf

  -- A step of one thread.
  record Advanced (p : Phase) (s : State) : Type 0 where
    published :
        (advance bus parse p s).0.receiver.published
        ≡ replicate (starting (p ∷ [])) (message_of s) ++ s.receiver.published
    rx : (advance bus parse p s).0.rx ≡ s.rx
    started : starting (thread bus parse (advance bus parse p s).1) ≡ 0

  advance-Advanced : (p : Phase) (s : State) → Advanced p s
  unfolding advance
  advance-Advanced publishing s = record { published = refl; rx = refl; started = refl }
  advance-Advanced testing s = elim (Bool-cases (eq_ℤ s.response id_lora)) [
    | inl lora ↦ record { published = rw lora refl; rx = rw lora refl; started = rw lora refl }
    | inr other ↦ record { published = rw other refl; rx = rw other refl; started = rw other refl }
  ]
  advance-Advanced (storing n) s = record { published = refl; rx = refl; started = refl }
  advance-Advanced _ s = record { published = refl; rx = refl; started = refl }

  -- The threads before and after a step of one of them.
  split_starting :
      (xs ys : List Phase) (p : Phase)
      → starting (xs ++ (p ∷ ys)) ≡ starting xs + starting (p ∷ []) + starting ys
  split_starting xs ys p = omega (arith, starting-append xs (p ∷ ys), starting-append (p ∷ []) ys)

  runs-texts :
      (n m : ℕ) (t : State) (xs ys : List Phase) (p : Phase)
      → t.threads ≡ xs ++ (p ∷ ys)
      → length t.receiver.published + starting t.threads ≡ m + n
      → let (u, next) = advance bus parse p t in
        length u.receiver.published + starting (xs ++ (thread bus parse next ++ ys)) ≡ m + n
  runs-texts n m t xs ys p e h =
      let a = advance-Advanced p t in
      let later = thread bus parse (advance bus parse p t).1 in
      let k = starting (p ∷ []) in
      omega (
        arith,
        h,
        a.started,
        ap length a.published,
        length-append (replicate k (message_of t)) t.receiver.published,
        length-replicate k (message_of t),
        ap starting e,
        split_starting xs ys p,
        starting-append xs (later ++ ys),
        starting-append later ys,
      )

  -- What is published and what is still to be: one message for each packet.
  pub Run-texts :
      {s t : State} {rxs : List RxData}
      → Run bus parse s rxs t
      → length t.receiver.published + starting t.threads
        ≡ length s.receiver.published + starting s.threads + length rxs
  Run-texts here = omega arith
  Run-texts (comes {rxs = old} rx r (arrives _)) =
      omega (arith, Run-texts r, length-append old (rx ∷ []))
  Run-texts {s} {t} {rxs} (goes_on {t = u} r (runs xs ys p e)) =
      runs-texts (length rxs) (length s.receiver.published + starting s.threads) u xs ys p e
        (Run-texts r)

  replicate-shift :
      (n : ℕ) (m : Message) (ms : List Message)
      → replicate n m ++ (m ∷ ms) ≡ m ∷ replicate n m ++ ms
  replicate-shift zero m ms = refl
  replicate-shift (suc n) m ms = ap (λ l. m ∷ l) (replicate-shift n m ms)

  replicate-add :
      (k n : ℕ) (m : Message) (ms : List Message)
      → replicate n m ++ (replicate k m ++ ms) ≡ replicate (n + k) m ++ ms
  replicate-add zero n m ms = let sum : n ≡ n + 0 = omega arith in ap (λ i. replicate i m ++ ms) sum
  replicate-add (suc k) n m ms =
      let sum : suc (n + k) ≡ n + suc k = omega arith in
      replicate-shift n m (replicate k m ++ ms)
      ∙ ap (λ l. m ∷ l) (replicate-add k n m ms)
      ∙ ap (λ i. replicate i m ++ ms) sum

  -- What is published when the threads that have not done it will have done it, without a further packet.
  record IsDue (s t : State) : Type 0 where
    rx : t.rx ≡ s.rx
    due :
        replicate (starting t.threads) (message_of s) ++ t.receiver.published
        ≡ replicate (starting s.threads) (message_of s) ++ s.receiver.published

  runs-IsDue :
      {s t : State} (xs ys : List Phase) (p : Phase)
      → t.threads ≡ xs ++ (p ∷ ys)
      → IsDue s t
      → let (u, next) = advance bus parse p t in
        IsDue s (record u { threads = xs ++ (thread bus parse next ++ ys) })
  runs-IsDue {s} {t} xs ys p e h =
      let a = advance-Advanced p t in
      let later = thread bus parse (advance bus parse p t).1 in
      let k = starting (p ∷ []) in
      let left : starting (xs ++ (later ++ ys)) + k ≡ starting t.threads = omega (
        arith,
        a.started,
        ap starting e,
        split_starting xs ys p,
        starting-append xs (later ++ ys),
        starting-append later ys,
      ) in
      let same : message_of t ≡ message_of s = ap (λ rx. publish_mess "data_lora" rx.buf) h.rx in
      record {
        rx = a.rx ∙ h.rx;
        due =
            ap (λ l. replicate (starting (xs ++ (later ++ ys))) (message_of s) ++ l)
              (a.published ∙ ap (λ m. replicate k m ++ t.receiver.published) same)
            ∙ replicate-add k (starting (xs ++ (later ++ ys))) (message_of s) t.receiver.published
            ∙ ap (λ n. replicate n (message_of s) ++ t.receiver.published) left
            ∙ h.due;
      }

  Run-IsDue : {s t : State} {rxs : List RxData} → Run bus parse s rxs t → rxs ≡ [] → IsDue s t
  Run-IsDue here e = record { rx = refl; due = refl }
  Run-IsDue (comes {rxs = old} rx r st) e =
      absurd (omega (arith, ap length e, length-append old (rx ∷ [])))
  Run-IsDue (goes_on r (runs xs ys p f)) e = runs-IsDue xs ys p f (Run-IsDue r e)

  -- If packets have come whose threads have published nothing yet, then, if no further packet comes, at the end of
  -- the threads the last packet's text has been published once for each of them, in whatever order they ran; the
  -- earlier packets have been published by none.
  pub Run-overtaken :
      {s t : State}
      → Run bus parse s [] t
      → t.threads ≡ []
      → t.receiver.published
        ≡ replicate (starting s.threads) (publish_mess "data_lora" s.rx.buf) ++ s.receiver.published
  Run-overtaken {s} {t} r end_ =
      ap (λ l. replicate (starting l) (message_of s) ++ t.receiver.published) (sym end_)
      ∙ (Run-IsDue r refl).due
