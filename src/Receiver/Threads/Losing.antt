-- ===== src/Receiver/Threads/Losing.antt =====
-- What `countLora` counts when the loads and stores of `countLora++` of several threads mix.
use embeded_linux_gateway.Prelude.{
  ℕ, suc, ◌+◌, ◌≤◌, ◌≡◌, refl, sym, ap, List, [], ◌∷◌, ◌++◌, ℤ, length, Bool-cases, inl, inr, arith,
}
use mathlib.Core.Path.{subst}
use embeded_linux_gateway.Lora.Regs.{RxData}
use embeded_linux_gateway.Lora.Bus.{Bus}
use embeded_linux_gateway.Receiver.{eq_ℤ, id_lora}
use embeded_linux_gateway.Receiver.Threads.{
  Phase, testing, loading, storing, copying, sending, Callbacks, advance, thread, arrives, runs,
  Run, here, comes, goes_on,
}
use embeded_linux_gateway.Receiver.Threads.Counting.{starting, Run-texts}

-- The threads that have stored the counter, and have still to send.
abbrev waiting : List Phase → ℕ
waiting [] = 0
waiting (copying ∷ ps) = 1 + waiting ps
waiting (sending ∷ ps) = 1 + waiting ps
waiting (_ ∷ ps) = waiting ps

waiting-append : (xs ys : List Phase) → waiting (xs ++ ys) ≡ waiting xs + waiting ys
waiting-append [] ys = omega arith
waiting-append (copying ∷ xs) ys = omega (arith, waiting-append xs ys)
waiting-append (sending ∷ xs) ys = omega (arith, waiting-append xs ys)
waiting-append (_ ∷ xs) ys = waiting-append xs ys

-- What a thread has loaded is at most `high`, less `low`.
abbrev IsBelow : ℕ → ℕ → Phase → Type 0
IsBelow low high (storing n) = n + low ≤ high
IsBelow low high _ = Unit

abbrev AllBelow : ℕ → ℕ → List Phase → Type 0
AllBelow low high [] = Unit
AllBelow low high (p ∷ ps) = IsBelow low high p × AllBelow low high ps

IsBelow-le :
    (low high high' : ℕ) (p : Phase) → high ≤ high' → IsBelow low high p → IsBelow low high' p
IsBelow-le low high high' (storing n) h b = omega arith
IsBelow-le low high high' _ h b = tt

AllBelow-le :
    (low high high' : ℕ) (ps : List Phase)
    → high ≤ high'
    → AllBelow low high ps
    → AllBelow low high' ps
AllBelow-le low high high' [] h b = tt
AllBelow-le low high high' (p ∷ ps) h b =
    (IsBelow-le low high high' p h b.0, AllBelow-le low high high' ps h b.1)

AllBelow-middle :
    (low high : ℕ) (xs ys : List Phase) (p : Phase)
    → AllBelow low high (xs ++ (p ∷ ys))
    → IsBelow low high p × AllBelow low high (xs ++ ys)
AllBelow-middle low high [] ys p h = h
AllBelow-middle low high (x ∷ xs) ys p h =
    let (b, rest) = AllBelow-middle low high xs ys p h.1 in (b, (h.0, rest))

AllBelow-put :
    (low high : ℕ) (xs zs ys : List Phase)
    → AllBelow low high zs
    → AllBelow low high (xs ++ ys)
    → AllBelow low high (xs ++ (zs ++ ys))
AllBelow-put low high [] [] ys h g = g
AllBelow-put low high [] (z ∷ zs) ys h g = (h.0, AllBelow-put low high [] zs ys h.1 g)
AllBelow-put low high (x ∷ xs) zs ys h g = (g.0, AllBelow-put low high xs zs ys h g.1)

two_more : (n : ℕ) → suc (suc n) ≡ n + 2
two_more n = omega arith

module _ (bus : Bus) (parse : List ℕ → ℤ) where
  abbrev State : Type 0
  State = Callbacks bus parse

  -- One step of a thread, where the other threads and the start make `k`.
  record IsStep (low k : ℕ) (p : Phase) (s : State) : Type 0 where
    grows :
        k + length s.receiver.sent + waiting (p ∷ [])
        ≤ k
          + length (advance bus parse p s).0.receiver.sent
          + waiting (thread bus parse (advance bus parse p s).1)
    counter :
        (advance bus parse p s).0.receiver.count_lora + low
        ≤ k
          + length (advance bus parse p s).0.receiver.sent
          + waiting (thread bus parse (advance bus parse p s).1)
    loaded :
        AllBelow low
          (k
            + length (advance bus parse p s).0.receiver.sent
            + waiting (thread bus parse (advance bus parse p s).1))
          (thread bus parse (advance bus parse p s).1)

  advance-IsStep :
      (low k : ℕ) (p : Phase) (s : State)
      → s.receiver.count_lora + low ≤ k + length s.receiver.sent + waiting (p ∷ [])
      → IsBelow low (k + length s.receiver.sent + waiting (p ∷ [])) p
      → IsStep low k p s
  unfolding advance
  advance-IsStep low k testing s h b = elim (Bool-cases (eq_ℤ s.response id_lora)) [
    | inl lora ↦ record {
      grows = rw lora (omega arith);
      counter = rw lora h;
      loaded = rw lora (tt, tt);
    }
    | inr other ↦ record {
      grows = rw other (omega arith);
      counter = rw other h;
      loaded = rw other tt;
    }
  ]
  advance-IsStep low k loading s h b = record { grows = omega arith; counter = h; loaded = (h, tt) }
  advance-IsStep low k (storing n) s h b = record {
    grows = omega arith;
    counter = omega arith;
    loaded = (tt, tt);
  }
  advance-IsStep low k sending s h b = record {
    grows = omega arith;
    counter = omega arith;
    loaded = tt;
  }
  advance-IsStep low k _ s h b = record {
    grows = omega arith;
    counter = omega arith;
    loaded = (tt, tt);
  }

  -- From `s`, without a thread, to `t`.
  record IsCounted (s t : State) : Type 0 where
    counter :
        t.receiver.count_lora + length s.receiver.sent
        ≤ s.receiver.count_lora + length t.receiver.sent + waiting t.threads
    loaded :
        AllBelow
          (length s.receiver.sent)
          (s.receiver.count_lora + length t.receiver.sent + waiting t.threads)
          t.threads

  runs-IsCounted :
      {s t : State} (xs ys : List Phase) (p : Phase)
      → t.threads ≡ xs ++ (p ∷ ys)
      → IsCounted s t
      → let (u, next) = advance bus parse p t in
        IsCounted s (record u { threads = xs ++ (thread bus parse next ++ ys) })
  runs-IsCounted {s} {t} xs ys p e h =
      let low = length s.receiver.sent in
      let k = s.receiver.count_lora + waiting xs + waiting ys in
      let old = k + length t.receiver.sent + waiting (p ∷ []) in
      let zs = thread bus parse (advance bus parse p t).1 in
      let sent' = length (advance bus parse p t).0.receiver.sent in
      let new = k + sent' + waiting zs in
      let before : waiting t.threads ≡ waiting xs + (waiting (p ∷ []) + waiting ys) =
        omega (arith, ap waiting e, waiting-append xs (p ∷ ys), waiting-append (p ∷ []) ys) in
      let total : s.receiver.count_lora + length t.receiver.sent + waiting t.threads ≤ old =
        omega (arith, before) in
      let (mine, others) =
        AllBelow-middle low old xs ys p
          (AllBelow-le low _ old (xs ++ (p ∷ ys)) total (subst (AllBelow low _) e h.loaded)) in
      let step = advance-IsStep low k p t (omega (arith, h.counter)) mine in
      let after : new ≤ s.receiver.count_lora + sent' + waiting (xs ++ (zs ++ ys)) =
        omega (arith, waiting-append xs (zs ++ ys), waiting-append zs ys) in
      record {
        counter = omega (arith, step.counter);
        loaded = AllBelow-le low new _ (xs ++ (zs ++ ys)) after (
            AllBelow-put low new xs zs ys step.loaded
              (AllBelow-le low old new (xs ++ ys) step.grows others));
      }

  Run-IsCounted :
      {s t : State} {rxs : List RxData} → Run bus parse s rxs t → s.threads ≡ [] → IsCounted s t
  Run-IsCounted {s} here start = record {
    counter = omega arith;
    loaded = subst (AllBelow (length s.receiver.sent) _) (sym start) tt;
  }
  Run-IsCounted (comes rx r (arrives _)) start =
      let h = Run-IsCounted r start in record { counter = h.counter; loaded = (tt, h.loaded) }
  Run-IsCounted (goes_on r (runs xs ys p e)) start =
      runs-IsCounted xs ys p e (Run-IsCounted r start)

  -- If no thread is there at the start and at the end, and neither `main` nor the timer sets `countLora` between, then
  -- in whatever order the packets came and the threads ran, their loads and stores of the counter included, as many
  -- messages have been published as packets came, and `countLora` has grown by at most the number of messages that
  -- were sent to the server.
  pub Run-published :
      {s t : State} {rxs : List RxData}
      → Run bus parse s rxs t
      → s.threads ≡ []
      → t.threads ≡ []
      → (length t.receiver.published ≡ length s.receiver.published + length rxs)
        × (t.receiver.count_lora + length s.receiver.sent
            ≤ s.receiver.count_lora + length t.receiver.sent)
  Run-published r start end_ = (
    omega (arith, Run-texts bus parse r, ap starting start, ap starting end_),
    omega (arith, (Run-IsCounted r start).counter, ap waiting end_),
  )

  -- If two threads come to the load of the counter, with no other thread, then the counter can grow by 1 while both
  -- send a message.
  pub Run-lost :
      (s : State)
      → s.threads ≡ loading ∷ loading ∷ []
      → (t : State) × Run bus parse s [] t
        × (t.threads ≡ [])
        × (t.receiver.count_lora ≡ s.receiver.count_lora + 1)
        × (length t.receiver.sent ≡ length s.receiver.sent + 2)
  unfolding advance
  Run-lost s both =
      let u : State = record s { threads = loading ∷ loading ∷ [] } in
      let n = s.receiver.count_lora in
      let first = goes_on {t = u} here (runs [] (loading ∷ []) loading refl) in
      let loaded = goes_on first (runs (storing n ∷ []) [] loading refl) in
      let stored = goes_on loaded (runs [] (storing n ∷ []) (storing n) refl) in
      let again = goes_on stored (runs (copying ∷ []) [] (storing n) refl) in
      let one = goes_on again (runs [] (copying ∷ []) copying refl) in
      let gone = goes_on one (runs [] (copying ∷ []) sending refl) in
      let two = goes_on gone (runs [] [] copying refl) in
      let ended = goes_on two (runs [] [] sending refl) in
      subst
        (λ ps.
          (t : State) × Run bus parse (record s { threads = ps }) [] t
          × (t.threads ≡ [])
          × (t.receiver.count_lora ≡ n + 1)
          × (length t.receiver.sent ≡ length s.receiver.sent + 2))
        (sym both) (_, ended, refl, refl, two_more (length s.receiver.sent))
