-- ===== src/Receiver/Threads/Alone.antt =====
-- Threads that do not overlap do what `rx_f` does in one piece.
use embeded_linux_gateway.Prelude.{
  ℕ, ◌+◌, ◌≤◌, ◌≡◌, refl, sym, ◌∙◌, ap, Option, none, some, List, [], ◌∷◌, ◌++◌, ℤ, if◌then◌else◌,
  c_string, length, length-append, append-nil, Bool-cases, inl, inr, arith,
}
use mathlib.Core.Path.{subst}
use embeded_linux_gateway.Data.{k_lora, set_node, set_lora_msg}
use embeded_linux_gateway.Lora.Regs.{RxData}
use embeded_linux_gateway.Lora.Bus.{Bus}
use embeded_linux_gateway.Receiver.{Receiver, rx_f, eq_ℤ, id_lora}
use embeded_linux_gateway.Receiver.Threads.{
  Phase, publishing, parsing, finding, numbering, testing, loading, storing, copying, sending,
  Callbacks, advance, thread, arrives, runs, Run, here, comes, goes_on,
}

module _ (bus : Bus) (parse : List ℕ → ℤ) where
  abbrev State : Type 0
  State = Callbacks bus parse

  -- The callback for packets one after the other.
  unfoldable pub all_rx_f : List RxData → Receiver bus parse → Receiver bus parse
  all_rx_f [] r = r
  all_rx_f (rx ∷ rxs) r = all_rx_f rxs (rx_f bus parse rx r)

  all_rx_f-append :
      (rxs : List RxData) (rx : RxData) (r : Receiver bus parse)
      → all_rx_f (rxs ++ (rx ∷ [])) r ≡ rx_f bus parse rx (all_rx_f rxs r)
  unfolding all_rx_f
  all_rx_f-append [] rx r = refl
  all_rx_f-append (x ∷ rxs) rx r = all_rx_f-append rxs rx (rx_f bus parse x r)

  -- A packet comes only when no thread is there.
  abbrev pub Orderly : {s t : State} {rxs : List RxData} → Run bus parse s rxs t → Type 0
  Orderly here = Unit
  Orderly (comes {t} rx r st) = Orderly r × (t.threads ≡ [])
  Orderly (goes_on r st) = Orderly r

  -- What follows the test on `checkResponse`, if `countLora` becomes `k`.
  abbrev counted : ℕ → State → Receiver bus parse
  counted k s =
      let r = s.receiver in
      let d = set_lora_msg (c_string s.rx.buf) (set_node k_lora r.bytes) in
      record r { count_lora = k; bytes = d; sent = (r.sockfd, d) ∷ r.sent }

  -- The test and what follows it.
  abbrev tested : ℤ → State → Receiver bus parse
  tested response s =
      if eq_ℤ response id_lora then counted (s.receiver.count_lora + 1) s else s.receiver

  -- What a thread will have done at its end, if it is alone.
  completed : Phase → State → Receiver bus parse
  unfolding advance
  completed publishing s = rx_f bus parse s.rx s.receiver
  completed parsing s = tested (parse (c_string s.rx.buf)) s
  completed finding s = tested (parse s.parsed_json) s
  completed numbering s = tested (parse s.id_node) s
  completed testing s = tested s.response s
  completed loading s = counted (s.receiver.count_lora + 1) s
  completed (storing n) s = counted (n + 1) s
  completed copying s = counted s.receiver.count_lora s
  completed sending s = (advance bus parse sending s).0.receiver

  completed_all : List Phase → State → Receiver bus parse
  unfolding completed
  completed_all [] s = s.receiver
  completed_all (p ∷ ps) s = completed p s

  advance-completed :
      (p : Phase) (s : State)
      → let (t, next) = advance bus parse p s in
        completed_all (thread bus parse next) t ≡ completed p s
  unfolding completed_all completed advance rx_f
  advance-completed publishing s = refl
  advance-completed parsing s = refl
  advance-completed finding s = refl
  advance-completed numbering s = refl
  advance-completed testing s = elim (Bool-cases (eq_ℤ s.response id_lora)) [
    | inl lora ↦ rw lora refl
    | inr other ↦ rw other refl
  ]
  advance-completed loading s = refl
  advance-completed (storing n) s = refl
  advance-completed copying s = refl
  advance-completed sending s = refl

  -- The list of the threads plays no part in what one of them does.
  completed_all-threads :
      (l m : List Phase) (s : State)
      → completed_all l (record s { threads = m }) ≡ completed_all l s
  unfolding completed_all completed advance
  completed_all-threads [] m s = refl
  completed_all-threads (publishing ∷ l) m s = refl
  completed_all-threads (parsing ∷ l) m s = refl
  completed_all-threads (finding ∷ l) m s = refl
  completed_all-threads (numbering ∷ l) m s = refl
  completed_all-threads (testing ∷ l) m s = refl
  completed_all-threads (loading ∷ l) m s = refl
  completed_all-threads (storing n ∷ l) m s = refl
  completed_all-threads (copying ∷ l) m s = refl
  completed_all-threads (sending ∷ l) m s = refl

  thread-length : (next : Option Phase) → length (thread bus parse next) ≤ 1
  thread-length none = omega arith
  thread-length (some p) = omega arith

  record IsAlone (s t : State) (rxs : List RxData) : Type 0 where
    few : length t.threads ≤ 1
    whole : completed_all t.threads t ≡ all_rx_f rxs s.receiver

  runs-IsAlone :
      {s t : State} {rxs : List RxData} (xs ys : List Phase) (p : Phase)
      → t.threads ≡ xs ++ (p ∷ ys)
      → IsAlone s t rxs
      → IsAlone s
          (record (advance bus parse p t).0 {
            threads = xs ++ (thread bus parse (advance bus parse p t).1 ++ ys);
          })
          rxs
  unfolding completed_all completed
  runs-IsAlone {s} {t} [] [] p e h =
      let next = (advance bus parse p t).1 in
      let tail : thread bus parse next ++ [] ≡ thread bus parse next =
        append-nil (thread bus parse next) in
      let same = ap (λ l. completed_all l t) (sym e) ∙ h.whole in
      record {
        few = subst (λ l. length l ≤ 1) (sym tail) (thread-length next);
        whole =
            completed_all-threads (thread bus parse next ++ []) (thread bus parse next ++ [])
              (advance bus parse p t).0
            ∙ ap (λ l. completed_all l (advance bus parse p t).0) tail
            ∙ advance-completed p t
            ∙ same;
      }
  runs-IsAlone [] (y ∷ ys) p e h = absurd (omega (arith, h.few, ap length e))
  runs-IsAlone (x ∷ xs) ys p e h =
      absurd (omega (arith, h.few, ap length e, length-append xs (p ∷ ys)))

  Run-IsAlone :
      {s t : State} {rxs : List RxData} (r : Run bus parse s rxs t)
      → Orderly r
      → s.threads ≡ []
      → IsAlone s t rxs
  unfolding completed_all completed all_rx_f
  Run-IsAlone {s} here o start = record {
    few = omega (arith, ap length start);
    whole = ap (λ l. completed_all l s) start;
  }
  Run-IsAlone {s} {rxs} (comes {rxs = old} {t} rx r (arrives _)) o start =
      let h = Run-IsAlone r o.0 start in
      record {
        few = omega (arith, ap length o.1);
        whole =
            ap (rx_f bus parse rx) (ap (λ l. completed_all l t) (sym o.1) ∙ h.whole)
            ∙ sym (all_rx_f-append old rx s.receiver);
      }
  Run-IsAlone (goes_on r (runs xs ys p e)) o start = runs-IsAlone xs ys p e (Run-IsAlone r o start)

  -- If no thread is there at the start and at the end, and each packet comes when no thread is there, then the daemon
  -- has done what `rx_f` does in one piece for each of the packets, in their order.
  pub Run-all_rx_f :
      {s t : State} {rxs : List RxData} (r : Run bus parse s rxs t)
      → Orderly r
      → s.threads ≡ []
      → t.threads ≡ []
      → t.receiver ≡ all_rx_f rxs s.receiver
  unfolding completed_all
  Run-all_rx_f {s} {t} r o start end_ =
      sym (ap (λ l. completed_all l t) end_) ∙ (Run-IsAlone r o start).whole
