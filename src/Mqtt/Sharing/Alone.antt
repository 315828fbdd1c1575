-- ===== src/Mqtt/Sharing/Alone.antt =====
-- Calls that do not overlap: each hands over its own string under its own topic.
use Prim.Native.String.{String}
use mathlib.Core.Path.{subst}
use embeded_linux_gateway.Prelude.{
  ℕ, ◌≤◌, ◌≡◌, refl, sym, ◌∙◌, ap, List, [], ◌∷◌, ◌++◌, length, length-append, append-nil, arith,
}
use embeded_linux_gateway.Mqtt.Sharing.{
  Place, filling, measuring, handing, Call, Shared, advance, calls_it, goes_on, Run, here,
  then_step,
}

-- A call begins only when no other is there.
abbrev pub Orderly : {s t : Shared} → Run s t → Type 0
Orderly here = Unit
Orderly (then_step {t} r (calls_it topic msg)) = Orderly r × (t.calls ≡ [])
Orderly (then_step r (goes_on xs ys c e)) = Orderly r

-- What the calls are for, the latest first.
abbrev pub asked_for : {s t : Shared} → Run s t → List (String × List ℕ × ℕ)
asked_for here = []
asked_for (then_step r (calls_it topic msg)) = (topic, msg, length msg) ∷ asked_for r
asked_for (then_step r (goes_on xs ys c e)) = asked_for r

-- What a call will have handed over at its end, if it is alone.
completed : Place → Call → Shared → List (String × List ℕ × ℕ)
completed filling c s = (c.topic, c.msg, length c.msg) ∷ s.handed
completed measuring c s = (c.topic, s.payload, length c.msg) ∷ s.handed
completed handing c s = (c.topic, s.payload, s.payloadlen) ∷ s.handed

completed_all : List Call → Shared → List (String × List ℕ × ℕ)
unfolding completed
completed_all [] s = s.handed
completed_all (c ∷ cs) s = completed c.place c s

-- The list of the calls plays no part in what one of them does.
completed_all-calls :
    (l m : List Call) (s : Shared) → completed_all l (record s { calls = m }) ≡ completed_all l s
unfolding completed_all completed
completed_all-calls [] m s = refl
completed_all-calls (c ∷ l) m s = go c.place
  where
    go : (p : Place) → completed p c (record s { calls = m }) ≡ completed p c s
    go filling = refl
    go measuring = refl
    go handing = refl

advance-completed :
    (p : Place) (topic : String) (msg : List ℕ) (s : Shared)
    → let c : Call = record { topic = topic; msg = msg; place = p } in
      (completed_all (advance c s).1 (advance c s).0 ≡ completed p c s)
      × (length (advance c s).1 ≤ 1)
unfolding completed_all completed advance
advance-completed filling topic msg s = (refl, omega arith)
advance-completed measuring topic msg s = (refl, omega arith)
advance-completed handing topic msg s = (refl, omega arith)

record IsAlone {s t : Shared} (r : Run s t) : Type 0 where
  few : length t.calls ≤ 1
  whole : completed_all t.calls t ≡ asked_for r ++ s.handed

Run-IsAlone : {s t : Shared} (r : Run s t) → Orderly r → s.calls ≡ [] → IsAlone r
unfolding completed_all completed
Run-IsAlone {s} here o start = record {
  few = omega (arith, ap length start);
  whole = ap (λ l. completed_all l s) start;
}
Run-IsAlone {s} (then_step {t} r (calls_it topic msg)) o start =
    let h = Run-IsAlone r o.0 start in
    record {
      few = omega (arith, ap length o.1);
      whole =
          ap (λ l. (topic, msg, length msg) ∷ l) (ap (λ l. completed_all l t) (sym o.1) ∙ h.whole);
    }
Run-IsAlone {s} (then_step {t} r (goes_on [] [] c e)) o start =
    let h = Run-IsAlone r o start in
    let after = (advance c t).1 in
    let (same, few) = advance-completed c.place c.topic c.msg t in
    record {
      few = subst (λ l. length l ≤ 1) (sym (append-nil after)) few;
      whole =
          completed_all-calls (after ++ []) (after ++ []) (advance c t).0
          ∙ ap (λ l. completed_all l (advance c t).0) (append-nil after)
          ∙ same
          ∙ ap (λ l. completed_all l t) (sym e)
          ∙ h.whole;
    }
Run-IsAlone (then_step r (goes_on [] (y ∷ ys) c e)) o start =
    absurd (omega (arith, (Run-IsAlone r o start).few, ap length e))
Run-IsAlone (then_step r (goes_on (x ∷ xs) ys c e)) o start =
    absurd (omega (arith, (Run-IsAlone r o start).few, ap length e, length-append xs (c ∷ ys)))

-- If no call is there at the start and at the end, and each call begins when no other is there, then the library has
-- been given exactly the string of each call, with its length and under its topic, in their order.
pub Run-asked_for :
    {s t : Shared} (r : Run s t)
    → Orderly r
    → s.calls ≡ []
    → t.calls ≡ []
    → t.handed ≡ asked_for r ++ s.handed
unfolding completed_all
Run-asked_for {s} {t} r o start end_ =
    sym (ap (λ l. completed_all l t) end_) ∙ (Run-IsAlone r o start).whole
