-- ===== src/Mqtt/Sharing/Mixing.antt =====
-- Calls that overlap: messages under another one's topic, and a length that leads past the end of a string.
use Prim.Native.String.{String}
use mathlib.Core.List.{Perm, perm_middle}
use mathlib.Core.List.Perm
use embeded_linux_gateway.Prelude.{
  ℕ, ◌<◌, ◌≡◌, refl, sym, false, none, List, [], ◌∷◌, ◌++◌, length, leb, arith,
}
use mathlib.Core.Path.{subst}
use embeded_linux_gateway.Mqtt.Sharing.{
  filling, measuring, handing, Call, Shared, advance, calls_it, goes_on, Run, here, then_step,
  bytes_of,
}

-- The calls have filled `pubmsg`, and have not handed it over.
abbrev pub AllHanding : List Call → Type 0
AllHanding [] = Unit
AllHanding (c ∷ cs) = (c.place ≡ handing) × AllHanding cs

-- The last string, under the topic of each of the calls.
abbrev pub mixed : List ℕ → ℕ → List Call → List (String × List ℕ × ℕ)
mixed text n [] = []
mixed text n (c ∷ cs) = (c.topic, text, n) ∷ mixed text n cs

AllHanding-middle :
    (xs ys : List Call) (c : Call)
    → AllHanding (xs ++ (c ∷ ys))
    → (c.place ≡ handing) × AllHanding (xs ++ ys)
AllHanding-middle [] ys c h = h
AllHanding-middle (x ∷ xs) ys c h = let (p, q) = AllHanding-middle xs ys c h.1 in (p, (h.0, q))

mixed-middle :
    (text : List ℕ) (n : ℕ) (xs ys : List Call) (c : Call) (old : List (String × List ℕ × ℕ))
    → Perm
        (mixed text n (xs ++ ys) ++ ((c.topic, text, n) ∷ old))
        (mixed text n (xs ++ (c ∷ ys)) ++ old)
mixed-middle text n [] ys c old = perm_middle (mixed text n ys) old
mixed-middle text n (x ∷ xs) ys c old =
    Perm.cons (x.topic, text, n) (mixed-middle text n xs ys c old)

-- No further call begins.
abbrev pub NoCall : {s t : Shared} → Run s t → Type 0
NoCall here = Unit
NoCall (then_step r (calls_it topic msg)) = ⊥
NoCall (then_step r (goes_on xs ys c e)) = NoCall r

record IsMixed (s t : Shared) : Type 0 where
  payload : t.payload ≡ s.payload
  payloadlen : t.payloadlen ≡ s.payloadlen
  ready : AllHanding t.calls
  all :
      Perm
        (mixed s.payload s.payloadlen t.calls ++ t.handed)
        (mixed s.payload s.payloadlen s.calls ++ s.handed)

goes_on-IsMixed :
    {s t : Shared} (xs ys : List Call) (c : Call)
    → t.calls ≡ xs ++ (c ∷ ys)
    → IsMixed s t
    → IsMixed s (record (advance c t).0 { calls = xs ++ ((advance c t).1 ++ ys) })
unfolding advance
goes_on-IsMixed {s} {t} xs ys c e h =
    let (at, rest) = AllHanding-middle xs ys c (subst AllHanding e h.ready) in
    let before =
      subst
        (λ cs.
          Perm (mixed s.payload s.payloadlen cs ++ t.handed)
            (mixed s.payload s.payloadlen s.calls ++ s.handed))
        e h.all in
    rw at (record {
      payload = h.payload;
      payloadlen = h.payloadlen;
      ready = rest;
      all =
          rw (h.payload, h.payloadlen)
            (Perm.trans (mixed-middle s.payload s.payloadlen xs ys c t.handed) before);
    })

Run-IsMixed : {s t : Shared} (r : Run s t) → NoCall r → AllHanding s.calls → IsMixed s t
Run-IsMixed here n ready = record {
  payload = refl;
  payloadlen = refl;
  ready = ready;
  all = Perm.rfl;
}
Run-IsMixed (then_step r (calls_it topic msg)) n ready = absurd n
Run-IsMixed (then_step r (goes_on xs ys c e)) n ready =
    goes_on-IsMixed xs ys c e (Run-IsMixed r n ready)

-- If several calls have filled `pubmsg` and none of them has handed it over, and no further call begins, then at
-- their end the library has been given the payload and the length that stand in `pubmsg` under the topic of each of
-- the calls once, in some order, and nothing else.
pub Run-mixed :
    {s t : Shared} (r : Run s t)
    → NoCall r
    → AllHanding s.calls
    → t.calls ≡ []
    → Perm t.handed (mixed s.payload s.payloadlen s.calls ++ s.handed)
Run-mixed {s} {t} r n ready end_ =
    subst
      (λ cs.
        Perm (mixed s.payload s.payloadlen cs ++ t.handed)
          (mixed s.payload s.payloadlen s.calls ++ s.handed))
      end_ (Run-IsMixed r n ready).all

-- A call of `publish_mess` with a shorter string, which begins during a call with a longer one, can make the library
-- take bytes from behind the end of the shorter string.
pub Run-torn :
    (s : Shared) (topic topic' : String) (long short : List ℕ)
    → s.calls ≡ []
    → length short < length long
    → (t : Shared) × Run s t
      × (t.handed ≡ (topic, short, length long) ∷ s.handed)
      × (bytes_of (topic, short, length long) ≡ none)
unfolding advance bytes_of
Run-torn s topic topic' long short start shorter =
    let a : Call = record { topic = topic; msg = long; place = filling } in
    let b : Call = record { topic = topic'; msg = short; place = filling } in
    let u : Shared = record s { calls = [] } in
    let past : leb (length long) (length short) ≡ false = ground arith in
    let both = then_step (then_step {t = u} here (calls_it topic long)) (calls_it topic' short) in
    let long_in = then_step both (goes_on (b ∷ []) [] a refl) in
    let counted = then_step long_in (goes_on (b ∷ []) [] (record a { place = measuring }) refl) in
    let short_in = then_step counted (goes_on [] (record a { place = handing } ∷ []) b refl) in
    let given =
      then_step short_in
        (goes_on (record b { place = measuring } ∷ []) [] (record a { place = handing }) refl) in
    (
      record s {
        payload = short;
        payloadlen = length long;
        calls = record b { place = measuring } ∷ [];
        handed = (topic, short, length long) ∷ s.handed;
      },
      subst
          (λ cs.
            Run (record s { calls = cs })
              (record s {
                payload = short;
                payloadlen = length long;
                calls = record b { place = measuring } ∷ [];
                handed = (topic, short, length long) ∷ s.handed;
              }))
          (sym start) given,
      refl,
      rw past refl,
    )
