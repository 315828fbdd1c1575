-- ===== src/Uart/Reopening.antt =====
-- The serial line is opened anew over and over: no descriptor is lost.
use embeded_linux_gateway.Prelude.{
  ℕ, ◌≡◌, refl, ap, Bool, true, false, List, [], ◌∷◌, ℤ, none≢some, some-injective,
}
use mathlib.Core.Path.{subst}
use embeded_linux_gateway.Start.{looping, in_loop}
use embeded_linux_gateway.Uart.{
  Line, Event, alarm, data_avail, arrives, timer_handler, main_start, act, act_all,
}

-- All descriptors that were opened are closed again, but for the present one.
abbrev pub IsTidy : Line → Type 0
IsTidy s = s.opened ≡ s.fd ∷ s.closed

module _ (parse : List ℕ → ℤ) where
  act_all-keeps : (es : List Event) (s : Line) → IsTidy s → IsTidy (act_all parse es s)
  unfolding act_all act timer_handler
  act_all-keeps [] s h = h
  act_all-keeps (alarm fd ∷ es) s h = act_all-keeps es (timer_handler fd s) (ap (λ l. fd ∷ l) h)
  act_all-keeps (data_avail r ∷ es) s h = act_all-keeps es (act parse (data_avail r) s) h
  act_all-keeps (arrives topic_name ∷ es) s h =
      act_all-keeps es (act parse (arrives topic_name) s) h

  -- From the start of `main` on, whatever happens, the descriptors that were opened and are not closed are
  -- the present one alone, and each was closed once.
  pub act_all-IsTidy :
      (connected : Bool) (fd : ℤ) {s : Line} (es : List Event)
      → main_start connected fd ≡ looping s
      → IsTidy (act_all parse es s)
  unfolding main_start
  act_all-IsTidy true fd {s} es h =
      act_all-keeps es s (subst IsTidy (some-injective (ap in_loop h)) refl)
  act_all-IsTidy false fd es h = absurd (none≢some (ap in_loop h))
