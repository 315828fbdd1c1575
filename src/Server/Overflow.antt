-- ===== src/Server/Overflow.antt =====
-- Clients that come one after the other, and none leaves: the array of the server is full.
use embeded_linux_gateway.Prelude.{
  ℕ, suc, ◌+◌, ◌≤◌, ◌<◌, ◌≡◌, refl, ◌∙◌, ap, Bool, true, false, Option, none, List, [], ◌∷◌, ◌++◌,
  length, ℤ, is_neg, ltb, lt→ltb, arith, Bool-cases, inl, inr,
}
use embeded_linux_gateway.Start.{looping, in_loop}
use embeded_linux_gateway.Server.{
  PollFd, Server, Answers, max_fds, poll, add_client, turn, stop, go_on, serve, round,
}
use embeded_linux_gateway.Server.Rounds.{add_client_ok}
use embeded_linux_gateway.Server.Start.{main_start, run}
use embeded_linux_gateway.Server.Runs.{main_start-nfds}

-- In each pass a client waits at the listening socket, and is accepted in the first round of the `for`.
abbrev pub AllJoin : List Answers → Type 0
AllJoin [] = Unit
AllJoin (a ∷ later) = (a.ready 0 ≡ true) × (is_neg (a.accepted 1) ≡ false) × AllJoin later

poll-nfds : (a : Answers) (s : Server) → (poll a s).nfds ≡ s.nfds
unfolding poll
poll-nfds a s = refl

first_asks :
    (a : Answers) (s : Server)
    → 0 < s.nfds
    → a.ready 0 ≡ true
    → ((poll a s).poll_fds 0).pollin ≡ true
unfolding poll
first_asks a s some_ ready = rw (lt→ltb 0 s.nfds some_) ready

turn_joins :
    (i : ℕ) (a : Answers) (s : Server)
    → (s.poll_fds 0).pollin ≡ true
    → is_neg (a.accepted i) ≡ false
    → turn i a s ≡ stop (add_client (a.accepted i) s)
unfolding turn
turn_joins i a s asks ok = rw (asks, ok) refl

serve_joins :
    (k i : ℕ) (a : Answers) (s : Server) (r : Option Server)
    → turn i a s ≡ stop r
    → serve (suc k) i a s ≡ r
unfolding serve
serve_joins k i a s r h = ap (λ t. elim t [ stop x ↦ x | go_on s' ↦ serve k (i + 1) a s' ]) h

-- Such a pass, with the listening socket and `n` clients before it.
round_joins :
    (n : ℕ) (a : Answers) (s : Server)
    → s.nfds ≡ suc n
    → a.ready 0 ≡ true
    → is_neg (a.accepted 1) ≡ false
    → round a s ≡ add_client (a.accepted 1) (poll a s)
unfolding round
round_joins n a s size ready ok =
    ap (λ k. serve k 1 a (poll a s)) (poll-nfds a s ∙ size)
    ∙ serve_joins n 1 a (poll a s) (add_client (a.accepted 1) (poll a s))
        (turn_joins 1 a (poll a s) (first_asks a s (omega (arith, size)) ready) ok)

add_client_full : (fd : ℤ) (s : Server) → s.nfds ≡ max_fds → add_client fd s ≡ none
unfolding add_client
add_client_full fd s h = rw h refl

run_joins :
    (passes later : List Answers) (n : ℕ) (s : Server)
    → s.nfds ≡ suc n
    → n < max_fds
    → max_fds ≤ length passes + n
    → AllJoin passes
    → run (passes ++ later) s ≡ none
unfolding run poll
run_joins [] later n s size few many join_ = absurd (omega arith)
run_joins (a ∷ passes) later n s size few many (ready, ok, more) =
    let joins = round_joins n a s size ready ok in
    elim (Bool-cases (ltb (suc n) max_fds)) [
      | inl room ↦
          let (t, e, grown) = add_client_ok (a.accepted 1) (poll a s) (ground (arith, size)) in
          rw (run, joins, e)
            (run_joins passes later (suc n) t (omega (arith, grown, size)) (ground arith)
              (omega arith) more)
      | inr full ↦
          rw (run, joins, add_client_full (a.accepted 1) (poll a s) (ground (arith, size))) refl
    ]

-- If `main` comes to its loop, and in each of the next 20 passes a client waits and is accepted in the first round,
-- then the server accesses its array out of bounds, whatever comes after.
pub run_overflow :
    (connected : Bool) (sockfd bound heard : ℤ) (stack : ℕ → PollFd) {s : Server}
    (passes later : List Answers)
    → main_start connected sockfd bound heard stack ≡ looping s
    → AllJoin passes
    → length passes ≡ 20
    → run (passes ++ later) s ≡ none
run_overflow connected sockfd bound heard stack {s} passes later start join_ many =
    run_joins passes later 0 s
      (main_start-nfds connected sockfd bound heard stack s (ap in_loop start)) (omega arith)
      (omega arith) join_
