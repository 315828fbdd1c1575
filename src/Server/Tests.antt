-- ===== src/Server/Tests.antt =====
-- The server's theorems at concrete inputs: three clients, of which one is ready.
use embeded_linux_gateway.Prelude.{
  ℕ, zero, suc, ◌++◌, true, ◌+◌, ◌≡◌, ◌≤◌, refl, false, Option, none, some, List, [], ◌∷◌, pos,
  negsuc, ltb, ◌==◌, arith, if◌then◌else◌, replicate,
}
use embeded_linux_gateway.Server.{Server, Answers, poll, round}
use embeded_linux_gateway.Start.{listening_socket}
use embeded_linux_gateway.Server.Start.{first_state, main_start, run}
use embeded_linux_gateway.Server.Runs.{clients, Change, round-clients, arrivals, run_safe}
use embeded_linux_gateway.Server.Rounds.{Only, round-gone}
use embeded_linux_gateway.Server.Overflow.{AllJoin, run_overflow}

-- The listening socket is 3, the clients have the descriptors 4, 5 and so on.
abbrev serving : ℕ → Server
serving n = record {
  poll_fds = λ j.
      if ltb j n
      then record { fd = pos (3 + j); pollin = false }
      else record { fd = pos 0; pollin = false };
  nfds = n;
  bytes = replicate 304 0;
  published = [];
  closed = [];
}

-- The entry `i` is ready, no client waits to be accepted, and `recv` returns `r`.
abbrev answers : ℕ → Option (List ℕ) → Answers
answers i r = record { ready = λ j. j == i; accepted = λ _. negsuc 0; received = λ _. r }

-- The start of a message of the node `kLora`.
abbrev greeting : List ℕ
greeting = 1 ∷ 0 ∷ 0 ∷ 0 ∷ 0 ∷ 0 ∷ 0 ∷ 0 ∷ 104 ∷ 105 ∷ 0 ∷ []

Only-answers : (r : Option (List ℕ)) → Only 1 (poll (answers 1 r) (serving 4))
unfolding poll
Only-answers r = (refl, λ j h. ground arith)

round-gone_example :
    (t : Server) × (round (answers 1 none) (serving 4) ≡ some t)
    × (t.closed ≡ ((serving 4).poll_fds 1).fd ∷ (serving 4).closed)
    × (t.nfds + 1 ≡ (serving 4).nfds)
    × ((j : ℕ) → (t.poll_fds j).fd ≡ ((serving 4).poll_fds j).fd)
round-gone_example =
    round-gone 1 (answers 1 none) (serving 4) (omega arith) (omega arith) (omega arith)
      (Only-answers none) refl

-- A client waits, and gets the descriptor 30.
abbrev knocks : Answers
knocks = record { ready = λ j. j == 0; accepted = λ _. pos 30; received = λ _. none }

round-clients_example :
    (t : Server) × (round knocks (serving 4) ≡ some t)
    × Change knocks (clients (serving 4)) (clients t)
round-clients_example = round-clients knocks (serving 4) (omega arith) (omega arith)

-- Two clients come, and one of them leaves.
run_safe_example :
    let passes = knocks ∷ knocks ∷ answers 2 none ∷ [] in
    (t : Server) × (run passes (first_state (serving 0).poll_fds (pos 3)) ≡ some t)
    × (t.nfds ≤ arrivals passes + 1)
unfolding main_start arrivals listening_socket
run_safe_example =
    run_safe true (pos 3) (pos 0) (pos 0) (serving 0).poll_fds
      {s = first_state (serving 0).poll_fds (pos 3)} (knocks ∷ knocks ∷ answers 2 none ∷ []) refl
      (omega arith)

all_knock : (n : ℕ) → AllJoin (replicate n knocks)
all_knock zero = tt
all_knock (suc n) = (refl, refl, all_knock n)

run_overflow_example :
    run (replicate 20 knocks ++ []) (first_state (serving 0).poll_fds (pos 3)) ≡ none
unfolding main_start listening_socket
run_overflow_example =
    run_overflow true (pos 3) (pos 0) (pos 0) (serving 0).poll_fds
      {s = first_state (serving 0).poll_fds (pos 3)} (replicate 20 knocks) [] refl (all_knock 20)
      refl
