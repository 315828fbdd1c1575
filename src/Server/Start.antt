-- ===== src/Server/Start.antt =====
-- `main` of mqtt_client.c up to the server's loop, and the loop's passes in sequence.
use embeded_linux_gateway.Prelude.{
  ℕ, Bool, not, Option, none, some, List, [], ◌∷◌, ℤ, if◌then◌else◌, replicate,
}
use embeded_linux_gateway.Start.{Start, exited, returned, looping, listening_socket}
use embeded_linux_gateway.Server.{PollFd, Server, Answers, update, round}

-- The server with its listening socket; `stack` is what the array holds before.
abbrev pub first_state : (ℕ → PollFd) → ℤ → Server
first_state stack sockfd = record {
  poll_fds = update stack 0 (record (stack 0) { fd = sockfd });
  nfds = 1;
  bytes = replicate 304 0;
  published = [];
  closed = [];
}

-- `connected` is whether `MQTTClient_connect` succeeds.
unfoldable pub main_start : Bool → ℤ → ℤ → ℤ → (ℕ → PollFd) → Start Server
main_start connected sockfd bound heard stack =
    if not connected then exited 1 else elim (listening_socket sockfd bound heard) [
      | exited n ↦ exited n
      | returned n ↦ returned n
      | looping fd ↦ looping (first_state stack fd)
    ]

-- Passes of `while (1)`.
unfoldable pub run : List Answers → Server → Option Server
run [] s = some s
run (a ∷ later) s = elim (round a s) [ none ↦ none | some t ↦ run later t ]
