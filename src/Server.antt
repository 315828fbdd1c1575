-- ===== src/Server.antt =====
-- src/mqtt_client/mqtt_client.c: the TCP server that takes messages from the clients and publishes
-- them, `run_socket_tcp`, and the callback `msgarrvd`.
pub mod Rounds
pub mod Overflow
pub mod Moves
pub mod Start
pub mod Runs
mod Tests
use Prim.Native.String
use Prim.Native.String.{String}
use Prim.Native.Char.{code}
use embeded_linux_gateway.Prelude.{
  ℕ, zero, suc, ◌+◌, ◌-◌, Bool, true, false, not, Option, none, some, List, [], ◌∷◌, ◌++◌, ℤ, pos,
  negsuc, is_neg, ltb, leb, ◌==◌, ◌&&◌, if◌then◌else◌, drop, overlay,
}
use embeded_linux_gateway.Data.{node_of}
use embeded_linux_gateway.Mqtt.{Message, publish_mess}

-- One `struct pollfd`: its descriptor, and whether `revents` has POLLIN.
pub record PollFd : Type 0 where
  pub fd : ℤ
  pub pollin : Bool

-- The variables of `run_socket_tcp`, the global `data`, and what has been done: the messages
-- published and the descriptors closed, the latest first.
pub record Server : Type 0 where
  pub poll_fds : ℕ → PollFd
  pub nfds : ℕ
  pub bytes : List ℕ
  pub published : List Message
  pub closed : List ℤ

-- `struct pollfd poll_fds[20]`.
abbrev pub max_fds : ℕ
max_fds = 20

-- What the system answers in one pass of the loop: the ready descriptors, and the results of `accept`
-- and `recv` in the round `i` of the `for`. `none` is a result of `recv` that is 0 or negative, else
-- the bytes are at most `sizeof(data)`.
pub record Answers : Type 0 where
  pub ready : ℕ → Bool
  pub accepted : ℕ → ℤ
  pub received : ℕ → Option (List ℕ)

abbrev pub update : (ℕ → PollFd) → ℕ → PollFd → ℕ → PollFd
update f i e j = if j == i then e else f j

-- `poll(poll_fds, nfds, -1)` sets `revents` of the first `nfds` entries.
unfoldable pub poll : Answers → Server → Server
poll a s = record s {
  poll_fds =
      λ j. if ltb j s.nfds then record (s.poll_fds j) { pollin = a.ready j } else s.poll_fds j;
}

-- The `switch (data.node)`: only a LoRa message is published, from the memory at `uart.msg`.
unfoldable pub dispatch : Server → Server
dispatch s =
    if node_of s.bytes == 1
    then record s { published = publish_mess "data_lora" (drop 8 s.bytes) ∷ s.published }
    else s

-- A new client takes the entry `nfds`; past the end of the array the write is a fault, `none`.
unfoldable pub add_client : ℤ → Server → Option Server
add_client fd s =
    if ltb s.nfds max_fds
    then some (record s {
      poll_fds = update s.poll_fds s.nfds (record (s.poll_fds s.nfds) { fd = fd });
      nfds = s.nfds + 1;
    })
    else none

-- A client that is gone: its descriptor is closed, and one entry fewer is polled.
unfoldable pub drop_client : ℕ → Server → Server
drop_client i s = record s { closed = (s.poll_fds i).fd ∷ s.closed; nfds = s.nfds - 1 }

-- How a round of the `for` loop ends: by `break`, with `none` for an access past the end of the array,
-- or by going on.
pub data Turn : Type 0 where
  stop : Option Server → Turn
  go_on : Server → Turn

-- The round `i`: a client that waits is accepted first, then the entry `i` is served.
unfoldable pub turn : ℕ → Answers → Server → Turn
unfolding add_client drop_client
turn i a s =
    if (s.poll_fds 0).pollin && not (is_neg (a.accepted i))
    then stop (add_client (a.accepted i) s)
    else if leb max_fds i
    then stop none
    else if (s.poll_fds i).pollin
    then elim (a.received i) [
      | none ↦ stop (some (drop_client i s))
      | some bs ↦ go_on (dispatch (record s { bytes = overlay bs s.bytes }))
    ]
    else go_on s

-- The `for` loop with `k` rounds left, from `i`. `nfds` changes only where the loop ends by `break`.
unfoldable pub serve : ℕ → ℕ → Answers → Server → Option Server
serve zero i a s = some s
serve (suc k) i a s = elim (turn i a s) [ stop r ↦ r | go_on s' ↦ serve k (i + 1) a s' ]

-- One pass of `while (1)`.
unfoldable pub round : Answers → Server → Option Server
unfolding serve turn poll
round a s = let s' = poll a s in serve s'.nfds 1 a s'

-- The bytes of a text.
abbrev pub codes : String → List ℕ
codes String.[] = []
codes (String.◌∷◌ c s) = code c ∷ codes s

-- `!strncmp(s, p, n)` for strings without a 0, with `n` the length of `p`.
unfoldable pub starts_with : List ℕ → List ℕ → Bool
starts_with [] s = true
starts_with (c ∷ p) [] = false
starts_with (c ∷ p) (d ∷ s) = let rest = starts_with p s in if c == d then rest else false

-- `msgarrvd` publishes the answer to a `sdt_wifi` topic, and always returns 1.
unfoldable pub msgarrvd : List ℕ → Server → ℕ × Server
msgarrvd topic_name s = (
  1,
  if starts_with (codes "sdt_wifi") topic_name
      then record s {
        published = publish_mess "sdt_server" (codes "{\"type\":\"wifi\"}") ∷ s.published;
      }
      else s,
)
