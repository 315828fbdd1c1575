-- ===== src/Server/Rounds.antt =====
-- What one pass of the server's loop does: it stays inside the array below 20 entries, and forgets a client that is alive when another one leaves.
use embeded_linux_gateway.Prelude.{
  ℕ, zero, suc, ◌+◌, ◌≤◌, ◌<◌, ◌≡◌, refl, true, false, none, some, List, ◌∷◌, ℤ, is_neg, leb, ◌==◌,
  arith, if◌then◌else◌, drop, overlay, ==_iff, Bool-cases, Option-cases, lt→ltb, not, ◌&&◌, ◌⊎◌,
  inl, inr,
}
use embeded_linux_gateway.Data.{node_of}
use embeded_linux_gateway.Mqtt.{publish_mess}
use embeded_linux_gateway.Server.{
  Server, Answers, max_fds, poll, dispatch, turn, stop, go_on, update, add_client, drop_client,
  serve, round,
}

pub dispatch_keeps :
    (s : Server)
    → ((dispatch s).nfds ≡ s.nfds)
      × ((dispatch s).poll_fds ≡ s.poll_fds)
      × ((dispatch s).closed ≡ s.closed)
unfolding dispatch
dispatch_keeps s = ground arith

pub inside : {i : ℕ} → i < max_fds → leb max_fds i ≡ false
inside {i} h = ground arith

drop_client-le : (i : ℕ) (s : Server) → (drop_client i s).nfds ≤ s.nfds + 1
unfolding drop_client
drop_client-le i s = omega arith

pub add_client_ok :
    (fd : ℤ) (s : Server)
    → s.nfds < max_fds
    → (t : Server) × (add_client fd s ≡ some t) × (t.nfds ≡ s.nfds + 1)
unfolding add_client
add_client_ok fd s h = (
  record s {
    poll_fds = update s.poll_fds s.nfds (record (s.poll_fds s.nfds) { fd = fd });
    nfds = s.nfds + 1;
  },
  rw (lt→ltb s.nfds max_fds h) refl,
  refl,
)

-- What a round of the `for` leaves, inside the array.
turn_cases :
    (i : ℕ) (a : Answers) (s : Server)
    → s.nfds < max_fds
    → i < max_fds
    → ((t : Server) × (turn i a s ≡ stop (some t)) × (t.nfds ≤ s.nfds + 1))
      ⊎ ((t : Server) × (turn i a s ≡ go_on t) × (t.nfds ≡ s.nfds))
unfolding turn
turn_cases i a s h g = elim (Bool-cases ((s.poll_fds 0).pollin && not (is_neg (a.accepted i)))) [
  | inl new ↦
      let (t, e, small) = add_client_ok (a.accepted i) s h in inl (t, rw (new, e), omega arith)
  | inr old ↦ elim (Bool-cases (s.poll_fds i).pollin) [
    | inl busy ↦ elim (Option-cases (a.received i)) [
      | inl gone ↦ inl (drop_client i s, rw (turn, old, inside g, busy, gone), drop_client-le i s)
      | inr (bs, got) ↦ inr (
        dispatch (record s { bytes = overlay bs s.bytes }),
        rw (turn, old, inside g, busy, got),
        (dispatch_keeps (record s { bytes = overlay bs s.bytes })).0,
      )
    ]
    | inr idle ↦ inr (s, rw (turn, old, inside g, idle), refl)
  ]
]

-- From round `i` with `k` left the loop does not fault, if all indices are in the array.
serve_safe :
    (k i : ℕ) (a : Answers) (s : Server)
    → s.nfds < max_fds
    → i + k ≤ max_fds
    → (t : Server) × (serve k i a s ≡ some t) × (t.nfds ≤ s.nfds + 1)
unfolding serve
serve_safe zero i a s h g = (s, refl, omega arith)
serve_safe (suc k) i a s h g = elim (turn_cases i a s h (omega arith)) [
  | inl (t, e, small) ↦ (t, rw (serve, e), small)
  | inr (t, e, same) ↦
      let (u, f, small) = serve_safe k (i + 1) a t (omega arith) (omega arith) in
      (u, rw (serve, e) f, omega arith)
]

-- With fewer than 20 entries a pass does not fault, and adds at most one client.
pub round_safe :
    (a : Answers) (s : Server)
    → s.nfds < max_fds
    → (t : Server) × (round a s ≡ some t) × (t.nfds ≤ s.nfds + 1)
unfolding round poll
round_safe a s h = serve_safe s.nfds 1 a (poll a s) h (omega arith)

-- The entry `i` is the only one that asks to be served.
abbrev pub Only : ℕ → Server → Type 0
Only i s =
    ((s.poll_fds i).pollin ≡ true) × ((j : ℕ) → (j == i) ≡ false → (s.poll_fds j).pollin ≡ false)

turn_idle :
    (i j : ℕ) (a : Answers) (s : Server)
    → 0 < i
    → (j == i) ≡ false
    → j < max_fds
    → Only i s
    → turn j a s ≡ go_on s
unfolding turn
turn_idle i j a s p ne g only = rw (only.1 0 (ground arith), inside g, only.1 j ne)

serve_after :
    (k j i : ℕ) (a : Answers) (s : Server)
    → 0 < i
    → i < j
    → j + k ≤ max_fds
    → Only i s
    → serve k j a s ≡ some s
unfolding serve
serve_after zero j i a s p h g only = refl
serve_after (suc k) j i a s p h g only =
    rw (serve, turn_idle i j a s p (ground arith) (omega arith) only)
      (serve_after k (j + 1) i a s p (omega arith) (omega arith) only)

-- What the loop makes of the one client `i` that is ready.
abbrev pub served : ℕ → Answers → Server → Server
served i a s = elim (a.received i) [
  | none ↦ drop_client i s
  | some bs ↦ dispatch (record s { bytes = overlay bs s.bytes })
]

turn_gone :
    (i : ℕ) (a : Answers) (s : Server)
    → 0 < i
    → i < max_fds
    → Only i s
    → a.received i ≡ none
    → turn i a s ≡ stop (some (drop_client i s))
unfolding turn
turn_gone i a s p g only gone = rw (turn, only.1 0 (ground arith), inside g, only.0, gone)

turn_got :
    (i : ℕ) (bs : List ℕ) (a : Answers) (s : Server)
    → 0 < i
    → i < max_fds
    → Only i s
    → a.received i ≡ some bs
    → turn i a s ≡ go_on (dispatch (record s { bytes = overlay bs s.bytes }))
unfolding turn
turn_got i bs a s p g only got = rw (turn, only.1 0 (ground arith), inside g, only.0, got)

serve_one :
    (k j i : ℕ) (a : Answers) (s : Server)
    → 0 < i
    → j ≤ i
    → i < j + k
    → j + k ≤ max_fds
    → Only i s
    → serve k j a s ≡ some (served i a s)
unfolding serve
serve_one zero j i a s p h l g only = absurd (omega arith)
serve_one (suc k) j i a s p h l g only = elim (Bool-cases (j == i)) [
  | inl here ↦ elim (Option-cases (a.received i)) [
    | inl gone ↦
        let e : j ≡ i = (==_iff j i).0 here in
        rw (e, serve, turn_gone i a s p (omega arith) only gone, served, gone)
    | inr (bs, got) ↦
        let e : j ≡ i = (==_iff j i).0 here in
        rw (e, serve, turn_got i bs a s p (omega arith) only got, served, got)
          (serve_after k (j + 1) i a (dispatch (record s { bytes = overlay bs s.bytes })) p
            (omega arith) (omega arith)
            (rw (dispatch_keeps (record s { bytes = overlay bs s.bytes })).1 only))
  ]
  | inr later ↦
      rw (serve, turn_idle i j a s p later (omega arith) only)
        (serve_one k (j + 1) i a s p (ground arith) (omega arith) (omega arith) only)
]

-- If the client of entry `i` is the only one that asks to be served, inside the array, and its
-- connection has ended, then its descriptor is closed and one entry fewer is polled, but the entries do
-- not move up: the closed descriptor is still polled unless it stood last, and the last one is not.
pub round-gone :
    (i : ℕ) (a : Answers) (s : Server)
    → 0 < i
    → i < s.nfds
    → s.nfds < max_fds
    → Only i (poll a s)
    → a.received i ≡ none
    → (t : Server) × (round a s ≡ some t)
      × (t.closed ≡ (s.poll_fds i).fd ∷ s.closed)
      × (t.nfds + 1 ≡ s.nfds)
      × ((j : ℕ) → (t.poll_fds j).fd ≡ (s.poll_fds j).fd)
unfolding round poll drop_client
round-gone i a s p h g only gone = (
  drop_client i (poll a s),
  rw (serve_one s.nfds 1 i a (poll a s) p p (omega arith) (omega arith) only, served, gone),
  ground arith,
  omega arith,
  λ j. ground arith,
)

-- If the client of entry `i` is the only one that asks to be served, and sends bytes, then these go
-- over the start of the message buffer, and a message is published exactly if the buffer then holds
-- the node `kLora`: on `data_lora`, with the string at `uart.msg`.
pub round-got :
    (i : ℕ) (bs : List ℕ) (a : Answers) (s : Server)
    → 0 < i
    → i < s.nfds
    → s.nfds < max_fds
    → Only i (poll a s)
    → a.received i ≡ some bs
    → let d = overlay bs s.bytes in
      (t : Server) × (round a s ≡ some t)
      × (t.bytes ≡ d)
      × (t.nfds ≡ s.nfds)
      × (t.published ≡ (
          if node_of d == 1
          then publish_mess "data_lora" (drop 8 d) ∷ s.published
          else s.published))
unfolding round poll dispatch
round-got i bs a s p h g only got = (
  dispatch (record (poll a s) { bytes = overlay bs s.bytes }),
  rw (serve_one s.nfds 1 i a (poll a s) p p (omega arith) (omega arith) only, served, got),
  ground arith,
  ground arith,
  ground arith,
)
