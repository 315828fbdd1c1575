-- ===== src/Server/Runs.antt =====
-- The server's passes in sequence: the list of its clients as the entries keep it, and a bound on the
-- clients that come within which no pass faults.
use embeded_linux_gateway.Prelude.{
  ℕ, zero, suc, ◌+◌, ◌-◌, ◌≤◌, ◌<◌, ◌≡◌, ◌⊎◌, refl, sym, ◌∙◌, ap, Bool, true, false, some,
  none≢some, some-injective, List, [], ◌∷◌, ◌++◌, ℤ, is_neg, arith, if◌then◌else◌, Bool-cases, inl,
  inr,
}
use embeded_linux_gateway.Start.{looping, in_loop, is_minus_one, is_zero, listening_socket}
use embeded_linux_gateway.Server.{PollFd, Server, Answers, max_fds, poll, serve, round}
use embeded_linux_gateway.Server.Moves.{Move, joins, leaves, stays, round_moves}
use embeded_linux_gateway.Server.Start.{first_state, main_start, run}

-- The descriptors of the `k` entries from `i`.
abbrev fds : ℕ → ℕ → (ℕ → PollFd) → List ℤ
fds zero i g = []
fds (suc k) i g = (g i).fd ∷ fds k (i + 1) g

-- The clients the server polls, in the order of their entries.
unfoldable pub clients : Server → List ℤ
clients s = fds (s.nfds - 1) 1 s.poll_fds

-- The list without its last entry.
abbrev pub but_last : List ℤ → List ℤ
but_last [] = []
but_last (x ∷ []) = []
but_last (x ∷ y ∷ l) = x ∷ but_last (y ∷ l)

fds-Same :
    (k i : ℕ) (f g : ℕ → PollFd)
    → ((j : ℕ) → j < i + k → (f j).fd ≡ (g j).fd)
    → fds k i f ≡ fds k i g
fds-Same zero i f g same = refl
fds-Same (suc k) i f g same =
    let e : (f i).fd ≡ (g i).fd = same i (omega arith) in
    let later : fds k (i + 1) f ≡ fds k (i + 1) g =
      fds-Same k (i + 1) f g (λ j h. same j (omega arith)) in
    cc

add_zero : (i : ℕ) → i + 0 ≡ i
add_zero i = omega arith

fds-last : (k i : ℕ) (g : ℕ → PollFd) → fds (suc k) i g ≡ fds k i g ++ ((g (i + k)).fd ∷ [])
fds-last zero i g = rw (add_zero i) refl
fds-last (suc k) i g =
    let e : i + suc k ≡ i + 1 + k = omega arith in
    ap (λ l. (g i).fd ∷ l)
      (fds-last k (i + 1) g ∙ ap (λ n. fds k (i + 1) g ++ ((g n).fd ∷ [])) (sym e))

fds-but_last : (k i : ℕ) (g : ℕ → PollFd) → but_last (fds k i g) ≡ fds (k - 1) i g
fds-but_last zero i g = refl
fds-but_last (suc zero) i g = refl
fds-but_last (suc (suc k)) i g =
    let first : suc k - 1 ≡ k = omega arith in
    let whole : suc k ≡ suc (suc k) - 1 = omega arith in
    ap (λ l. (g i).fd ∷ l) (fds-but_last (suc k) (i + 1) g)
    ∙ ap (λ n. (g i).fd ∷ fds n (i + 1) g) first
    ∙ ap (λ n. fds n i g) whole

-- What a pass does to the list of clients.
pub data Change (a : Answers) (old new : List ℤ) : Type 0 where
  comes :
      (i : ℕ)
      → a.ready 0 ≡ true
      → is_neg (a.accepted i) ≡ false
      → new ≡ old ++ (a.accepted i ∷ [])
      → Change a old new
  goes : new ≡ but_last old → Change a old new
  rests : new ≡ old → Change a old new

change : {a : Answers} {s t : Server} → 0 < s.nfds → Move a s t → Change a (clients s) (clients t)
unfolding clients
change {a} {s} {t} p (joins i ready ok more same last) =
    let k = s.nfds - 1 in
    let count : t.nfds - 1 ≡ suc k = omega arith in
    let at_end : 1 + k ≡ s.nfds = omega arith in
    let kept : fds k 1 t.poll_fds ≡ fds k 1 s.poll_fds =
      fds-Same k 1 t.poll_fds s.poll_fds (λ j h. same j (omega arith)) in
    let new : (t.poll_fds (1 + k)).fd ≡ a.accepted i = ap (λ n. (t.poll_fds n).fd) at_end ∙ last in
    comes i ready ok
      (ap (λ n. fds n 1 t.poll_fds) count ∙ fds-last k 1 t.poll_fds ∙ rw (kept, new) refl)
change {a} {s} {t} p (leaves less same) =
    let k = s.nfds - 1 in
    let count : t.nfds - 1 ≡ k - 1 = omega arith in
    let kept : fds (k - 1) 1 t.poll_fds ≡ fds (k - 1) 1 s.poll_fds =
      fds-Same (k - 1) 1 t.poll_fds s.poll_fds (λ j h. same j (omega arith)) in
    goes (ap (λ n. fds n 1 t.poll_fds) count ∙ kept ∙ sym (fds-but_last k 1 s.poll_fds))
change {a} {s} {t} p (stays equal same) = rests (
    ap (λ n. fds (n - 1) 1 t.poll_fds) equal
    ∙ fds-Same (s.nfds - 1) 1 t.poll_fds s.poll_fds (λ j h. same j (omega arith)))

-- With an entry for the listening socket and fewer than 20 entries, a pass does not fault, and of the
-- list of clients it makes the same list, the list with one accepted descriptor at its end, if a client
-- waits, or the list without its last entry.
pub round-clients :
    (a : Answers) (s : Server)
    → 0 < s.nfds
    → s.nfds < max_fds
    → (t : Server) × (round a s ≡ some t) × Change a (clients s) (clients t)
round-clients a s p h = let (t, e, move) = round_moves a s p h in (t, e, change p move)

-- The passes in which a client waits at the listening socket.
unfoldable pub arrivals : List Answers → ℕ
arrivals [] = 0
arrivals (a ∷ later) = let n = arrivals later in if a.ready 0 then suc n else n

zero_or : (n : ℕ) → (n ≡ 0) ⊎ (0 < n)
zero_or zero = inl refl
zero_or (suc n) = inr (omega arith)

-- A pass adds an entry only if a client waits.
round_grows :
    (a : Answers) (s : Server)
    → s.nfds < max_fds
    → (t : Server) × (round a s ≡ some t) × (t.nfds ≤ s.nfds + (if a.ready 0 then 1 else 0))
unfolding round poll
round_grows a s h = elim (zero_or s.nfds) [
  | inl none_left ↦ (poll a s, rw (none_left, serve), omega arith)
  | inr some_left ↦ let (t, e, move) = round_moves a s (omega arith) h in (t, e, grown move)
]
  where
    grown : {t : Server} → Move a s t → t.nfds ≤ s.nfds + (if a.ready 0 then 1 else 0)
    grown (joins i ready ok more same last) = rw ready (omega arith)
    grown (leaves less same) = omega arith
    grown (stays equal same) = omega arith

run_bounded :
    (passes : List Answers) (s : Server)
    → s.nfds + arrivals passes < max_fds
    → (t : Server) × (run passes s ≡ some t) × (t.nfds ≤ s.nfds + arrivals passes)
unfolding run arrivals
run_bounded [] s h = (s, refl, omega arith)
run_bounded (a ∷ later) s h =
    let (t, e, small) = round_grows a s (omega arith) in
    let bound : t.nfds + arrivals later ≤ s.nfds + arrivals (a ∷ later) = counted small in
    let (u, f, bounded) = run_bounded later t (omega arith) in (u, rw (run, e) f, omega arith)
  where
    counted :
        {n : ℕ}
        → n ≤ s.nfds + (if a.ready 0 then 1 else 0)
        → n + arrivals later ≤ s.nfds + arrivals (a ∷ later)
    counted h = ground arith

pub main_start-nfds :
    (connected : Bool) (sockfd bound heard : ℤ) (stack : ℕ → PollFd) (s : Server)
    → in_loop (main_start connected sockfd bound heard stack) ≡ some s
    → s.nfds ≡ 1
unfolding main_start listening_socket
main_start-nfds connected sockfd bound heard stack s h = elim (Bool-cases connected) [
  | inl up ↦ elim (Bool-cases (is_minus_one sockfd)) [
    | inl bad ↦ absurd (none≢some (sym (rw (up, bad)) ∙ h))
    | inr open_ ↦ elim (Bool-cases (is_zero bound)) [
      | inl b ↦ elim (Bool-cases (is_zero heard)) [
        | inl l ↦
            let same : first_state stack sockfd ≡ s =
              some-injective (sym (rw (up, open_, b, l)) ∙ h) in
            ap (λ (r : Server). r.nfds) (sym same)
        | inr l ↦ absurd (none≢some (sym (rw (up, open_, b, l)) ∙ h))
      ]
      | inr b ↦ absurd (none≢some (sym (rw (up, open_, b)) ∙ h))
    ]
  ]
  | inr down ↦ absurd (none≢some (sym (rw down) ∙ h))
]

-- If `main` comes to its loop, and in the passes that follow a client waits at most 18 times, then no
-- pass faults, and the array has at most one entry more than a client has waited.
pub run_safe :
    (connected : Bool) (sockfd bound heard : ℤ) (stack : ℕ → PollFd) {s : Server}
    (passes : List Answers)
    → main_start connected sockfd bound heard stack ≡ looping s
    → arrivals passes ≤ 18
    → (t : Server) × (run passes s ≡ some t) × (t.nfds ≤ arrivals passes + 1)
run_safe connected sockfd bound heard stack {s} passes start few =
    let one = main_start-nfds connected sockfd bound heard stack s (ap in_loop start) in
    let (t, e, small) = run_bounded passes s (omega arith) in (t, e, omega arith)
