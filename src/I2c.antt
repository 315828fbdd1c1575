-- ===== src/I2c.antt =====
-- src/service_user_space/clientI2C/clientI2C.c: the daemon that looks for a node on the I2C bus and asks it
-- for data.
pub mod Scan
pub mod Recovery
mod Tests
use embeded_linux_gateway.Prelude.{
  ℕ, zero, suc, ◌+◌, ◌%◌, Bool, true, false, ◌&&◌, ◌||◌, not, Option, none, some, List, [], ◌∷◌, ℤ,
  pos, negsuc, is_neg, ltb, leb, ◌==◌, if◌then◌else◌, ◌≡◌, ◌⊎◌,
}

-- The two requests of `main`.
pub data Request : Type 0 where
  key_request data_request : Request

-- The globals, `main`'s `count`, and what has been written to the node, the latest first. `tries` is
-- `var`, `reading` is `a`, and `timed` is whether the timer runs.
pub record Master : Type 0 where
  pub tries : ℕ
  pub address : ℤ
  pub reading : Bool
  pub fd : ℤ
  pub timed : Bool
  pub count : ℕ
  pub wrote : List Request

-- An address is probed with a read in two ranges, and with a quick write elsewhere.
abbrev pub by_read : ℕ → Bool
by_read i = (leb 0x30 i && leb i 0x37) || (leb 0x50 i && leb i 0x5f)

-- `address < 128 && address > 0`.
abbrev pub is_node : ℤ → Bool
is_node (pos a) = ltb a 128 && ltb 0 a
is_node (negsuc a) = false

-- `read_byte` and `write_quick` are the results of the two calls of the SMBus library at an address.
module _ (read_byte write_quick : ℕ → ℤ) where
  pub res : ℕ → ℤ
  res i = if by_read i then read_byte i else write_quick i

  -- `n` rounds of the `for` from `i`, with `var` at most 5; the flag is whether an address was found.
  pub probe : ℕ → ℕ → Bool → Master → Bool × Master
  probe zero i flag s = (flag, s)
  probe (suc n) i flag s =
      if is_neg (res i)
      then probe n (i + 1) flag s
      else probe n (i + 1) true (record s { address = pos i })

  -- After more than 5 tries the scan is left out once.
  pub scan_address : Master → ℤ × Master
  scan_address s =
      let (flag, t) = probe 128 0 false s in
      if ltb 5 s.tries
      then (pos 200, record s { tries = 0 })
      else if flag
      then (t.address, t)
      else (pos 200, t)

  pub timer_handler : Master → Master
  timer_handler s =
      let (found, t) = scan_address (record s { tries = s.tries + 1 }) in
      record t { address = found; timed = if is_node found then false else t.timed }

-- Which request goes out at a timeout of `poll`, with `count` before it.
unfoldable pub request : ℕ → Request × ℕ
request count =
    let count' = (count + 1) % 10 in ((if count' == 0 then key_request else data_request), count')

-- The first `n` requests.
unfoldable pub requests : ℕ → ℕ → List Request
requests zero count = []
requests (suc n) count = let (r, count') = request count in r ∷ requests n count'

-- `address > 128 || address < 0`.
abbrev pub is_lost : ℤ → Bool
is_lost (pos a) = ltb 128 a
is_lost (negsuc a) = true

-- `sendRequestToNode`, with the result of `ioctl` and that of `open`, if it is called.
pub send_request_to_node : Request → ℤ → ℤ → Master → Master
send_request_to_node r ac1 opened s =
    if is_neg ac1
    then record s { fd = opened; reading = false }
    else record s { wrote = r ∷ s.wrote }

-- What `main` does at a timeout of `poll`.
pub poll_timeout : ℤ → ℤ → Master → Master
poll_timeout ac1 opened s =
    let (r, count') = request s.count in
    send_request_to_node r ac1 opened (record s { count = count' })

-- The reading thread outside of `while (a)`: the timer is started or stopped, then the node is read, which
-- succeeds or not.
pub first_read : Bool → Master → Master
first_read ok s =
    let s1 = record s { timed = is_lost s.address } in
    if ok
    then record s1 { reading = true }
    else record s1 { reading = false; address = negsuc 0; timed = true }

-- A round of `while (a)`.
pub next_read : Bool → Master → Master
next_read ok s = if ok then s else record s { reading = false }

-- Where the program stands: `main` waits for the first scan, it has given up as no thread was created, or
-- it polls, with the thread outside or inside of `while (a)`.
pub data Pc : Type 0 where
  waiting ended outside inside : Pc

pub record Daemon : Type 0 where
  pub master : Master
  pub pc : Pc

-- `main` up to its wait.
abbrev pub daemon_start : ℤ → Daemon
daemon_start opened = record {
  master = record {
    tries = 0;
    address = negsuc 0;
    reading = false;
    fd = opened;
    timed = true;
    count = 9;
    wrote = [];
  };
  pc = waiting;
}

-- A step of the timer, of `main` or of the thread. Each runs as a whole.
pub data Step (s : Daemon) : Daemon → Type 0 where
  fires :
      (read_byte write_quick : ℕ → ℤ)
      → s.master.timed ≡ true
      → Step s (record s { master = timer_handler read_byte write_quick s.master })
  created : s.pc ≡ waiting → is_lost s.master.address ≡ false → Step s (record s { pc = outside })
  not_created : s.pc ≡ waiting → is_lost s.master.address ≡ false → Step s (record s { pc = ended })
  timeout :
      (ac1 opened : ℤ)
      → (s.pc ≡ outside) ⊎ (s.pc ≡ inside)
      → Step s (record s { master = poll_timeout ac1 opened s.master })
  reads :
      (ok : Bool)
      → s.pc ≡ outside
      → Step s (record { master = first_read ok s.master; pc = inside })
  reads_on :
      (ok : Bool)
      → s.pc ≡ inside
      → s.master.reading ≡ true
      → Step s (record s { master = next_read ok s.master })
  leaves : s.pc ≡ inside → s.master.reading ≡ false → Step s (record s { pc = outside })

pub data Run (s : Daemon) : Daemon → Type 0 where
  here : Run s s
  then_step : {t u : Daemon} → Run s t → Step t u → Run s u
