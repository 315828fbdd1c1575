-- ===== src/SpiClient.antt =====
-- src/service_user_space/clientSPI/spiclient.c: the older daemon for the node on the SPI bus. `main` sends
-- requests and a thread reads, with a mutex around each access.
pub mod Mutex
pub mod Cycle
mod Tests
use embeded_linux_gateway.Prelude.{
  ℕ, ◌+◌, ◌%◌, ◌≡◌, Bool, true, false, List, [], ◌∷◌, ℤ, pos, ◌==◌, if◌then◌else◌,
}
use embeded_linux_gateway.Start.{Start, returned, looping, is_zero}

-- "55*" and "77*".
abbrev pub request_key : List ℕ
request_key = 53 ∷ 53 ∷ 42 ∷ []

abbrev pub request_data : List ℕ
request_data = 55 ∷ 55 ∷ 42 ∷ []

-- The thread is outside of its `read` or inside, with the mutex.
pub data Reader : Type 0 where
  resting reading : Reader

-- `main` has created the thread, but not the mutex; it polls; it has selected the node; it is in `write`,
-- with the mutex; or it has written.
pub data Writer : Type 0 where
  creating polling selected writing written : Writer

-- `held` is the mutex, `level` the pin `SS0`, `msg` the request under way, and `wrote` what was handed to
-- `write`, the latest first.
pub record Client : Type 0 where
  pub reader : Reader
  pub writer : Writer
  pub held : Bool
  pub count : ℕ
  pub msg : List ℕ
  pub level : ℕ
  pub fd : ℤ
  pub wrote : List (List ℕ)

-- `setUpSPI` selects no node, and gives the descriptor whatever the setup gives.
pub set_up_spi : ℤ → Client → Client
set_up_spi opened s = record s { level = 1; fd = opened }

-- The state at the start of the loop.
abbrev pub first_state : ℤ → Client
first_state opened = set_up_spi opened (record {
  reader = resting;
  writer = creating;
  held = false;
  count = 3;
  msg = [];
  level = 0;
  fd = pos 0;
  wrote = [];
})

-- `main` up to its loop: `created` is the result of `pthread_create`.
unfoldable pub main_start : ℤ → ℤ → Start Client
main_start opened created =
    if is_zero created then looping (first_state opened) else returned (pos 0)

-- `poll` has timed out: the request is chosen, and the node is selected.
unfoldable pub poll_timeout : Client → Client
poll_timeout s =
    let count' = (s.count + 1) % 4 in
    record s {
      count = count';
      msg = if count' == 0 then request_key else request_data;
      writer = selected;
      level = 0;
    }

-- A step of the thread or of `main`. Taking the mutex waits until it is free; `pthread_mutex_init` makes it
-- free.
pub data Step (s : Client) : Client → Type 0 where
  read_begins :
      s.reader ≡ resting → s.held ≡ false → Step s (record s { reader = reading; held = true })
  read_ends :
      (num_bytes1 : ℤ) → s.reader ≡ reading → Step s (record s { reader = resting; held = false })
  mutex_init : s.writer ≡ creating → Step s (record s { writer = polling; held = false })
  timeout : s.writer ≡ polling → Step s (poll_timeout s)
  write_begins :
      s.writer ≡ selected → s.held ≡ false → Step s (record s { writer = writing; held = true })
  write_ends :
      (k1 : ℤ)
      → s.writer ≡ writing
      → Step s (record s { writer = written; held = false; wrote = s.msg ∷ s.wrote })
  deselects : s.writer ≡ written → Step s (record s { writer = polling; level = 1 })

pub data Run (s : Client) : Client → Type 0 where
  here : Run s s
  then_step : {t u : Client} → Run s t → Step t u → Run s u
