-- ===== src/Start.antt =====
-- How the daemons begin: `main` of src/mqtt_client/mqtt_client.c and its socket, and `socket_init` of
-- clientSPI.c and clientI2C.c under src/service_user_space.
use embeded_linux_gateway.Prelude.{
  ℕ, Bool, false, not, Option, none, some, ℤ, pos, negsuc, if◌then◌else◌, ◌==◌,
}

-- How a start ends: by `exit`, by a return of `main`, or in the loop.
pub data Start {ℓ} (A : Type ℓ) : Type ℓ where
  exited : ℕ → Start A
  returned : ℤ → Start A
  looping : A → Start A

-- The state of the loop, if it is reached.
abbrev pub in_loop {ℓ} : {A : Type ℓ} → Start A → Option A
in_loop (looping a) = some a
in_loop _ = none

-- `x == -1`, and `x == 0`.
abbrev pub is_minus_one : ℤ → Bool
is_minus_one (negsuc n) = n == 0
is_minus_one _ = false

abbrev pub is_zero : ℤ → Bool
is_zero (pos n) = n == 0
is_zero _ = false

-- The listening socket of the server, with the results of `socket`, `bind` and `listen`.
unfoldable pub listening_socket : ℤ → ℤ → ℤ → Start ℤ
listening_socket sockfd bound heard =
    if is_minus_one sockfd
    then exited 0
    else if not (is_zero bound)
    then exited 0
    else if not (is_zero heard)
    then exited 0
    else looping sockfd

-- `socket_init` of the clients goes on whatever fails: `sockfd`, and whether it is connected. `connect` is
-- called on the descriptor -1 too.
unfoldable pub socket_init : ℤ → (ℤ → ℤ) → ℤ × Bool
socket_init sockfd connect = (sockfd, is_zero (connect sockfd))
