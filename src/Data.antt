-- ===== src/Data.antt =====
-- src/common/data.h: the message that the clients send to the gateway's server, as its bytes in memory.
-- `struct Data` is 304 bytes: the node in 4, 4 of padding, and the union of 296. The members of the
-- union start at its first byte: `uart.msg` at 0, `nrf.msg` at 2, `lora.msg` at 20.
use embeded_linux_gateway.Prelude.{
  ℕ, suc, ◌+◌, ◌*◌, ◌≤◌, ◌<◌, ◌≡◌, refl, List, [], ◌∷◌, ◌++◌, arith, length, get_or, take, drop,
  overlay, c_string, length-overlay, NoNul, zero, overlay-eq, c_string-append, append_assoc,
  length-append, length-take, length-drop,
}
use mathlib.Core.List.{append-nil}
use mathlib.Core.Path.{◌∙◌}

pub data Node : Type 0 where
  k_uart k_lora k_nrf k_spi k_wifi : Node

abbrev pub node_code : Node → ℕ
node_code k_uart = 0
node_code k_lora = 1
node_code k_nrf = 2
node_code k_spi = 3
node_code k_wifi = 4

abbrev pub sizeof_data : ℕ
sizeof_data = 304

-- The value of `data.node`, an `int` in little-endian order.
unfoldable pub node_of : List ℕ → ℕ
node_of d = get_or d 0 0 + 256 * (get_or d 1 0 + 256 * (get_or d 2 0 + 256 * get_or d 3 0))

abbrev pub packet_offset : ℕ
packet_offset = 8

-- `data.packet.uart.msg`, and `data.packet.lora.msg`, read as strings by the C library.
unfoldable pub uart_msg : List ℕ → List ℕ
uart_msg d = c_string (drop 8 d)

unfoldable pub lora_msg : List ℕ → List ℕ
lora_msg d = c_string (drop 28 d)

-- Bytes written from an offset on; what would fall outside the object is lost here.
unfoldable pub write_at : ℕ → List ℕ → List ℕ → List ℕ
write_at n bs d = take n d ++ overlay bs (drop n d)

unfoldable pub set_node : Node → List ℕ → List ℕ
unfolding write_at
set_node k d = write_at 0 (node_code k ∷ 0 ∷ 0 ∷ 0 ∷ []) d

-- `strcpy(data.packet.lora.msg, s)`, for the string `s` without its 0.
unfoldable pub set_lora_msg : List ℕ → List ℕ → List ℕ
unfolding write_at
set_lora_msg s d = write_at 28 (s ++ 0 ∷ []) d

drop-append_of_length : (n : ℕ) (xs ys : List ℕ) → length xs ≡ n → drop n (xs ++ ys) ≡ ys
drop-append_of_length zero [] ys h = refl
drop-append_of_length zero (x ∷ xs) ys h = absurd (omega arith)
drop-append_of_length (suc n) [] ys h = absurd (omega arith)
drop-append_of_length (suc n) (x ∷ xs) ys h = drop-append_of_length n xs ys (omega arith)

get_or-drop : (n : ℕ) (l : List ℕ) → get_or (drop n l) 0 1 ≡ get_or l n 1
get_or-drop zero [] = refl
get_or-drop zero (x ∷ l) = refl
get_or-drop (suc n) [] = refl
get_or-drop (suc n) (x ∷ l) = get_or-drop n l

get_or-take_append :
    (n i z : ℕ) (d ys : List ℕ) → i < n → n ≤ length d → get_or (take n d ++ ys) i z ≡ get_or d i z
get_or-take_append zero i z d ys h k = absurd (omega arith)
get_or-take_append (suc n) i z [] ys h k = absurd (omega arith)
get_or-take_append (suc n) zero z (x ∷ d) ys h k = refl
get_or-take_append (suc n) (suc i) z (x ∷ d) ys h k =
    get_or-take_append n i z d ys (omega arith) (omega arith)

c_string-empty : (l : List ℕ) → get_or l 0 1 ≡ 0 → c_string l ≡ []
c_string-empty [] h = refl
c_string-empty (zero ∷ l) h = refl
c_string-empty (suc c ∷ l) h = absurd (omega arith)

-- A string of fewer than 276 bytes without a 0 that is copied to `lora.msg` in a whole `struct Data` is
-- read back from it.
pub lora_msg-set_lora_msg :
    (s d : List ℕ)
    → NoNul s
    → length d ≡ sizeof_data
    → length s < 276
    → lora_msg (set_lora_msg s d) ≡ s
unfolding lora_msg set_lora_msg write_at
lora_msg-set_lora_msg s d clean whole fits =
    rw
      (
        drop-append_of_length 28 (take 28 d) (overlay (s ++ 0 ∷ []) (drop 28 d))
            (omega (arith, length-take 28 d)),
        overlay-eq (s ++ 0 ∷ []) (drop 28 d)
            (omega (arith, length-drop 28 d, length-append s (0 ∷ []))),
        append_assoc,
        c_string-append s (0 ∷ drop (length (s ++ 0 ∷ [])) (drop 28 d)) clean,
      )
      (append-nil s)

-- A read of `uart.msg` stops in the device name, if that is empty.
pub uart_msg-set_lora_msg :
    (s d : List ℕ) → length d ≡ sizeof_data → get_or d 8 1 ≡ 0 → uart_msg (set_lora_msg s d) ≡ []
unfolding uart_msg set_lora_msg write_at
uart_msg-set_lora_msg s d whole empty =
    c_string-empty (drop 8 (take 28 d ++ overlay (s ++ 0 ∷ []) (drop 28 d))) (
      get_or-drop 8 (take 28 d ++ overlay (s ++ 0 ∷ []) (drop 28 d))
      ∙ get_or-take_append 28 8 1 d (overlay (s ++ 0 ∷ []) (drop 28 d)) (omega arith) (omega arith)
      ∙ empty)

-- The message leaves the node.
pub node_of-set_lora_msg :
    (s d : List ℕ) → length d ≡ sizeof_data → node_of (set_lora_msg s d) ≡ node_of d
unfolding node_of set_lora_msg write_at
node_of-set_lora_msg s d whole =
    let kept : (i : ℕ)
        → i < 28
        → get_or (take 28 d ++ overlay (s ++ 0 ∷ []) (drop 28 d)) i 0 ≡ get_or d i 0 =
      λ i h. get_or-take_append 28 i 0 d (overlay (s ++ 0 ∷ []) (drop 28 d)) h (omega arith) in
    rw (kept 0 (omega arith), kept 1 (omega arith), kept 2 (omega arith), kept 3 (omega arith))

length-write_at : (n : ℕ) (bs d : List ℕ) → length (write_at n bs d) ≡ length d
unfolding write_at
length-write_at n bs d = omega (
  arith,
  length-append (take n d) (overlay bs (drop n d)),
  length-overlay bs (drop n d),
  length-take n d,
  length-drop n d,
)

pub length-set_lora_msg : (s d : List ℕ) → length (set_lora_msg s d) ≡ length d
unfolding set_lora_msg
length-set_lora_msg s d = length-write_at 28 (s ++ 0 ∷ []) d

-- The node that is written is read back, and the rest is left.
pub set_node_lem :
    (k : Node) (d : List ℕ)
    → length d ≡ sizeof_data
    → (node_of (set_node k d) ≡ node_code k)
      × (length (set_node k d) ≡ sizeof_data)
      × (get_or (set_node k d) 8 1 ≡ get_or d 8 1)
unfolding node_of set_node write_at
set_node_lem k (a ∷ b ∷ c ∷ e ∷ d) h = (omega arith, h, refl)
set_node_lem k [] h = absurd (omega arith)
set_node_lem k (a ∷ []) h = absurd (omega arith)
set_node_lem k (a ∷ b ∷ []) h = absurd (omega arith)
set_node_lem k (a ∷ b ∷ c ∷ []) h = absurd (omega arith)
