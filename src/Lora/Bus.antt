-- ===== src/Lora/Bus.antt =====
-- What the driver takes from pigpio, pthreads and the C library, and what it relies on of the modem
-- behind the SPI bus.
use embeded_linux_gateway.Prelude.{
  ℕ, zero, suc, ◌+◌, ◌-◌, ◌*◌, ◌/◌, ◌%◌, ◌<◌, ◌≡◌, Bool, true, false, ◌&&◌, Option, List, [], ◌∷◌,
  ℤ, pos, ltb, leb, ◌==◌, if◌then◌else◌, length, get_or, replicate,
}
use embeded_linux_gateway.Lora.Regs.{LoraCtl}

-- The interrupt handlers that the driver installs, and the threads that it starts.
pub data Isr : Type 0 where
  rx_done_isr tx_done_isr : Isr

pub data Callback : Type 0 where
  rx_callback tx_callback : LoraCtl → Callback

pub data PinMode : Type 0 where
  pi_input pi_output : PinMode

-- The calls take the state of the world and return it. `spi_xfer` is given the bytes that are sent,
-- and returns its result and the bytes received. `gpio_set_isr` is `gpioSetISRFuncEx` on the rising
-- edge, with `none` for a NULL handler.
pub record Bus : Type 1 where
  pub World : Type 0
  pub gpio_initialise : World → ℤ × World
  pub gpio_set_mode : ℕ → PinMode → World → World
  pub gpio_write : ℕ → ℕ → World → World
  pub gpio_set_isr : ℕ → Option Isr → World → World
  pub usleep : ℕ → World → World
  pub spi_open : ℕ → ℕ → ℕ → World → ℤ × World
  pub spi_close : ℤ → World → World
  pub spi_xfer : ℤ → List ℕ → World → ℤ × List ℕ × World
  pub gettimeofday : World → ℕ × World
  pub pthread_create : Callback → World → World

-- The registers that keep what is written to them.
abbrev pub is_config : ℕ → Bool
is_config r = is_one_of r (
    0x06 ∷ 0x07 ∷ 0x08 ∷ 0x09 ∷ 0x0b ∷ 0x0c ∷ 0x0d ∷ 0x0e ∷ 0x0f ∷ 0x1d ∷ 0x1e ∷ 0x20 ∷ 0x21 ∷ 0x22
    ∷ 0x26 ∷ 0x31 ∷ 0x37 ∷ 0x39 ∷ 0x40 ∷ 0x4d ∷ [])
  where
    is_one_of : ℕ → List ℕ → Bool
    is_one_of q [] = false
    is_one_of q (x ∷ xs) = let rest = is_one_of q xs in if x == q then true else rest

-- So do the `n` registers from `r` on.
abbrev pub config_run : ℕ → ℕ → Bool
config_run r zero = true
config_run r (suc n) = is_config r && config_run (suc r) n

-- `n` bytes of the 256-byte FIFO from an address on, going round at its end.
abbrev pub fifo_slice : (ℕ → ℕ) → ℕ → ℕ → List ℕ
fifo_slice f a zero = []
fifo_slice f a (suc n) = f (a % 256) ∷ fifo_slice f (a + 1) n

-- Bit 7 of the mode register can be changed only in sleep mode; the other bits always.
abbrev pub op_mode_write : ℕ → ℕ → ℕ
op_mode_write old new = if old % 8 == 0 then new else old / 128 * 128 + new % 128

-- The documented SPI behaviour of the modem that `spid` is open on. A transfer of two bytes that
-- begins with a register number reads it; a transfer whose first byte has bit 7 set writes from that
-- register on; register 0 is the window to the FIFO at the address pointer.
pub record Chip (bus : Bus) (spid : ℤ) : Type 0 where
  pub reg : bus.World → ℕ → ℕ
  pub fifo : bus.World → ℕ → ℕ
  pub reg_lt : (w : bus.World) (r : ℕ) → reg w r < 256
  pub read_ret :
      (w : bus.World) (r : ℕ) → 0 < r → r < 128 → (bus.spi_xfer spid (r ∷ 0 ∷ []) w).0 ≡ pos 2
  pub read_rx :
      (w : bus.World) (r : ℕ)
      → 0 < r
      → r < 128
      → (x : ℕ) × ((bus.spi_xfer spid (r ∷ 0 ∷ []) w).1 ≡ x ∷ reg w r ∷ [])
  pub read_keeps :
      (w : bus.World) (r q : ℕ)
      → 0 < r
      → r < 128
      → reg (bus.spi_xfer spid (r ∷ 0 ∷ []) w).2 q ≡ reg w q
  pub read_fifo :
      (w : bus.World) (r a : ℕ)
      → 0 < r
      → r < 128
      → fifo (bus.spi_xfer spid (r ∷ 0 ∷ []) w).2 a ≡ fifo w a
  pub write_reg :
      (w : bus.World) (r q : ℕ) (bs : List ℕ)
      → config_run r (length bs) ≡ true
      → reg (bus.spi_xfer spid ((r + 128) ∷ bs) w).2 q
        ≡ (if leb r q && ltb q (r + length bs) then get_or bs (q - r) 0 % 256 else reg w q)
  pub write_fifo :
      (w : bus.World) (r a : ℕ) (bs : List ℕ)
      → config_run r (length bs) ≡ true
      → fifo (bus.spi_xfer spid ((r + 128) ∷ bs) w).2 a ≡ fifo w a
  pub write_op_mode :
      (w : bus.World) (q b : ℕ)
      → b < 256
      → reg (bus.spi_xfer spid (0x81 ∷ b ∷ []) w).2 q
        ≡ (if q == 1 then op_mode_write (reg w 1) b else reg w q)
  pub op_mode_fifo :
      (w : bus.World) (a b : ℕ)
      → 0 < b % 8
      → fifo (bus.spi_xfer spid (0x81 ∷ b ∷ []) w).2 a ≡ fifo w a
  pub fill_fifo :
      (w : bus.World) (bs : List ℕ)
      → 0 < reg w 0x01 % 8
      → length bs < 256
      → fifo_slice (fifo (bus.spi_xfer spid (0x80 ∷ bs) w).2) (reg w 0x0d) (length bs) ≡ bs
  pub fill_keeps :
      (w : bus.World) (q : ℕ) (bs : List ℕ)
      → (q == 0x0d) ≡ false
      → reg (bus.spi_xfer spid (0x80 ∷ bs) w).2 q ≡ reg w q
  pub fetch_ret :
      (w : bus.World) (n : ℕ)
      → n < 256
      → (bus.spi_xfer spid (0x00 ∷ replicate n 0) w).0 ≡ pos (n + 1)
  pub fetch_fifo :
      (w : bus.World) (n : ℕ)
      → n < 256
      → 0 < reg w 0x01 % 8
      → (x : ℕ) × ((bus.spi_xfer spid (0x00 ∷ replicate n 0) w).1
          ≡ x ∷ fifo_slice (fifo w) (reg w 0x0d) n)
  pub fetch_keeps :
      (w : bus.World) (n q : ℕ)
      → (q == 0x0d) ≡ false
      → reg (bus.spi_xfer spid (0x00 ∷ replicate n 0) w).2 q ≡ reg w q
  pub clear_irq :
      (w : bus.World) (q : ℕ)
      → reg (bus.spi_xfer spid (0x92 ∷ 0xff ∷ []) w).2 q ≡ (if q == 0x12 then 0 else reg w q)
  pub gpio_keeps : (w : bus.World) (g : ℕ) (m : PinMode) → reg (bus.gpio_set_mode g m w) ≡ reg w
  pub isr_keeps : (w : bus.World) (g : ℕ) (h : Option Isr) → reg (bus.gpio_set_isr g h w) ≡ reg w
  pub gpio_fifo : (w : bus.World) (g : ℕ) (m : PinMode) → fifo (bus.gpio_set_mode g m w) ≡ fifo w
  pub isr_fifo : (w : bus.World) (g : ℕ) (h : Option Isr) → fifo (bus.gpio_set_isr g h w) ≡ fifo w
  pub thread_keeps : (w : bus.World) (c : Callback) → reg (bus.pthread_create c w) ≡ reg w
  pub clock_keeps : (w : bus.World) → reg (bus.gettimeofday w).1 ≡ reg w
