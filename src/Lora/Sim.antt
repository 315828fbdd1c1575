-- ===== src/Lora/Sim.antt =====
-- A simulated modem that meets `Chip`: what the driver assumes of the hardware can hold. It models no
-- code of the repository.
use embeded_linux_gateway.Prelude.{
  ℕ, suc, ◌+◌, ◌-◌, ◌%◌, ◌<◌, ◌≡◌, refl, sym, Bool, true, false, ◌&&◌, List, [], ◌∷◌, ℤ, pos, arith,
  ltb, leb, ◌==◌, if◌then◌else◌, length, get_or, length-replicate,
}
use mathlib.Core.Path.{ap₂, subst}
use native.Mathlib.Nat.{add-zero}
use embeded_linux_gateway.Lora.Bus.{Bus, Chip, is_config, config_run, fifo_slice, op_mode_write}

pub record Sim : Type 0 where
  pub regs : ℕ → ℕ
  pub ram : ℕ → ℕ

abbrev pub pointer : Sim → ℕ
pointer w = w.regs 0x0d % 256

burst : ℕ → List ℕ → (ℕ → ℕ) → ℕ → ℕ
burst r bs old q = if leb r q && ltb q (r + length bs) then get_or bs (q - r) 0 else old q

put_ram : ℕ → List ℕ → (ℕ → ℕ) → ℕ → ℕ
put_ram p bs old a =
    let i = (a + 256 - p) % 256 in if ltb i (length bs) then get_or bs i 0 else old a

update : ℕ → ℕ → (ℕ → ℕ) → ℕ → ℕ
update r v old q = if q == r then v else old q

-- A write to register `r`, which keeps what is written if `kept` says so.
write_kept : Bool → ℕ → List ℕ → Sim → Sim
write_kept true r bs w = record w { regs = burst r bs w.regs }
write_kept false r bs w =
    if r == 0x00
    then record w {
      regs = update 0x0d ((pointer w + length bs) % 256) w.regs;
      ram = put_ram (pointer w) bs w.ram;
    }
    else if r == 0x01
    then record w { regs = update 0x01 (op_mode_write (w.regs 0x01 % 256) (get_or bs 0 0)) w.regs }
    else if r == 0x12
    then record w { regs = update 0x12 0 w.regs }
    else w

write : ℕ → List ℕ → Sim → Sim
unfolding write_kept
write r [] w = w
write r (b ∷ bs) w = write_kept (is_config r) r (b ∷ bs) w

xfer : List ℕ → Sim → ℤ × List ℕ × Sim
xfer [] w = (pos 0, [], w)
xfer (c ∷ bs) w =
    if ltb c 128
    then (if c == 0x00
        then (
          pos (length bs + 1),
          0 ∷ fifo_slice w.ram (pointer w) (length bs),
          record w { regs = update 0x0d ((pointer w + length bs) % 256) w.regs },
        )
        else (pos (length bs + 1), 0 ∷ (w.regs c % 256) ∷ [], w))
    else (pos (length bs + 1), [], write (c - 128) bs w)

unfoldable pub sim : Bus
unfolding xfer write burst put_ram update
sim = record {
  World = Sim;
  gpio_initialise = λ w. (pos 0, w);
  gpio_set_mode = λ g m w. w;
  gpio_write = λ g v w. w;
  gpio_set_isr = λ g h w. w;
  usleep = λ t w. w;
  spi_open = λ cs baud flags w. (pos 5, w);
  spi_close = λ s w. w;
  spi_xfer = λ s. xfer;
  gettimeofday = λ w. (0, w);
  pthread_create = λ c w. w;
}

-- A state as one of the bus.
unfoldable pub world : Sim → sim.World
unfolding sim
world s = s

and_left : (a b : Bool) → (a && b) ≡ true → a ≡ true
and_left true b h = refl
and_left false b h = h

shift : (a i : ℕ) → (a + 1 + i) % 256 ≡ (a + suc i) % 256
shift a i = omega arith

put_at :
    (w : Sim) (i : ℕ) (bs : List ℕ)
    → i < length bs
    → length bs < 256
    → put_ram (pointer w) bs w.ram ((pointer w + i) % 256) ≡ get_or bs i 0
unfolding put_ram
put_at w i bs h small =
    let e : ((pointer w + i) % 256 + 256 - pointer w) % 256 ≡ i = omega arith in rw e (ground arith)

slice-eq :
    (f : ℕ → ℕ) (a : ℕ) (bs : List ℕ)
    → ((i : ℕ) → i < length bs → f ((a + i) % 256) ≡ get_or bs i 0)
    → fifo_slice f a (length bs) ≡ bs
slice-eq f a [] h = refl
slice-eq f a (b ∷ bs) h =
    ap₂ ◌∷◌ (rw (← add-zero a) (h 0 (omega arith)))
      (slice-eq f (a + 1) bs (λ i k. rw (shift a i) (h (suc i) (omega arith))))

abbrev view : Sim → ℕ → ℕ
view w q = w.regs q % 256

is_config_first : (r n : ℕ) → config_run r (suc n) ≡ true → is_config r ≡ true
is_config_first r n h = and_left (is_config r) (config_run (suc r) n) h

write_config :
    (w : Sim) (r q : ℕ) (bs : List ℕ)
    → config_run r (length bs) ≡ true
    → view (write r bs w) q
      ≡ (if leb r q && ltb q (r + length bs) then get_or bs (q - r) 0 % 256 else view w q)
unfolding write burst
write_config w r q [] h = ground arith
write_config w r q (b ∷ bs) h =
    subst
      (λ t. view (write_kept t r (b ∷ bs) w) q ≡ (
        if leb r q && ltb q (r + length (b ∷ bs))
        then get_or (b ∷ bs) (q - r) 0 % 256
        else view w q))
      (sym (is_config_first r (length bs) h)) (ground arith)

write_config_ram :
    (w : Sim) (r a : ℕ) (bs : List ℕ)
    → config_run r (length bs) ≡ true
    → (write r bs w).ram a ≡ w.ram a
unfolding write
write_config_ram w r a [] h = refl
write_config_ram w r a (b ∷ bs) h =
    subst (λ t. (write_kept t r (b ∷ bs) w).ram a ≡ w.ram a) (sym (is_config_first r (length bs) h))
      refl

mode_lt : (old new : ℕ) → old < 256 → new < 256 → op_mode_write old new < 256
mode_lt old new h k = ground arith

write_mode :
    (w : Sim) (q b : ℕ)
    → b < 256
    → view (write 1 (b ∷ []) w) q ≡ (if q == 1 then op_mode_write (view w 1) b else view w q)
unfolding write update
write_mode w q b h = ground (arith, mode_lt (w.regs 1 % 256) b (omega arith) h)

fill_ram :
    (w : Sim) (bs : List ℕ)
    → length bs < 256
    → fifo_slice (write 0 bs w).ram (pointer w) (length bs) ≡ bs
unfolding write put_ram
fill_ram w [] h = refl
fill_ram w (b ∷ bs) h =
    slice-eq (put_ram (pointer w) (b ∷ bs) w.ram) (pointer w) (b ∷ bs)
      (λ i k. put_at w i (b ∷ bs) k h)

fill_regs : (w : Sim) (q : ℕ) (bs : List ℕ) → (q == 0x0d) ≡ false → view (write 0 bs w) q ≡ view w q
unfolding write update
fill_regs w q [] h = refl
fill_regs w q (b ∷ bs) h = rw h

above : (r : ℕ) → (ltb (r + 128) 128 ≡ false) × (r + 128 - 128 ≡ r)
above r = (ground arith, omega arith)

xfer-write : (r : ℕ) (bs : List ℕ) (w : Sim) → (xfer ((r + 128) ∷ bs) w).2 ≡ write r bs w
unfolding xfer
xfer-write r bs w = rw ((above r).0, (above r).1)

pub sim_chip : (spid : ℤ) → Chip sim spid
unfolding sim
sim_chip spid = record {
  reg = view;
  fifo = λ w. w.ram;
  reg_lt = λ w r. omega arith;
  read_ret = λ w r p h. ground arith;
  read_rx = λ w r p h. (0, ground arith);
  read_keeps = λ w r q p h. ground arith;
  read_fifo = λ w r a p h. ground arith;
  write_reg = λ w r q bs c. rw (xfer-write r bs w) (write_config w r q bs c);
  write_fifo = λ w r a bs c. rw (xfer-write r bs w) (write_config_ram w r a bs c);
  write_op_mode = λ w q b h. write_mode w q b h;
  op_mode_fifo = λ w a b h. refl;
  fill_fifo = λ w bs awake h. fill_ram w bs h;
  fill_keeps = λ w q bs h. fill_regs w q bs h;
  fetch_ret = λ w n h. rw (length-replicate {A = ℕ} n 0);
  fetch_fifo = λ w n h awake. (0, rw (length-replicate {A = ℕ} n 0));
  fetch_keeps = λ w n q h. rw h;
  clear_irq = λ w q. ground arith;
  gpio_keeps = λ w g m. refl;
  isr_keeps = λ w g h. refl;
  gpio_fifo = λ w g m. refl;
  isr_fifo = λ w g h. refl;
  thread_keeps = λ w c. refl;
  clock_keeps = λ w. refl;
}

pub world_reg : (spid : ℤ) (w : Sim) (q : ℕ) → (sim_chip spid).reg (world w) q ≡ w.regs q % 256
unfolding sim_chip world
world_reg spid w q = refl

pub world_fifo : (spid : ℤ) (w : Sim) → (sim_chip spid).fifo (world w) ≡ w.ram
unfolding sim_chip world
world_fifo spid w = refl
