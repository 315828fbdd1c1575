-- ===== src/Lora/Radio/Transmit.antt =====
-- `LoRa_send` and `LoRa_receive`: what the modem holds when they return.
use embeded_linux_gateway.Prelude.{
  ℕ, ◌+◌, ◌*◌, ◌/◌, ◌%◌, ◌<◌, ◌≤◌, ◌≡◌, refl, fun_ext, bit_and, bit_or, Bool, true, false, List, ℤ,
  arith, ◌==◌, ==_iff, if◌then◌else◌, length, length-take, take, ◌∙◌, checked_to, checked_to_sound,
}
use mathlib.Core.Path.{subst}
use native.Mathlib.Nat.{mod-eq_of_lt}
use embeded_linux_gateway.Lora.Regs.{LoraCtl}
use embeded_linux_gateway.Lora.Bus.{Bus, Chip, fifo_slice}
use embeded_linux_gateway.Lora.Setup.{
  bit, lora_set_tx_mode, lora_set_rxcont_mode, lora_get_op_mode, lora_write_fifo,
  lora_set_dio_tx_mapping,
}
use embeded_linux_gateway.Lora.Setup.Laws.{
  reg-set_satandby_mode, reg-set_tx_mode, reg-set_rxcont_mode, reg-set_dio_tx_mapping,
  reg-set_dio_rx_mapping, reg-set_lowdatarateoptimize_on, reg-set_lowdatarateoptimize_off,
}
use embeded_linux_gateway.Lora.Setup.Modes.{op_mode_value}
use embeded_linux_gateway.Lora.Setup.Fifo.{
  get_op_mode_lem, fifo-set_dio_tx_mapping, fifo-set_tx_mode, write_fifo_lem, reg-write_fifo,
}
use embeded_linux_gateway.Lora.Packet.{lora_calculate_packet_t}
use embeded_linux_gateway.Lora.Radio.{
  ensure_standby, set_lowdatarateoptimize, lora_set_txdone_dio_isr, lora_set_rxdone_dio_isr,
  lora_send, lora_receive,
}

-- The value of MODEM_CONFIG_3 with the bit for slow packets set or cleared.
abbrev pub slow_bit : Bool → ℕ → ℕ
slow_bit slow v = if slow then bit_or (bit_and v 0xf7) 0x08 else bit_and v 0xf7

slow_bit_table : (slow : Bool) → checked_to 256 (λ v. slow_bit slow v / 8 % 2 == bit slow) ≡ true
unfolding checked_to
slow_bit_table true = refl
slow_bit_table false = refl

pub slow_bit_lem : (slow : Bool) (v : ℕ) → v < 256 → slow_bit slow v / 8 % 2 ≡ bit slow
slow_bit_lem slow v h =
    (==_iff _ _).0
      (checked_to_sound 256 (λ v. slow_bit slow v / 8 % 2 == bit slow) v (slow_bit_table slow) h)

module _ (bus : Bus) (spid : ℤ) (chip : Chip bus spid) where
  open bus use {World}
  open chip use {reg, fifo}

  pub reg-ensure_standby :
      (w : World) (q : ℕ)
      → reg (ensure_standby bus spid w) q ≡ (if q == 1 then reg w 1 / 8 * 8 + 1 else reg w q)
  unfolding ensure_standby
  reg-ensure_standby w q = ground (
    arith,
    get_op_mode_lem bus spid chip w,
    reg-set_satandby_mode bus spid chip (lora_get_op_mode bus spid w).1 q,
    op_mode_value (reg w 1) 1 (chip.reg_lt w 1),
  )

  pub reg-set_lowdatarateoptimize :
      (w : World) (q : ℕ) (slow : Bool)
      → reg (set_lowdatarateoptimize bus spid slow w) q
        ≡ (if q == 0x26 then slow_bit slow (reg w 0x26) else reg w q)
  unfolding set_lowdatarateoptimize
  reg-set_lowdatarateoptimize w q true = reg-set_lowdatarateoptimize_on bus spid chip w q
  reg-set_lowdatarateoptimize w q false = reg-set_lowdatarateoptimize_off bus spid chip w q

  isr_lem :
      (w : World) (g : ℕ)
      → (reg (lora_set_txdone_dio_isr bus g w) ≡ reg w)
        × (reg (lora_set_rxdone_dio_isr bus g w) ≡ reg w)
        × (fifo (lora_set_txdone_dio_isr bus g w) ≡ fifo w)
  unfolding lora_set_txdone_dio_isr lora_set_rxdone_dio_isr
  isr_lem w g = (
    rw (chip.isr_keeps, chip.gpio_keeps),
    rw (chip.isr_keeps, chip.gpio_keeps),
    rw (chip.isr_fifo, chip.gpio_fifo),
  )

  reg-tx_mode :
      (w : World) (q : ℕ)
      → reg (lora_set_tx_mode bus spid w) q ≡ (if q == 1 then reg w 1 / 8 * 8 + 3 else reg w q)
  reg-tx_mode w q =
      rw (
        reg-set_tx_mode bus spid chip w q,
        op_mode_value (reg w 1) 3 (chip.reg_lt w 1) (omega arith),
      )

  pub reg-rxcont_mode :
      (w : World) (q : ℕ)
      → reg (lora_set_rxcont_mode bus spid w) q ≡ (if q == 1 then reg w 1 / 8 * 8 + 5 else reg w q)
  reg-rxcont_mode w q = rw (
    reg-set_rxcont_mode bus spid chip w q,
    op_mode_value (reg w 1) 5 (chip.reg_lt w 1) (omega arith),
  )

  reg-txdone_isr : (w : World) (g q : ℕ) → reg (lora_set_txdone_dio_isr bus g w) q ≡ reg w q
  reg-txdone_isr w g q = rw (isr_lem w g).0

  pub reg-rxdone_isr : (w : World) (g q : ℕ) → reg (lora_set_rxdone_dio_isr bus g w) q ≡ reg w q
  reg-rxdone_isr w g q = rw (isr_lem w g).1

  fifo-txdone_isr : (w : World) (g q : ℕ) → fifo (lora_set_txdone_dio_isr bus g w) q ≡ fifo w q
  fifo-txdone_isr w g q = rw (isr_lem w g).2

  filled :
      (w : World) (buf : List ℕ) (size : ℕ)
      → let w' = (lora_write_fifo bus spid buf size w).1 in
        (reg w' 0x01 ≡ reg w 0x01) × (reg w' 0x22 ≡ size % 256) × (reg w' 0x26 ≡ reg w 0x26)
  filled w buf size = (
    reg-write_fifo bus spid chip w 0x01 buf size refl,
    reg-write_fifo bus spid chip w 0x22 buf size refl,
    reg-write_fifo bus spid chip w 0x26 buf size refl,
  )

  -- The state of the modem after `prepare`, on the way to a transmission.
  prepared :
      (w : World) (slow : Bool)
      → let w' = set_lowdatarateoptimize bus spid slow (ensure_standby bus spid w) in
        (reg w' 0x01 ≡ reg w 0x01 / 8 * 8 + 1) × (reg w' 0x26 ≡ slow_bit slow (reg w 0x26))
  prepared w slow = (
    rw (
      reg-set_lowdatarateoptimize (ensure_standby bus spid w) 0x01 slow,
      reg-ensure_standby w 0x01,
    ),
    rw (
      reg-set_lowdatarateoptimize (ensure_standby bus spid w) 0x26 slow,
      reg-ensure_standby w 0x26,
    ),
  )

  -- The last steps of `LoRa_send`, from the world in which the FIFO is filled.
  fire : ℕ → World → World
  fire g w =
      lora_set_tx_mode bus spid (lora_set_txdone_dio_isr bus g (lora_set_dio_tx_mapping bus spid w))

  fired :
      (w : World) (g : ℕ)
      → let w' = fire g w in
        (reg w' 0x01 ≡ reg w 0x01 / 8 * 8 + 3)
        × (reg w' 0x22 ≡ reg w 0x22)
        × (reg w' 0x26 ≡ reg w 0x26)
        × (reg w' 0x40 ≡ 0x40)
        × (fifo w' ≡ fifo w)
  unfolding fire
  fired w g = (
    simp (reg-tx_mode, reg-txdone_isr, reg-set_dio_tx_mapping bus spid chip),
    simp (reg-tx_mode, reg-txdone_isr, reg-set_dio_tx_mapping bus spid chip),
    simp (reg-tx_mode, reg-txdone_isr, reg-set_dio_tx_mapping bus spid chip),
    simp (reg-tx_mode, reg-txdone_isr, reg-set_dio_tx_mapping bus spid chip),
    fun_ext λ a.
        simp
          (fifo-set_tx_mode bus spid chip, fifo-txdone_isr, fifo-set_dio_tx_mapping bus spid chip),
  )

-- The number of bytes that `LoRa_send` transmits.
abbrev pub sent_size : LoraCtl → ℕ
sent_size m = if m.eth.implicit_header then m.eth.payload_len else m.tx.size

-- The modem transmits the packet of `m`: it is in transmit mode, signals TxDone on DIO0, and its FIFO
-- holds the packet at the transmit base.
pub record IsSending (m : LoraCtl) (mode : ℕ) (r f : ℕ → ℕ) : Type 0 where
  pub transmitting : r 0x01 ≡ mode / 8 * 8 + 3
  pub dio0 : r 0x40 ≡ 0x40
  pub announced : r 0x22 ≡ sent_size m
  pub contents : fifo_slice f 0 (sent_size m) ≡ take (sent_size m) m.tx.buf
  pub optimized : r 0x26 / 8 % 2 ≡ bit (lora_calculate_packet_t m).eth.low_data_rate_optimize

module _ (bus : Bus) (m : LoraCtl) (chip : Chip bus m.spid) where
  open bus use {World}
  open chip use {reg, fifo}

  -- If the buffer holds the bytes that are to be sent, fewer than 256, then after `LoRa_send` the modem
  -- transmits exactly these.
  pub lora_send-IsSending :
      (w : World)
      → sent_size m ≤ length m.tx.buf
      → sent_size m < 256
      → IsSending m (reg w 0x01) (reg (lora_send bus m w).1) (fifo (lora_send bus m w).1)
  unfolding lora_send fire
  lora_send-IsSending w enough fits = record {
    transmitting = omega (arith, last.0, stock.0, first.0);
    dio0 = last.3;
    announced = last.1 ∙ stock.1 ∙ mod-eq_of_lt fits;
    contents = rw last.4 held;
    optimized = rw (last.2, stock.2, first.1) (slow_bit_lem slow (reg w 0x26) (chip.reg_lt w 0x26));
  }
    where
      slow : Bool
      slow = (lora_calculate_packet_t m).eth.low_data_rate_optimize

      base : World
      base = set_lowdatarateoptimize bus m.spid slow (ensure_standby bus m.spid w)

      packet : List ℕ
      packet = take (sent_size m) m.tx.buf

      stocked : World
      stocked = (lora_write_fifo bus m.spid packet (sent_size m) base).1

      first :
          (reg base 0x01 ≡ reg w 0x01 / 8 * 8 + 1) × (reg base 0x26 ≡ slow_bit slow (reg w 0x26))
      first = prepared bus m.spid chip w slow

      stock :
          (reg stocked 0x01 ≡ reg base 0x01)
          × (reg stocked 0x22 ≡ sent_size m % 256)
          × (reg stocked 0x26 ≡ reg base 0x26)
      stock = filled bus m.spid chip base packet (sent_size m)

      last :
          let w' = fire bus m.spid chip m.eth.dio0_gpio_n stocked in
          (reg w' 0x01 ≡ reg stocked 0x01 / 8 * 8 + 3)
          × (reg w' 0x22 ≡ reg stocked 0x22)
          × (reg w' 0x26 ≡ reg stocked 0x26)
          × (reg w' 0x40 ≡ 0x40)
          × (fifo w' ≡ fifo stocked)
      last = fired bus m.spid chip stocked m.eth.dio0_gpio_n

      whole : length packet ≡ sent_size m
      whole = omega (arith, length-take (sent_size m) m.tx.buf)

      held : fifo_slice (fifo stocked) 0 (sent_size m) ≡ packet
      held =
          subst (λ n. fifo_slice (fifo stocked) 0 n ≡ packet) whole
            (write_fifo_lem bus m.spid chip base packet (sent_size m) (omega (arith, first.0))
              (omega (arith, whole)))

-- The modem receives continuously, and signals RxDone on DIO0.
pub record IsListening (m : LoraCtl) (mode : ℕ) (r : ℕ → ℕ) : Type 0 where
  pub receiving : r 0x01 ≡ mode / 8 * 8 + 5
  pub dio0 : r 0x40 ≡ 0x00
  pub optimized : r 0x26 / 8 % 2 ≡ bit (lora_calculate_packet_t m).eth.low_data_rate_optimize

module _ (bus : Bus) (m : LoraCtl) (chip : Chip bus m.spid) where
  open bus use {World}
  open chip use {reg}

  -- After `LoRa_receive` the modem listens, whatever mode it was in.
  pub lora_receive-IsListening :
      (w : World) → IsListening m (reg w 0x01) (reg (lora_receive bus m w).1)
  unfolding lora_receive
  lora_receive-IsListening w = record {
    receiving =
        simp
          (
            reg-rxcont_mode bus m.spid chip,
            reg-rxdone_isr bus m.spid chip,
            reg-set_dio_rx_mapping bus m.spid chip,
            reg-ensure_standby bus m.spid chip,
            reg-set_lowdatarateoptimize bus m.spid chip,
          )
          (omega arith);
    dio0 = simp (
      reg-rxcont_mode bus m.spid chip,
      reg-rxdone_isr bus m.spid chip,
      reg-set_dio_rx_mapping bus m.spid chip,
    );
    optimized =
        simp
          (
            reg-rxcont_mode bus m.spid chip,
            reg-rxdone_isr bus m.spid chip,
            reg-set_dio_rx_mapping bus m.spid chip,
            reg-ensure_standby bus m.spid chip,
            reg-set_lowdatarateoptimize bus m.spid chip,
          )
          (slow_bit_lem (lora_calculate_packet_t m).eth.low_data_rate_optimize (reg w 0x26)
            (chip.reg_lt w 0x26));
  }
