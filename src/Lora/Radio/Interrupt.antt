-- ===== src/Lora/Radio/Interrupt.antt =====
-- The interrupt handlers: the packet that `rxDoneISRf` hands to the callback.
use embeded_linux_gateway.Prelude.{
  ℕ, ◌%◌, ◌<◌, ◌≡◌, refl, fun_ext, bit_and, Bool, false, not, some, arith, ◌==◌, if◌then◌else◌,
  overlay,
}
use native.Mathlib.Nat.{mod-eq_of_lt}
use embeded_linux_gateway.Lora.Regs.{LoraCtl}
use embeded_linux_gateway.Lora.Bus.{Bus, Chip, Callback, fifo_slice}
use embeded_linux_gateway.Lora.Spi.{lora_reg_read_byte, lora_reg_write_byte, lora_reg_read_bytes}
use embeded_linux_gateway.Lora.Spi.Laws.{read_byte, reg-read, fifo-read, reg-write, fifo-write}
use embeded_linux_gateway.Lora.Spi.Fetch.{read_bytes_lem, reg-read_bytes}
use embeded_linux_gateway.Lora.Setup.{lora_reset_irq_flags}
use embeded_linux_gateway.Lora.Setup.Irq.{reg-reset_irq_flags}
use embeded_linux_gateway.Lora.Radio.{
  char_value, rssi_of, lora_get_rssi_pkt, lora_get_snr, rx_done_isr_f,
}

-- The number of bytes of the packet.
abbrev pub received_size : LoraCtl → (ℕ → ℕ) → ℕ
received_size m r = if m.eth.implicit_header then m.eth.payload_len else r 0x13

-- The modem with the packet that stands in the FIFO `f`: its bytes go over the start of the buffer.
abbrev pub received : Bool → LoraCtl → (ℕ → ℕ) → (ℕ → ℕ) → LoraCtl
received signed m r f = record m {
  rx = record {
    buf = overlay (fifo_slice f (r 0x10) (received_size m r)) m.rx.buf;
    size = received_size m r;
    snr_quarters = char_value signed (r 0x19);
    rssi = rssi_of m.eth.freq (r 0x1a);
    crc = not (bit_and (r 0x12) 0x20 == 0);
  };
}

module _ (bus : Bus) (signed : Bool) (m : LoraCtl) (chip : Chip bus m.spid) where
  open bus use {World, pthread_create}
  open chip use {reg, fifo}

  -- The world after a register is read, and the register's value.
  seen : ℕ → World → World
  seen r w = (lora_reg_read_byte bus m.spid r w).1

  seen_lem :
      (w : World) (r : ℕ)
      → 0 < r
      → r < 128
      → ((lora_reg_read_byte bus m.spid r w).0 ≡ reg w r)
        × (reg (seen r w) ≡ reg w)
        × (fifo (seen r w) ≡ fifo w)
  unfolding seen
  seen_lem w r h k = (
    read_byte bus m.spid chip w r h k,
    fun_ext λ q. reg-read bus m.spid chip w r q h k,
    fun_ext λ a. fifo-read bus m.spid chip w r a h k,
  )

  -- The world in which the address pointer is set.
  aimed : World → World
  aimed w = (lora_reg_write_byte bus m.spid 0x0d (reg w 0x10) (seen 0x10 (seen 0x12 w))).1

  aimed_lem :
      (w : World)
      → (reg (aimed w) ≡ (λ q. if q == 0x0d then reg w 0x10 else reg w q))
        × (fifo (aimed w) ≡ fifo w)
  unfolding aimed
  aimed_lem w = (
    fun_ext λ q. rw (
      reg-write bus m.spid chip (seen 0x10 (seen 0x12 w)) 0x0d q (reg w 0x10) (omega arith) refl,
      mod-eq_of_lt (chip.reg_lt w 0x10),
      (seen_lem (seen 0x12 w) 0x10 (omega arith) (omega arith)).1,
      (seen_lem w 0x12 (omega arith) (omega arith)).1,
    ),
    fun_ext λ a. rw (
      fifo-write bus m.spid chip (seen 0x10 (seen 0x12 w)) 0x0d a (reg w 0x10) (omega arith) refl,
      (seen_lem (seen 0x12 w) 0x10 (omega arith) (omega arith)).2,
      (seen_lem w 0x12 (omega arith) (omega arith)).2,
    ),
  )

  -- The world in which the FIFO is read.
  ready : World → World
  ready w = if m.eth.implicit_header then aimed w else seen 0x13 (aimed w)

  ready_lem :
      (w : World)
      → (reg (ready w) ≡ (λ q. if q == 0x0d then reg w 0x10 else reg w q))
        × (fifo (ready w) ≡ fifo w)
  unfolding ready
  ready_lem w = ground (arith, aimed_lem w, seen_lem (aimed w) 0x13 (omega arith) (omega arith))

  fetched : ℕ → World → World
  fetched n w = (lora_reg_read_bytes bus m.spid 0x00 n w).2

  addr_lem : (w : World) → (lora_reg_read_byte bus m.spid 0x10 (seen 0x12 w)).0 ≡ reg w 0x10
  addr_lem w = rw (
    (seen_lem (seen 0x12 w) 0x10 (omega arith) (omega arith)).0,
    (seen_lem w 0x12 (omega arith) (omega arith)).1,
  )

  size_lem : (w : World) → (lora_reg_read_byte bus m.spid 0x13 (aimed w)).0 ≡ reg w 0x13
  size_lem w = rw ((seen_lem (aimed w) 0x13 (omega arith) (omega arith)).0, (aimed_lem w).0)

  got_lem :
      (w : World) (n : ℕ)
      → 0 < reg w 0x01 % 8
      → n < 256
      → (lora_reg_read_bytes bus m.spid 0x00 n (ready w)).0
        ≡ some (fifo_slice (fifo w) (reg w 0x10) n)
  got_lem w n awake small = rw (
    read_bytes_lem bus m.spid chip (ready w) n (rw (ready_lem w).0 awake) small,
    (ready_lem w).0,
    (ready_lem w).1,
  )

  after_fetch : (w : World) (n q : ℕ) → (q == 0x0d) ≡ false → reg (fetched n (ready w)) q ≡ reg w q
  unfolding fetched
  after_fetch w n q h = rw (reg-read_bytes bus m.spid chip (ready w) n q h, (ready_lem w).0, h)

  irq_lem :
      (w : World) (n : ℕ)
      → (lora_reg_read_byte bus m.spid 0x12 (fetched n (ready w))).0 ≡ reg w 0x12
  irq_lem w n =
      rw ((seen_lem (fetched n (ready w)) 0x12 (omega arith) (omega arith)).0)
        (after_fetch w n 0x12 refl)

  rssi_lem :
      (w : World) (n : ℕ)
      → (lora_reg_read_byte bus m.spid 0x1a (seen 0x12 (fetched n (ready w)))).0 ≡ reg w 0x1a
  rssi_lem w n =
      rw
        (
          (seen_lem (seen 0x12 (fetched n (ready w))) 0x1a (omega arith) (omega arith)).0,
          (seen_lem (fetched n (ready w)) 0x12 (omega arith) (omega arith)).1,
        )
        (after_fetch w n 0x1a refl)

  snr_lem :
      (w : World) (n : ℕ)
      → (lora_reg_read_byte bus m.spid 0x19 (seen 0x1a (seen 0x12 (fetched n (ready w))))).0
        ≡ reg w 0x19
  snr_lem w n =
      rw
        (
          (seen_lem (seen 0x1a (seen 0x12 (fetched n (ready w)))) 0x19 (omega arith)
              (omega arith)).0,
          (seen_lem (seen 0x12 (fetched n (ready w))) 0x1a (omega arith) (omega arith)).1,
          (seen_lem (fetched n (ready w)) 0x12 (omega arith) (omega arith)).1,
        )
        (after_fetch w n 0x19 refl)

  pub rx_done_isr_f-received :
      (w : World)
      → (bit_and (reg w 0x12) 0x40 == 0) ≡ false
      → 0 < reg w 0x01 % 8
      → received_size m (reg w) < 256
      → let m' = received signed m (reg w) (fifo w) in
        (w' : World) × (rx_done_isr_f bus signed m w
          ≡ some (m', pthread_create (Callback.rx_callback m') w'))
        × (reg w' 0x12 ≡ 0)
  unfolding rx_done_isr_f seen aimed ready fetched lora_get_rssi_pkt lora_get_snr
  rx_done_isr_f-received w done awake small = (
    lora_reset_irq_flags bus m.spid (seen 0x19 (seen 0x1a (seen 0x12 (fetched n (ready w))))),
    rw
        (
          rx_done_isr_f,
          (seen_lem w 0x12 (omega arith) (omega arith)).0,
          done,
          addr_lem w,
          size_lem w,
          got_lem w n awake small,
        )
        (rw (addr_lem w, size_lem w, irq_lem w n, rssi_lem w n, snr_lem w n)),
    reg-reset_irq_flags bus m.spid chip (seen 0x19 (seen 0x1a (seen 0x12 (fetched n (ready w)))))
        0x12,
  )
    where
      n : ℕ
      n = received_size m (reg w)
