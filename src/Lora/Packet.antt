-- ===== src/Lora/Packet.antt =====
-- LoRa.c: `LoRa_calculate_packet_t`, the time on air of a packet.
use embeded_linux_gateway.Prelude.{
  ℕ, ◌+◌, ◌-◌, ◌*◌, ◌/◌, ◌%◌, ◌^◌, ◌≡◌, refl, Bool, false, List, [], ◌∷◌, ltb, if◌then◌else◌,
  get_or,
}
use embeded_linux_gateway.Lora.Regs.{
  BandWidth, bw62_5, bw_code, SpreadingFactor, sf_code, sf7, ErrorCodingRate, ecr_code, LoraCtl,
}
use embeded_linux_gateway.Lora.Setup.{bit}

abbrev bw_val : List ℕ
bw_val = 7800 ∷ 10400 ∷ 15600 ∷ 20800 ∷ 31250 ∷ 41700 ∷ 62500 ∷ 125000 ∷ 250000 ∷ 500000 ∷ []

-- The bandwidth in Hz.
abbrev pub bw_hz : BandWidth → ℕ
bw_hz bw = get_or bw_val (bw_code bw / 16) 0

abbrev pub sf_bits : SpreadingFactor → ℕ
sf_bits sf = sf_code sf / 16

-- `Tsym > 16`, in ms. No quotient of a power of two by a bandwidth is 16 ms, so rounding plays no part.
pub is_slow : BandWidth → SpreadingFactor → Bool
is_slow bw sf = ltb (16 * bw_hz bw) (2 ^ sf_bits sf * 1000)

-- `tmpPoly`, with the negative values at 0 as the code sets them: `-` on ℕ stops there.
pub tmp_poly : ℕ → SpreadingFactor → Bool → ℕ
tmp_poly payload sf implicit = 8 * payload + 28 + 16 - (4 * sf_bits sf + 20 * bit implicit)

-- The bits of one block of symbols, `4*(sf - 2*lowDataRateOptimize)`.
pub block_bits : SpreadingFactor → Bool → ℕ
block_bits sf slow = 4 * (sf_bits sf - 2 * bit slow)

-- `ceil` of the quotient of two whole numbers.
pub ceil_div : ℕ → ℕ → ℕ
ceil_div a b = (a + (b - 1)) / b

pub payload_symb_nb_of : ℕ → SpreadingFactor → ErrorCodingRate → Bool → Bool → ℕ
payload_symb_nb_of payload sf ecr implicit slow =
    8
    + ceil_div (tmp_poly payload sf implicit) (block_bits sf slow) * ((4 + ecr_code ecr / 2) % 256)

unfoldable pub lora_calculate_packet_t : LoraCtl → LoraCtl
unfolding is_slow payload_symb_nb_of tmp_poly block_bits ceil_div
lora_calculate_packet_t m =
    let eth = m.eth in
    let slow = is_slow eth.bw eth.sf in
    let payload : ℕ = (if eth.implicit_header then eth.payload_len else m.tx.size) in
    let nb = payload_symb_nb_of payload eth.sf eth.ecr eth.implicit_header slow in
    let sym = 2 ^ sf_bits eth.sf * 1000 in
    record m {
      eth = record eth { low_data_rate_optimize = slow };
      tx = record m.tx {
        t_sym = record { num = sym; den = bw_hz eth.bw };
        t_pkt = record { num = (4 * (nb + eth.preamble_len) + 17) * sym; den = 4 * bw_hz eth.bw };
        payload_symb_nb = nb;
      };
    }

-- The calculation changes the configuration in one place.
pub lora_calculate_packet_t-eth :
    (m : LoraCtl)
    → (lora_calculate_packet_t m).eth
      ≡ record m.eth { low_data_rate_optimize = is_slow m.eth.bw m.eth.sf }
unfolding lora_calculate_packet_t
lora_calculate_packet_t-eth m = refl

-- At 62.5 kHz and spreading factor 7 a symbol is short.
pub is_slow_gateway : is_slow bw62_5 sf7 ≡ false
unfolding is_slow
is_slow_gateway = refl
