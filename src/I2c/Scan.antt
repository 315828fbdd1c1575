-- ===== src/I2c/Scan.antt =====
-- What a scan of the bus finds, and the order of the requests.
use embeded_linux_gateway.Prelude.{
  ℕ, zero, suc, ◌+◌, ◌%◌, ◌≤◌, ◌<◌, ◌≡◌, ◌⊎◌, inl, inr, refl, Bool, true, false, ℤ, pos, is_neg,
  ltb, ◌==◌, if◌then◌else◌, Bool-cases, ==_iff, get_or, arith,
}
use native.Mathlib.Nat.{add-zero}
use embeded_linux_gateway.I2c.{
  Master, res, probe, scan_address, timer_handler, key_request, data_request, request, requests,
}

module _ (read_byte write_quick : ℕ → ℤ) where
  -- No address from `i` up to `j` answers.
  abbrev pub Silent : ℕ → ℕ → Type 0
  Silent i j = (k : ℕ) → i ≤ k → k < j → is_neg (res read_byte write_quick k) ≡ true

  -- `a` is the greatest address below `j` that answers, from `i` on.
  pub record IsLast (i j a : ℕ) : Type 0 where
    pub low : i ≤ a
    pub high : a < j
    pub answers : is_neg (res read_byte write_quick a) ≡ false
    pub last : Silent (a + 1) j

  Silent-first :
      (i j : ℕ) → is_neg (res read_byte write_quick i) ≡ true → Silent (i + 1) j → Silent i j
  Silent-first i j h rest k p q = elim (Bool-cases (k == i)) [
    | inl e ↦ let same : k ≡ i = (==_iff k i).0 e in rw same h
    | inr e ↦ rest k (ground arith) q
  ]

  -- What rounds of the loop find.
  probe_cases :
      (n i j : ℕ) (flag : Bool) (s : Master)
      → j ≡ i + n
      → ((Silent i j) × (probe read_byte write_quick n i flag s ≡ (flag, s)))
        ⊎ ((a : ℕ) × IsLast i j a
            × (probe read_byte write_quick n i flag s ≡ (true, record s { address = pos a })))
  unfolding probe
  probe_cases zero i j flag s e = inl (λ k p q. absurd (omega arith), refl)
  probe_cases (suc n) i j flag s e = elim (Bool-cases (is_neg (res read_byte write_quick i))) [
    | inl quiet ↦ elim (probe_cases n (i + 1) j flag s (omega arith)) [
      | inl (silent, f) ↦ inl (Silent-first i j quiet silent, rw (probe, quiet) f)
      | inr (a, last, f) ↦ inr (
        a,
        record {
          low = omega (arith, last.low);
          high = last.high;
          answers = last.answers;
          last = last.last;
        },
        rw (probe, quiet) f,
      )
    ]
    | inr heard ↦ elim (probe_cases n (i + 1) j true (record s { address = pos i }) (omega arith)) [
      | inl (silent, f) ↦ inr (
        i,
        record { low = omega arith; high = omega arith; answers = heard; last = silent },
        rw (probe, heard) f,
      )
      | inr (a, last, f) ↦ inr (
        a,
        record {
          low = omega (arith, last.low);
          high = last.high;
          answers = last.answers;
          last = last.last;
        },
        rw (probe, heard) f,
      )
    ]
  ]

  -- With at most 4 tries behind it, the timer's handler counts one more and scans the 128 addresses. If
  -- none answers, the address becomes 200 and the timer is left as it is; else it becomes the greatest
  -- one that answers, and the timer stops exactly if that is not 0.
  pub timer_handler_scans :
      (s : Master)
      → s.tries ≤ 4
      → (Silent 0 128
          × (timer_handler read_byte write_quick s
              ≡ record s { tries = s.tries + 1; address = pos 200 }))
        ⊎ ((a : ℕ) × IsLast 0 128 a
            × (timer_handler read_byte write_quick s ≡ record s {
              tries = s.tries + 1;
              address = pos a;
              timed = if ltb 0 a then false else s.timed;
            }))
  unfolding timer_handler scan_address
  timer_handler_scans s few =
      elim (probe_cases 128 0 128 false (record s { tries = s.tries + 1 }) refl) [
        | inl (silent, f) ↦ inl (silent, rw (f, five s.tries few) refl)
        | inr (a, last, f) ↦ inr (a, last, rw (f, five s.tries few, low a last.high) refl)
      ]
    where
      five : (n : ℕ) → n ≤ 4 → ltb 5 (n + 1) ≡ false
      five n h = ground arith

      low : (a : ℕ) → a < 128 → ltb a 128 ≡ true
      low a h = ground arith

-- The request number `i` of any sequence of more than `i` is the one for the key exactly if `i` and the
-- count before the first make a multiple of 10 with 1: from `main`'s count of 9, the first and every
-- tenth after it.
pub requests_cycle :
    (n i count : ℕ)
    → i < n
    → get_or (requests n count) i data_request
      ≡ (if (count + 1 + i) % 10 == 0 then key_request else data_request)
unfolding requests request
requests_cycle zero i count h = absurd (omega arith)
requests_cycle (suc n) zero count h = rw (add-zero (count + 1)) refl
requests_cycle (suc n) (suc i) count h =
    let same : ((count + 1) % 10 + 1 + i) % 10 ≡ (count + 1 + suc i) % 10 = omega arith in
    rw (← same) (requests_cycle n i ((count + 1) % 10) (omega arith))
