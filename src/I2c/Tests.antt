-- ===== src/I2c/Tests.antt =====
-- The scan's theorems at concrete inputs: the addresses 8 and 0x32 answer.
use embeded_linux_gateway.Prelude.{
  ℕ, refl, ◌≡◌, ◌⊎◌, true, false, ℤ, pos, negsuc, ◌==◌, if◌then◌else◌, arith, [],
}
use embeded_linux_gateway.I2c.{
  Master, Run, daemon_start, waiting, fires, here, then_step, timer_handler, res,
}
use embeded_linux_gateway.I2c.Recovery.{Run-finds}
use embeded_linux_gateway.I2c.Scan.{IsLast}

abbrev only_at : ℕ → ℕ → ℤ
only_at a i = if i == a then pos 0 else negsuc 0

abbrev fresh : Master
fresh = record {
  tries = 0;
  address = negsuc 0;
  reading = false;
  fd = pos 3;
  timed = true;
  count = 9;
  wrote = [];
}

-- The timer has fired once.
fired :
    Run
      (daemon_start (pos 3))
      (record { master = timer_handler (only_at 0x32) (only_at 8) fresh; pc = waiting })
fired = then_step here (fires (only_at 0x32) (only_at 8) refl)

-- Above 0x32 no address answers.
IsLast-node : IsLast (only_at 0x32) (only_at 8) 0 128 0x32
unfolding res
IsLast-node = record {
  low = omega arith;
  high = omega arith;
  answers = refl;
  last = λ k p q. ground arith;
}

Run-finds_example :
    let t = timer_handler (only_at 0x32) (only_at 8) fresh in
    let u = timer_handler (only_at 0x32) (only_at 8) t in
    ((t.address ≡ pos 0x32) × (t.timed ≡ false)) ⊎ ((u.address ≡ pos 0x32) × (u.timed ≡ false))
Run-finds_example =
    Run-finds (pos 3) {d = daemon_start (pos 3)} (only_at 0x32) (only_at 8) 0x32 here (omega arith)
      IsLast-node
