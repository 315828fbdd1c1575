-- ===== src/SpiClient/Tests.antt =====
-- The theorems on the older SPI daemon at concrete runs.
use embeded_linux_gateway.Prelude.{◌≡◌, refl, true, false, pos}
use embeded_linux_gateway.SpiClient.{
  Client, reading, creating, polling, writing, first_state, main_start, set_up_spi, poll_timeout,
  Run, read_begins, read_ends, timeout, here, then_step,
}
use embeded_linux_gateway.SpiClient.Mutex.{IsExclusive, Run-IsExclusive, mutex_init_late}

-- The thread has read once before the mutex is created.
abbrev begins : Client
begins = first_state (pos 5)

abbrev polls : Client
polls = record begins { writer = polling; held = false }

abbrev reads : Client
reads = record polls { reader = reading; held = true }

reads_once : Run begins begins
unfolding set_up_spi
reads_once = then_step (then_step here (read_begins refl refl)) (read_ends (pos 1) refl)

Run-IsExclusive_example : IsExclusive (poll_timeout reads)
unfolding main_start set_up_spi
Run-IsExclusive_example =
    Run-IsExclusive (pos 5) (pos 0) {s = begins} {t = begins} {u = poll_timeout reads} refl
      reads_once refl refl (then_step (then_step here (read_begins refl refl)) (timeout refl))

mutex_init_late_example :
    (t : Client) × Run (record reads { writer = creating }) t
    × (t.reader ≡ reading)
    × (t.writer ≡ writing)
mutex_init_late_example = mutex_init_late (record reads { writer = creating }) refl refl
