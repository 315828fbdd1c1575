-- ===== src/Uart.antt =====
-- src/service_user_space/clientUART/ClientUART.c: the daemon that publishes the messages of a Bluetooth node
-- on the serial line.
pub mod Reads
pub mod Reopening
use embeded_linux_gateway.Prelude.{
  ℕ, ◌+◌, not, Bool, true, false, Option, none, some, List, [], ◌∷◌, ℤ, ltb, if◌then◌else◌, length,
  overlay, replicate, c_string,
}
use embeded_linux_gateway.Mqtt.{Message, publish_mess}
use embeded_linux_gateway.Start.{Start, exited, looping}
use embeded_linux_gateway.Server.{codes, starts_with}
use embeded_linux_gateway.Receiver.{eq_ℤ}

abbrev pub id_blue : ℕ
id_blue = 97

-- The counter `count` and the messages published, the latest first.
pub record Uart : Type 0 where
  pub count : ℕ
  pub published : List Message

-- `msgarrvd`, with the topic.
unfoldable pub msgarrvd : List ℕ → Uart → ℕ × Uart
msgarrvd topic_name s = (
  1,
  if starts_with (codes "sdt_wifi") topic_name
      then record s {
        published = publish_mess "sdt_server" (codes "{\"type\":\"wifi\"}") ∷ s.published;
      }
      else s,
)

-- The daemon with the descriptor of its serial line, and all descriptors that it opened and closed, the latest
-- first.
pub record Line : Type 0 where
  pub uart : Uart
  pub fd : ℤ
  pub opened : List ℤ
  pub closed : List ℤ

-- The line is opened anew at each alarm; `fd` is the result, also of an attempt that fails.
unfoldable pub timer_handler : ℤ → Line → Line
timer_handler fd s = record s { fd = fd; opened = fd ∷ s.opened; closed = s.fd ∷ s.closed }

-- `main` up to its loop, with whether `MQTTClient_connect` succeeds and the result of `serialOpen1`. An alarm
-- that comes before the line is open is left out.
unfoldable pub main_start : Bool → ℤ → Start Line
main_start connected fd =
    if not connected
    then exited 1
    else looping (record {
      uart = record { count = 0; published = [] };
      fd = fd;
      opened = fd ∷ [];
      closed = [];
    })

-- What happens in the loop: an alarm, with the result of `serialOpen1`; a read, with its result; a message of
-- the broker, with its topic.
pub data Event : Type 0 where
  alarm : ℤ → Event
  data_avail : Option (List ℕ) → Event
  arrives : List ℕ → Event

-- `parse` stands for the JSON library: the number of "id" in a string.
module _ (parse : List ℕ → ℤ) where
  -- The body of `while(serialDataAvail1(fd))`, with what `read` gives: `none` for an error, else at most 50
  -- bytes, which go into the zeroed `msg[50]`.
  unfoldable pub read_message : Option (List ℕ) → Uart → Uart
  read_message none s = s
  read_message (some bs) s =
      let msg = overlay bs (replicate 50 0) in
      let s1 = record s { count = s.count + 1 } in
      if ltb 41 (length bs)
      then (if eq_ℤ (parse (c_string msg)) id_blue
          then record s1 { published = publish_mess "data_bl" msg ∷ s.published }
          else s1)
      else s

  pub read_messages : List (Option (List ℕ)) → Uart → Uart
  read_messages [] s = s
  read_messages (r ∷ rs) s = read_messages rs (read_message r s)

  unfoldable pub act : Event → Line → Line
  act (alarm fd) s = timer_handler fd s
  act (data_avail r) s = record s { uart = read_message r s.uart }
  act (arrives topic_name) s = let (ret, u) = msgarrvd topic_name s.uart in record s { uart = u }

  unfoldable pub act_all : List Event → Line → Line
  act_all [] s = s
  act_all (e ∷ es) s = act_all es (act e s)
