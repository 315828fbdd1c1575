-- ===== src/Node.antt =====
-- src/service_user_space/clientSPI/clientSPI.c: the daemon that polls a node on the SPI bus, and frames the
-- bytes that the node answers into JSON texts.
pub mod Framing
pub mod Overflow
pub mod Watching
pub mod Counts
pub mod Stream
mod Tests
use embeded_linux_gateway.Prelude.{
  ℕ, ◌+◌, Bool, true, false, ◌&&◌, not, ◌||◌, Option, none, some, List, [], ◌∷◌, ℤ, pos, ltb, ◌==◌,
  if◌then◌else◌, c_string, get_or, set, replicate,
}
use embeded_linux_gateway.Start.{Start, returned, looping, is_zero}
use embeded_linux_gateway.Receiver.{eq_ℤ}

abbrev pub respone_key : ℕ
respone_key = 99

abbrev pub respone_data : ℕ
respone_data = 97

-- The characters '{', '}' and '.', and those that are left out of a text: '.', 'a' and 'b'.
abbrev pub opening : ℕ
opening = 123

abbrev pub closing : ℕ
closing = 125

abbrev pub dot : ℕ
dot = 46

abbrev pub is_skipped : ℕ → Bool
is_skipped c = c == 46 || (c == 97 || c == 98)

-- The globals of the reading thread; `text` is `msgReceive1`, and `sent` the values of `dspi` sent to the
-- server, the latest first. `lost` is how often the loss of the node is reported.
pub record Link : Type 0 where
  pub ka : ℕ
  pub flag1 : Bool
  pub flag_detect : ℕ
  pub flag_detec_count : ℕ
  pub text : List ℕ
  pub sent : List ℤ
  pub lost : ℕ

-- `memset(&msgReceive1, '\0', sizeof(msgReceive1))`.
abbrev pub blank : List ℕ
blank = replicate 50 0

-- The test at the start of a round: after more than 3 requests without an answer the loss of the node is
-- reported.
pub watch : Link → Link
watch s =
    if ltb 3 s.flag_detec_count
    then (if s.flag_detect == 0
        then record s { lost = s.lost + 1; flag_detec_count = 0 }
        else record s { flag_detect = 0; flag_detec_count = 0 })
    else s

-- '{' begins a text; '.' gives the text up, and leaves `ka`.
pub mark : ℕ → Link → Link
mark c s =
    if c == opening
    then record s { flag1 = true }
    else if c == dot
    then record s { flag1 = false; text = blank }
    else s

-- `sendRequestToNode`.
unfoldable pub send_request_to_node : Link → Link
send_request_to_node s = record s { flag_detec_count = s.flag_detec_count + 1 }

-- "b*".
abbrev pub request_key : List ℕ
request_key = 98 ∷ 42 ∷ []

-- What is done on the SPI bus: the pin `SS0` is set, or bytes are written.
pub data Wire : Type 0 where
  pin : ℕ → Wire
  frame : List ℕ → Wire

-- `main` has timed out in `poll`, or the reading thread has a character. Each is handled as a whole.
pub data Event : Type 0 where
  asked : Event
  heard : ℕ → Event

-- Both threads: `receiving` is `flag_no_receive`, `wires` what was done on the bus, the latest first.
pub record Poller : Type 0 where
  pub link : Link
  pub receiving : Bool
  pub wires : List Wire

-- `setUpSPI`: no node is selected.
unfoldable pub set_up_spi : Poller → Poller
set_up_spi s = record s { wires = pin 1 ∷ s.wires }

-- The state at the start of the loop.
unfoldable pub first_state : Poller
unfolding set_up_spi
first_state = set_up_spi (record {
  link = record {
    ka = 0;
    flag1 = false;
    flag_detect = 0;
    flag_detec_count = 0;
    text = blank;
    sent = [];
    lost = 0;
  };
  receiving = false;
  wires = [];
})

-- `main` up to its loop, with the result of `pthread_create`.
unfoldable pub main_start : ℤ → Start Poller
main_start created = if is_zero created then looping first_state else returned (pos 0)

-- `parse` stands for the JSON library: the numbers of "keynode" and of "Temp" in a string.
module _ (parse : List ℕ → ℤ × ℤ) where
  -- What a whole text does.
  pub respond : List ℕ → Link → Link
  respond line s =
      let (key, temp) = parse (c_string line) in
      if eq_ℤ key respone_key
      then record s { flag_detect = s.flag_detect + 1 }
      else if eq_ℤ key respone_data
      then record s { flag_detect = s.flag_detect + 1; sent = temp ∷ s.sent }
      else s

  -- '}' ends a text that begins with '{'. `none` is an access past the end of the array: the write, or
  -- the parser's when no 0 is left.
  pub finish : ℕ → Link → Option Link
  finish c s =
      if c == closing && get_or s.text 0 0 == opening
      then (if ltb s.ka 49
          then some (respond (set s.text s.ka c) (record s { ka = 0; flag1 = false; text = blank }))
          else none)
      else some s

  -- Inside a text the character is kept, unless it is one of those left out.
  pub keep : ℕ → Link → Option Link
  keep c s =
      if s.flag1 && not (is_skipped c)
      then (if ltb s.ka 50
          then some (record s { text = set s.text s.ka c; ka = s.ka + 1 })
          else none)
      else some s

  -- A round of `while (flag_no_receive)`, with the character in `msgReceive[0]`.
  pub receive : ℕ → Link → Option Link
  receive c s = elim (finish c (mark c (watch s))) [ none ↦ none | some t ↦ keep c t ]

  -- Rounds for a sequence of characters.
  pub receive_all : List ℕ → Link → Option Link
  receive_all [] s = some s
  receive_all (c ∷ cs) s = elim (receive c s) [ none ↦ none | some t ↦ receive_all cs t ]

  -- The requests that are sent and the characters that come, in their order.
  unfoldable pub act : Event → Poller → Option Poller
  act asked s = some (record s {
    link = send_request_to_node s.link;
    receiving = true;
    wires = pin 1 ∷ frame request_key ∷ pin 0 ∷ s.wires;
  })
  act (heard c) s =
      if s.receiving
      then elim (receive c s.link) [ none ↦ none | some l ↦ some (record s { link = l }) ]
      else some s

  unfoldable pub act_all : List Event → Poller → Option Poller
  act_all [] s = some s
  act_all (e ∷ es) s = elim (act e s) [ none ↦ none | some t ↦ act_all es t ]
