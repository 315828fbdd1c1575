-- ===== src/Node/Tests.antt =====
-- The framing theorems at concrete inputs, with a stand-in for the parser.
use embeded_linux_gateway.Prelude.{
  ℕ, ◌≡◌, ◌+◌, refl, false, none, some, List, [], ◌∷◌, ℤ, pos, negsuc, arith, replicate,
}
use embeded_linux_gateway.Node.{
  Link, opening, closing, dot, blank, respond, receive_all, Poller, asked, heard, first_state,
  main_start, act_all,
}
use embeded_linux_gateway.Node.Framing.{receive_all-text}
use embeded_linux_gateway.Node.Stream.{chars, framed, told, act_all-told}
use embeded_linux_gateway.Node.Overflow.{receive_all-dot}

-- "keynode" stands in the second character, "Temp" in the third.
abbrev second_and_third : List ℕ → ℤ × ℤ
second_and_third (x ∷ key ∷ temp ∷ line) = (pos key, pos temp)
second_and_third _ = (negsuc 0, negsuc 0)

abbrev idle : Link
idle = record {
  ka = 0;
  flag1 = false;
  flag_detect = 0;
  flag_detec_count = 2;
  text = blank;
  sent = [];
  lost = 0;
}

receive_all-text_example :
    receive_all second_and_third (opening ∷ 99 ∷ 30 ∷ closing ∷ []) idle
    ≡ some (respond second_and_third (opening ∷ 99 ∷ 30 ∷ closing ∷ []) idle)
receive_all-text_example =
    receive_all-text second_and_third (99 ∷ 30 ∷ []) idle (omega arith)
      (
        (omega arith, ground arith, ground arith, ground arith, ground arith),
        ((omega arith, ground arith, ground arith, ground arith, ground arith), tt),
      )
      (omega arith)

-- After "{c." every text in the buffer's way is "{{{{...".
receive_all-dot_example :
    receive_all second_and_third (opening ∷ 99 ∷ dot ∷ opening ∷ replicate 48 opening) idle ≡ none
receive_all-dot_example =
    receive_all-dot second_and_third (99 ∷ []) (replicate 48 opening) idle (omega arith)
      ((omega arith, ground arith, ground arith, ground arith, ground arith), tt) (omega arith)
      (ground arith) (omega arith)

-- "keynode" is one more than the second character.
abbrev shifted : List ℕ → ℤ × ℤ
shifted (x ∷ key ∷ temp ∷ line) = (pos (key + 1), pos temp)
shifted _ = (negsuc 0, negsuc 0)

-- A text with the key 97, with a request in its midst, and another one.
act_all-told_example :
    (t : Poller) × (act_all shifted
        (asked
          ∷ heard opening
          ∷ heard 96
          ∷ asked
          ∷ heard 30
          ∷ heard closing
          ∷ heard opening
          ∷ heard 33
          ∷ heard closing
          ∷ [])
        first_state
      ≡ some t)
    × (t.link.sent ≡ told shifted ((96 ∷ 30 ∷ []) ∷ (33 ∷ []) ∷ []) [])
unfolding main_start chars framed
act_all-told_example =
    act_all-told shifted (pos 0) {s = first_state}
      (heard opening
        ∷ heard 96
        ∷ asked
        ∷ heard 30
        ∷ heard closing
        ∷ heard opening
        ∷ heard 33
        ∷ heard closing
        ∷ [])
      ((96 ∷ 30 ∷ []) ∷ (33 ∷ []) ∷ []) refl refl
      (
        (
          (omega arith, ground arith, ground arith, ground arith, ground arith),
          ((omega arith, ground arith, ground arith, ground arith, ground arith), tt),
        ),
        omega arith,
        (
          ((omega arith, ground arith, ground arith, ground arith, ground arith), tt),
          omega arith,
          tt,
        ),
      )
