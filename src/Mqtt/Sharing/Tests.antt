-- ===== src/Mqtt/Sharing/Tests.antt =====
-- The theorems on `pubmsg` at concrete runs: a text of the LoRa node and one of an RF24 node.
use mathlib.Core.List.{Perm}
use embeded_linux_gateway.Prelude.{◌≡◌, refl, none, [], ◌∷◌, ◌++◌, arith}
use embeded_linux_gateway.Server.{codes}
use embeded_linux_gateway.Mqtt.Sharing.{
  filling, measuring, handing, Call, Shared, advance, calls_it, goes_on, Run, here, then_step,
  bytes_of,
}
use embeded_linux_gateway.Mqtt.Sharing.Alone.{Run-asked_for}
use embeded_linux_gateway.Mqtt.Sharing.Mixing.{mixed, Run-mixed, Run-torn}

abbrev quiet : Shared
quiet = record { payload = []; payloadlen = 0; calls = []; handed = [] }

abbrev lora : Call
lora = record { topic = "data_lora"; msg = codes "{id:95}"; place = filling }

abbrev rf : Call
rf = record { topic = "data_rf"; msg = codes "{}"; place = filling }

abbrev published : Shared
published = record {
  payload = codes "{id:95}";
  payloadlen = 7;
  calls = [];
  handed = ("data_lora", codes "{id:95}", 7) ∷ [];
}

one_call : Run quiet published
unfolding advance
one_call =
    then_step
      (then_step
        (then_step (then_step here (calls_it "data_lora" (codes "{id:95}")))
          (goes_on [] [] lora refl))
        (goes_on [] [] (record lora { place = measuring }) refl))
      (goes_on [] [] (record lora { place = handing }) refl)

Run-asked_for_example : published.handed ≡ ("data_lora", codes "{id:95}", 7) ∷ []
unfolding one_call
Run-asked_for_example = Run-asked_for one_call (tt, refl) refl refl

-- Both calls have filled `pubmsg`, that of the RF24 node last.
abbrev filled : Shared
filled = record {
  payload = codes "{}";
  payloadlen = 2;
  calls = record rf { place = handing } ∷ record lora { place = handing } ∷ [];
  handed = [];
}

abbrev emptied : Shared
emptied = record filled {
  calls = [];
  handed = ("data_rf", codes "{}", 2) ∷ ("data_lora", codes "{}", 2) ∷ [];
}

hands_over : Run filled emptied
unfolding advance
hands_over =
    then_step
      (then_step here
        (goes_on (record rf { place = handing } ∷ []) [] (record lora { place = handing }) refl))
      (goes_on [] [] (record rf { place = handing }) refl)

Run-mixed_example : Perm emptied.handed (mixed (codes "{}") 2 filled.calls ++ [])
unfolding hands_over
Run-mixed_example = Run-mixed hands_over tt (refl, (refl, tt)) refl

Run-torn_example :
    (t : Shared) × Run quiet t
    × (t.handed ≡ ("data_lora", codes "{}", 7) ∷ [])
    × (bytes_of ("data_lora", codes "{}", 7) ≡ none)
Run-torn_example =
    Run-torn quiet "data_lora" "data_rf" (codes "{id:95}") (codes "{}") refl (omega arith)
