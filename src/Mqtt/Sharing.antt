-- ===== src/Mqtt/Sharing.antt =====
-- `publish_mess` where several threads call it: the callbacks of the MQTT library and of the LoRa driver run beside
-- `main`, and all fill the one global `pubmsg` before the library reads it.
pub mod Mixing
pub mod Alone
mod Tests
use Prim.Native.String.{String}
use embeded_linux_gateway.Prelude.{
  ℕ, ◌≡◌, Option, none, some, List, [], ◌∷◌, ◌++◌, length, take, leb, if◌then◌else◌,
}

-- What a call does next: `payload`; `payloadlen`; `MQTTClient_publishMessage`.
pub data Place : Type 0 where
  filling measuring handing : Place

-- A call of `publish_mess`, with the string that `msg` leads to.
pub record Call : Type 0 where
  pub topic : String
  pub msg : List ℕ
  pub place : Place

-- `pubmsg`, the calls that have not ended, and what the library was given, the latest first: the topic, the string
-- that `payload` leads to, and `payloadlen`.
pub record Shared : Type 0 where
  pub payload : List ℕ
  pub payloadlen : ℕ
  pub calls : List Call
  pub handed : List (String × List ℕ × ℕ)

-- A step of a call, and the call after it.
unfoldable pub advance : Call → Shared → Shared × List Call
advance c s = elim c.place [
  | filling ↦ (record s { payload = c.msg }, record c { place = measuring } ∷ [])
  | measuring ↦ (record s { payloadlen = length c.msg }, record c { place = handing } ∷ [])
  | handing ↦ (record s { handed = (c.topic, s.payload, s.payloadlen) ∷ s.handed }, [])
]

-- A call begins, or one of them goes on.
pub data Step : Shared → Shared → Type 0 where
  calls_it :
      {s : Shared} (topic : String) (msg : List ℕ)
      → Step s (record s { calls = record { topic = topic; msg = msg; place = filling } ∷ s.calls })
  goes_on :
      {s : Shared} (xs ys : List Call) (c : Call)
      → s.calls ≡ xs ++ (c ∷ ys)
      → Step s (record (advance c s).0 { calls = xs ++ ((advance c s).1 ++ ys) })

pub data Run (s : Shared) : Shared → Type 0 where
  here : Run s s
  then_step : {t u : Shared} → Run s t → Step t u → Run s u

-- The bytes that the library takes; `none` if the length leads it past the end of the string.
unfoldable pub bytes_of : String × List ℕ × ℕ → Option (List ℕ)
bytes_of (topic, text, n) = if leb n (length text) then some (take n text) else none
