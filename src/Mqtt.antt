-- ===== src/Mqtt.antt =====
-- The calls of the MQTT client library that the daemons make, as the messages that they publish:
-- `publish_mess` of src/mqtt_client/mqtt_client.c, and the same function in the other daemons.
pub mod Sharing
use Prim.Native.String.{String}
use embeded_linux_gateway.Prelude.{ℕ, Bool, false, List, c_string}

-- What `MQTTClient_publishMessage` is given.
pub record Message : Type 0 where
  pub topic : String
  pub payload : List ℕ
  pub qos : ℕ
  pub retained : Bool

-- `msg` is the memory that the pointer leads to; the length is that of the string in it.
unfoldable pub publish_mess : String → List ℕ → Message
publish_mess topic msg = record { topic = topic; payload = c_string msg; qos = 1; retained = false }
