-- ===== src/Mqtt.antt =====
-- tranceiver-mqtt.cpp and the sending of tranceiver-ws.cpp. The client of MQTT and the websockets
-- are parameters.
use ham_router.Common.{ℕ, List, length, Bool, true, not, ◌==◌, if◌then◌else◌, some}
use ham_router.Transmit.{TransmitError, te_ok, te_hardware}
use ham_router.Message.{Message, message, get_content}
use ham_router.Message.Json.{Printing, message_to_json}
use ham_router.Seen.{Cells}
use ham_router.Tranceiver.{Site, Tranceiver, Queued, queue_incoming_message}
use ham_router.Config.Devices.Servers.{Mqtt}

-- `mosquitto_publish` of a topic and bytes, with its error code, and what pushes to the websockets.
pub record Broker : Type 1 where
  pub World : Type 0
  pub publish : List ℕ → List ℕ → World → ℕ × World
  pub push_to_websockets : List ℕ → World → World

abbrev pub mosq_err_success : ℕ
mosq_err_success = 0

-- `on_mqtt_message`
unfoldable pub on_mqtt_message : Site → ℕ → ℕ → ℕ → List ℕ → Tranceiver → Cells → List ℕ → Queued
on_mqtt_message site self tv msg_id payload t cells work =
    queue_incoming_message site self (message tv (some self) msg_id payload) t cells work

module _ (b : Broker) (p : Printing) where
  open b use {World, publish, push_to_websockets}

  -- A topic that is empty gets nothing.
  unfoldable pub publish_to : List ℕ → List ℕ → World → Bool × World
  publish_to topic bytes w =
      let (err, w') = publish topic bytes w in
      if length topic == 0 then (true, w) else (err == mosq_err_success, w')

  -- `put_message_low` of MQTT.
  unfoldable pub put_mqtt : Mqtt → Message → World → TransmitError × World
  unfolding publish_to
  put_mqtt t m w =
      let (sent, w1) = publish_to t.topic_out (get_content m) w in
      if not sent
      then (te_hardware, w1)
      else (let (json_sent, w2) = publish_to t.topic_out_json (message_to_json p m) w1 in
          (if not json_sent then te_hardware else te_ok, w2))

  -- `put_message_low` of the websockets.
  unfoldable pub put_ws : Message → World → TransmitError × World
  put_ws m w = (te_ok, push_to_websockets (message_to_json p m) w)
