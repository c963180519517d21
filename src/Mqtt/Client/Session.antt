-- ===== src/Mqtt/Client/Session.antt =====
-- The MQTT client with a broker that keeps what it is asked for: one session at a time, since the
-- client asks for clean sessions.
use oasis_modbus2mqtt.Prelude.{ℕ, ◌≡◌, Bool, true, false, Option, List, [], ◌∷◌, length}
use oasis_modbus2mqtt.Prelude.Text.{Text}
use oasis_modbus2mqtt.Prelude.Dict.{lookup, latest, Distinct}
use oasis_modbus2mqtt.Config.{MqttConfig}
use oasis_modbus2mqtt.Mqtt.Topics.{TopicBuilder}
use oasis_modbus2mqtt.Port.{Ctx}
use oasis_modbus2mqtt.Mqtt.Client.{
  Waited, MessageHandler, PahoHandler, Paho, Subscriptions, Client, new_client, connect, publish,
  subscribe, on_connect, on_connection_lost, disconnect,
}

-- The subscriptions asked for in this session, the newest first, and what was published, the
-- newest first, over all sessions.
pub record Session (X : Type 0) : Type 0 where
  pub asked : List (Text × PahoHandler X)
  pub sent : List (Text × Text × Bool)

abbrev pub silence : {X : Type 0} → Session X
silence = record { asked = []; sent = [] }

-- The n-th answer is `respond n`, whatever it is.
unfoldable pub recording : {X : Type 0} → (ℕ → Waited) → Paho X (Session X)
recording respond = record {
  connect = λ limit options w. (respond 0, w);
  publish = λ limit topic qos retained payload w.
      (respond (length w.sent), record w { sent = (topic, payload, retained) ∷ w.sent });
  subscribe = λ limit topic qos handler w.
      (respond (length w.asked), record w { asked = (topic, handler) ∷ w.asked });
  disconnect = λ quiesce w. w;
}

-- The order in which Go walks through a map meets every entry, so that the last handler that it
-- meets for a topic is that of the topic.
abbrev pub WalksThrough : {X : Type 0} → (Subscriptions X → Subscriptions X) → Type 0
WalksThrough {X} order =
    (subs : Subscriptions X) (t : Text) → Distinct subs → latest t (order subs) ≡ lookup t subs

module _ {X : Type 0} (respond : ℕ → Waited) (cfg : MqttConfig) (topics : TopicBuilder)
    (order : Subscriptions X → Subscriptions X) where
  -- A connection that comes up starts a session, and calls `onConnect`.
  unfoldable pub come_up : Client X (Session X) → Client X (Session X)
  come_up c =
      on_connect (recording respond) cfg topics order
        (record c { world = record (c.world) { asked = [] } })

  -- What can happen: calls of the program, and callbacks of the library that `Connect` made. The
  -- program calls `Connect` once.
  pub data Move (c d : Client X (Session X)) : Type 0 where
    connects :
        (ctx : Ctx)
        → c.built ≡ false
        → d ≡ (connect (recording respond) cfg topics ctx c).1
        → Move c d
    publishes :
        (ctx : Ctx) (topic payload : Text) (retained : Bool)
        → d ≡ (publish (recording respond) cfg topics ctx topic payload retained c).1
        → Move c d
    subscribes :
        (ctx : Ctx) (topic : Text) (handler : Option (MessageHandler X))
        → d ≡ (subscribe (recording respond) cfg topics ctx topic handler c).1
        → Move c d
    comes_up : c.built ≡ true → d ≡ come_up c → Move c d
    loses : d ≡ on_connection_lost c → Move c d
    disconnects : (quiesce : ℕ) → d ≡ disconnect (recording respond) cfg topics quiesce c → Move c d

  pub data Reach : Client X (Session X) → Type 0 where
    fresh : Reach (new_client silence)
    next : {c d : Client X (Session X)} → Reach c → Move c d → Reach d
