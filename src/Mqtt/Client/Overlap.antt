-- ===== src/Mqtt/Client/Overlap.antt =====
-- `Subscribe` and `onConnect` of the MQTT client as they overlap: what each does under the lock, or to
-- the flag, is a step, and so is each of their requests to the broker.
pub mod Restored
pub mod Alone
use oasis_modbus2mqtt.Prelude.{
  ℕ, ◌+◌, ◌≡◌, refl, sym, ap, ◌∙◌, ◌⊎◌, inl, inr, Bool, true, false, not, ◌||◌, some, List, [], ◌∷◌,
  ◌++◌, arith, if◌then◌else◌, Bool-cases, Among,
}
use mathlib.Core.Path.{subst}
use oasis_modbus2mqtt.Prelude.Text.{Text, text_eq}
use oasis_modbus2mqtt.Prelude.Dict.{lookup, insert, lookup-insert, eq_of_text_eq}
use oasis_modbus2mqtt.Mqtt.Client.{
  Waited, subscribe_handler, resubscribe, on_connect, availability_online, MessageHandler,
  make_paho_handler, Subscriptions, Client, on_connection_lost, set_mqtt_connected,
}
use oasis_modbus2mqtt.Mqtt.Topics.{TopicBuilder, availability_topic}
use oasis_modbus2mqtt.Config.{MqttConfig}
use oasis_modbus2mqtt.Port.{Ctx}
use oasis_modbus2mqtt.Mqtt.Client.Session.{Session, recording, come_up}

-- The client, the requests that calls have still to make, and whether `onConnect` has copied the
-- registry since the connection came up.
pub record Overlap (X : Type 0) : Type 0 where
  pub client : Client X (Session X)
  pub pending : Subscriptions X
  pub copied : Bool

module _ {X : Type 0} where
  -- The locked part of `Subscribe`: its request is pending if the flag was up.
  unfoldable pub store : Text → MessageHandler X → Overlap X → Overlap X
  store topic handler o = record o {
    client = record (o.client) { subs = insert topic handler o.client.subs };
    pending =
        if not o.client.connected || not o.client.built
        then o.pending
        else (topic, handler) ∷ o.pending;
  }

  -- A session begins, and `onConnect` raises the flag.
  unfoldable pub raise_flag : Overlap X → Overlap X
  unfolding set_mqtt_connected
  raise_flag o = record o {
    client = set_mqtt_connected true (record (o.client) {
      connected = true;
      reconnects = o.client.reconnects + 1;
      world = record (o.client.world) { asked = [] };
    });
    copied = false;
  }

  -- The locked part of `Connect`.
  unfoldable pub build_client : Overlap X → Overlap X
  build_client o = record o { client = record (o.client) { built = true } }

  -- The locked part of `onConnect`, and its publication: the requests of its loop are pending.
  unfoldable pub copy : TopicBuilder → (Subscriptions X → Subscriptions X) → Overlap X → Overlap X
  copy topics order o = record o {
    client = record (o.client) {
      world = record (o.client.world) {
        sent = (availability_topic topics, availability_online, true) ∷ o.client.world.sent;
      };
    };
    pending = order o.client.subs ++ o.pending;
    copied = true;
  }

  -- The broker is asked for one of the pending requests; `rest` are the others.
  unfoldable pub ask : Text × MessageHandler X → Subscriptions X → Overlap X → Overlap X
  ask entry rest o = record o {
    client = record (o.client) {
      world = record (o.client.world) {
        asked = (entry.0, make_paho_handler entry.1) ∷ o.client.world.asked;
      };
    };
    pending = rest;
  }

  unfoldable pub lose : Overlap X → Overlap X
  unfolding on_connection_lost
  lose o = record o { client = on_connection_lost o.client }

  -- The broker is asked for the pending requests in turn.
  unfoldable pub ask_each : Subscriptions X → Overlap X → Overlap X
  unfolding ask
  ask_each [] o = o
  ask_each (entry ∷ rest) o = ask_each rest (ask entry rest o)

  module _ (topics : TopicBuilder) (order : Subscriptions X → Subscriptions X) where
    -- The steps, in whatever order they come.
    pub data Step (o p : Overlap X) : Type 0 where
      builds : p ≡ build_client o → Step o p
      stores : (topic : Text) (handler : MessageHandler X) → p ≡ store topic handler o → Step o p
      raises : o.client.built ≡ true → p ≡ raise_flag o → Step o p
      copies : p ≡ copy topics order o → Step o p
      asks :
          (before : Subscriptions X) (entry : Text × MessageHandler X) (after : Subscriptions X)
          → o.pending ≡ before ++ (entry ∷ after)
          → p ≡ ask entry (before ++ after) o
          → Step o p
      loses : p ≡ lose o → Step o p

    pub data Run : Overlap X → Type 0 where
      begin :
          (c : Client X (Session X))
          → c.connected ≡ false
          → Run (record { client = c; pending = []; copied = false })
      then_step : {o p : Overlap X} → Run o → Step o p → Run p
