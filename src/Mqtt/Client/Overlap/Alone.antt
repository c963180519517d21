-- ===== src/Mqtt/Client/Overlap/Alone.antt =====
-- The steps of one call in a row are the call.
use oasis_modbus2mqtt.Prelude.{ℕ, ◌≡◌, refl, ◌∙◌, inl, inr, true, not, ◌||◌, [], ◌∷◌, Bool-cases}
use oasis_modbus2mqtt.Prelude.Text.{Text}
use oasis_modbus2mqtt.Mqtt.Client.{
  Waited, subscribe_handler, resubscribe, on_connect, MessageHandler, make_paho_handler,
  Subscriptions, set_mqtt_connected,
}
use oasis_modbus2mqtt.Mqtt.Topics.{TopicBuilder}
use oasis_modbus2mqtt.Config.{MqttConfig}
use oasis_modbus2mqtt.Port.{Ctx}
use oasis_modbus2mqtt.Mqtt.Client.Session.{recording, come_up}
use oasis_modbus2mqtt.Mqtt.Client.Overlap.{Overlap, store, raise_flag, copy, ask, ask_each}

module _ {X : Type 0} (respond : ℕ → Waited) (cfg : MqttConfig) (topics : TopicBuilder)
    (order : Subscriptions X → Subscriptions X) where
  ask_each-client :
      (subs : Subscriptions X) (o : Overlap X)
      → (ask_each subs o).client ≡ record (o.client) {
        world = resubscribe (recording respond) cfg topics subs o.client.world;
      }
  unfolding ask_each resubscribe ask recording make_paho_handler
  ask_each-client [] o = refl
  ask_each-client (entry ∷ rest) o = ask_each-client rest (ask entry rest o)

  alone-subscribe :
      (ctx : Ctx) (topic : Text) (handler : MessageHandler X) (o : Overlap X)
      → o.pending ≡ []
      → (ask_each (store topic handler o).pending (store topic handler o)).client
        ≡ (subscribe_handler (recording respond) cfg topics ctx topic handler o.client).1
  unfolding ask_each store subscribe_handler recording ask make_paho_handler
  alone-subscribe ctx topic handler o idle =
      elim (Bool-cases (not o.client.connected || not o.client.built)) [
        | inl down ↦ rw (down, idle) refl
        | inr up ↦ rw (up, idle) refl
      ]

  alone-come_up :
      (o : Overlap X)
      → o.client.built ≡ true
      → (ask_each (order o.client.subs) (copy topics order (raise_flag o))).client
        ≡ come_up respond cfg topics order o.client
  unfolding copy raise_flag set_mqtt_connected come_up on_connect recording
  alone-come_up o b =
      ask_each-client (order o.client.subs) (copy topics order (raise_flag o)) ∙ rw b refl

  -- Steps that nothing comes between make the calls of the code: `Subscribe` is its locked part and
  -- the requests that it leaves, and a connection that comes up is the raised flag, the copy of the
  -- registry and the requests of the loop.
  pub undisturbed :
      (ctx : Ctx) (topic : Text) (handler : MessageHandler X) (o : Overlap X)
      → o.pending ≡ []
      → o.client.built ≡ true
      → ((ask_each (store topic handler o).pending (store topic handler o)).client
          ≡ (subscribe_handler (recording respond) cfg topics ctx topic handler o.client).1)
        × ((ask_each (order o.client.subs) (copy topics order (raise_flag o))).client
            ≡ come_up respond cfg topics order o.client)
  undisturbed ctx topic handler o idle b =
      (alone-subscribe ctx topic handler o idle, alone-come_up o b)
