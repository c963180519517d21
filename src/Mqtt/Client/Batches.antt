-- ===== src/Mqtt/Client/Batches.antt =====
-- The MQTT client under the loops of the use cases, and what a subscription changes.
use oasis_modbus2mqtt.Prelude.{
  ℕ, suc, inl, inr, ◌+◌, ◌≡◌, refl, ap, Bool, true, false, not, ◌||◌, none, some, List, [], ◌∷◌,
  length, arith, if◌then◌else◌, Bool-cases, All,
}
use oasis_modbus2mqtt.Prelude.Text.{Text, text_eq}
use oasis_modbus2mqtt.Prelude.Dict.{lookup, lookup-insert}
use oasis_modbus2mqtt.Prelude.Errors.{Sentinel, Error, sentinel, errors_is}
use Prim.Native.String.{String}
use oasis_modbus2mqtt.Config.{MqttConfig}
use oasis_modbus2mqtt.Mqtt.Topics.{TopicBuilder}
use oasis_modbus2mqtt.Port.{Ctx}
use oasis_modbus2mqtt.UseCase.Publish.{Message, publish_each, requests}
use oasis_modbus2mqtt.Mqtt.Client.{
  completed, MessageHandler, Paho, Client, publish, subscribe, subscribe_handler,
}
use oasis_modbus2mqtt.Mqtt.Client.Session.{Session, recording}

module _ {X W : Type 0} (paho : Paho X W) (cfg : MqttConfig) (topics : TopicBuilder) where
  refused :
      (ctx : Ctx) (topic payload : Text) (retained : Bool) (c : Client X W)
      → c.connected ≡ false
      → publish paho cfg topics ctx topic payload retained c
        ≡ (some (sentinel Sentinel.mqtt_not_connected), c)
  unfolding publish
  refused ctx topic payload retained c down = rw down

  -- Through a client that is not connected, the loop that publishes messages returns one error for
  -- each of them, each of which is that of a missing connection, and leaves the client and the world
  -- as they were.
  pub publish_each-down :
      (context : String) (ctx : Ctx) (ms : List Message) (c : Client X W)
      → c.connected ≡ false
      → ((publish_each context (publish paho cfg topics) ctx ms c).1 ≡ c)
        × (length (publish_each context (publish paho cfg topics) ctx ms c).0 ≡ length ms)
        × All
            (λ e. errors_is e Sentinel.mqtt_not_connected ≡ true)
            (publish_each context (publish paho cfg topics) ctx ms c).0
  unfolding publish_each errors_is
  publish_each-down context ctx [] c down = (refl, refl, tt)
  publish_each-down context ctx (m ∷ ms) c down =
      let ih = publish_each-down context ctx ms c down in
      rw (refused ctx m.topic m.payload true c down) (ih.0, ap suc ih.1, (refl, ih.2))

  -- `Subscribe` stores the handler whatever the broker answers, in place of the one that the topic
  -- had, and leaves those of all other topics; with no handler it returns an error and changes
  -- nothing.
  pub subscribe-lookup :
      (ctx : Ctx) (topic t : Text) (h : MessageHandler X) (c : Client X W)
      → (lookup t ((subscribe paho cfg topics ctx topic (some h) c).1.subs)
          ≡ (if text_eq topic t then some h else lookup t c.subs))
        × ((subscribe paho cfg topics ctx topic none c).1 ≡ c)
  unfolding subscribe subscribe_handler
  subscribe-lookup ctx topic t h c = elim (Bool-cases (not c.connected || not c.built)) [
    | inl down ↦ rw down (lookup-insert topic t h c.subs, refl)
    | inr up ↦ rw up (lookup-insert topic t h c.subs, refl)
  ]

module _ {X : Type 0} (cfg : MqttConfig) (topics : TopicBuilder) where
  -- The client after some publications that succeed.
  abbrev after_sent : List Message → Client X (Session X) → Client X (Session X)
  after_sent ms c = record c {
    publishes = c.publishes + length ms;
    world = record (c.world) { sent = requests ms c.world.sent };
  }

  sent_one :
      (ctx : Ctx) (m : Message) (c : Client X (Session X))
      → c.connected ≡ true
      → c.built ≡ true
      → publish (recording (λ n. completed none)) cfg topics ctx m.topic m.payload true c
        ≡ (none, after_sent (m ∷ []) c)
  unfolding publish recording
  sent_one ctx m c up built = ground arith

  renumbered :
      (c : Client X (Session X)) (sent : List (Text × Text × Bool)) (n k : ℕ)
      → n ≡ k
      → ◌≡◌ {A = List Error × Client X (Session X)}
          ([], record c { publishes = n; world = record (c.world) { sent = sent } })
          ([], record c { publishes = k; world = record (c.world) { sent = sent } })
  renumbered c sent n k e =
      ap (λ (i : ℕ). ([], record c { publishes = i; world = record (c.world) { sent = sent } })) e

  -- Through a client that is connected, to a broker that accepts everything, the loop that publishes
  -- messages returns no error, sends every message once, retained and in order, and counts them.
  publish_each-up :
      (context : String) (ctx : Ctx) (ms : List Message) (c : Client X (Session X))
      → c.connected ≡ true
      → c.built ≡ true
      → publish_each context (publish (recording (λ n. completed none)) cfg topics) ctx ms c
        ≡ ([], after_sent ms c)
  unfolding publish_each
  publish_each-up context ctx [] c up built =
      renumbered c c.world.sent c.publishes (c.publishes + 0) (omega arith)
  publish_each-up context ctx (m ∷ ms) c up built = rw (sent_one ctx m c up built) (
      rw (publish_each-up context ctx ms (after_sent (m ∷ []) c) up built)
        (renumbered c (requests (m ∷ ms) c.world.sent) _ _ (omega arith)))
