-- ===== src/Tests/Bridge.antt =====
-- The MQTT client and the callbacks of the bridge on concrete values.
use oasis_modbus2mqtt.Prelude.{
  ℕ, ◌+◌, ◌≡◌, refl, ◌⊎◌, true, false, Option, none, some, List, [], ◌∷◌, All, length, ◌==◌,
  if◌then◌else◌,
}
use oasis_modbus2mqtt.Prelude.Text.{Text, codes, text_eq}
use oasis_modbus2mqtt.Prelude.Dict.{lookup, Distinct, latest-eq-lookup, insert}
use oasis_modbus2mqtt.Prelude.Errors.{Sentinel, Error, sentinel, ok, err, errors_is}
use oasis_modbus2mqtt.Prelude.Time.{is_zero}
use oasis_modbus2mqtt.Prelude.Step.{Step}
use oasis_modbus2mqtt.Port.{Ctx}
use oasis_modbus2mqtt.Domain.Snapshot.{Snapshot, empty_snapshot}
use oasis_modbus2mqtt.Mqtt.Topics.{TopicBuilder}
use oasis_modbus2mqtt.Mqtt.Client.{
  Waited, completed, MessageHandler, Subscriptions, Client, new_client, connect, publish, subscribe,
  subscribe_handler,
}
use oasis_modbus2mqtt.Mqtt.Client.Session.{
  Session, silence, recording, WalksThrough, come_up, fresh, next, connects, subscribes, comes_up,
}
use oasis_modbus2mqtt.Mqtt.Client.Registry.{wrapped, subscriptions_restored}
use oasis_modbus2mqtt.Mqtt.Client.Batches.{publish_each-down, subscribe-lookup}
use oasis_modbus2mqtt.Service.Poller.{Tier, hot, Poller, new_poller, merge, polled}
use oasis_modbus2mqtt.UseCase.Publish.{Message, publish_each, requests, Broker, broker_publisher}
use oasis_modbus2mqtt.UseCase.PublishDiscovery.{Discovery}
use oasis_modbus2mqtt.UseCase.PublishState.{build_messages}
use oasis_modbus2mqtt.App.Callbacks.{state_of, publish_snapshot, on_ha_online}
use oasis_modbus2mqtt.App.Requests.{on_ha_online-requests, polled-requests}
use oasis_modbus2mqtt.Tests.Startup.{default_mqtt}

abbrev pub topics : TopicBuilder
topics = record { discovery_prefix = codes "homeassistant"; device_prefix = codes "oasis_syberia" }

abbrev pub forever : Ctx
forever = record { done_at = none; cause = sentinel Sentinel.canceled; prefer_done = false }

abbrev pub accepting : ℕ → Waited
accepting n = completed none

abbrev as_stored : Subscriptions ℕ → Subscriptions ℕ
as_stored subs = subs

as_stored_walks : WalksThrough as_stored
as_stored_walks subs t d = latest-eq-lookup t subs d

-- A handler that counts, a client that was connected, one with a subscription, and one whose
-- connection came up.
abbrev counts : MessageHandler ℕ
counts topic payload n = n + 1

abbrev built : Client ℕ (Session ℕ)
built = (connect (recording accepting) default_mqtt topics forever (new_client silence)).1

abbrev stored : Client ℕ (Session ℕ)
stored =
    (subscribe (recording accepting) default_mqtt topics forever (codes "t") (some counts) built).1

is_built : stored.built ≡ true
unfolding new_client connect recording subscribe subscribe_handler insert
is_built = refl

is_new : (new_client {X = ℕ} {W = Session ℕ} silence).built ≡ false
unfolding new_client
is_new = refl

is_down : (new_client {X = ℕ} {W = Session ℕ} silence).connected ≡ false
unfolding new_client
is_down = refl

abbrev restored : Client ℕ (Session ℕ)
restored = come_up accepting default_mqtt topics as_stored stored

subscriptions_restored_example :
    (restored.gauge ≡ restored.connected)
    × Distinct restored.subs
    × ((restored.connected ≡ false)
        ⊎ ((t : Text) → lookup t (restored.world.asked) ≡ wrapped (lookup t restored.subs)))
subscriptions_restored_example =
    subscriptions_restored accepting default_mqtt topics as_stored as_stored_walks restored (
      next
        (next (next fresh (connects forever is_new refl))
          (subscribes forever (codes "t") (some counts) refl))
        (comes_up is_built refl))

abbrev pub messages : List Message
messages =
    record { topic = codes "a"; payload = codes "1" }
    ∷ record { topic = codes "b"; payload = codes "2" }
    ∷ []

publish_each-down_example :
    ((publish_each "publish"
        (publish (recording accepting) default_mqtt topics)
        forever
        messages
        (new_client {X = ℕ} silence)).1
      ≡ new_client silence)
    × (length
          (publish_each "publish"
            (publish (recording accepting) default_mqtt topics)
            forever
            messages
            (new_client {X = ℕ} silence)).0
        ≡ 2)
    × All
        (λ e. errors_is e Sentinel.mqtt_not_connected ≡ true)
        (publish_each "publish"
          (publish (recording accepting) default_mqtt topics)
          forever
          messages
          (new_client {X = ℕ} silence)).0
publish_each-down_example =
    publish_each-down (recording accepting) default_mqtt topics "publish" forever messages
      (new_client silence) is_down

abbrev up : Client ℕ (Session ℕ)
up = record {
  built = true;
  subs = [];
  connected = true;
  gauge = true;
  reconnects = 1;
  publishes = 0;
  world = silence;
}

subscribe-lookup_example :
    (lookup (codes "t") (
        (subscribe
          (recording accepting)
          default_mqtt
          topics
          forever
          (codes "t")
          (some counts)
          up).1.subs)
      ≡ (if text_eq (codes "t") (codes "t") then some counts else lookup (codes "t") up.subs))
    × ((subscribe (recording accepting) default_mqtt topics forever (codes "t") none up).1 ≡ up)
subscribe-lookup_example =
    subscribe-lookup (recording accepting) default_mqtt topics forever (codes "t") (codes "t")
      counts up

-- A snapshot of a device that is on.
abbrev pub heating : Snapshot
heating = record empty_snapshot { power_on = true; heater_pwm = true; polled_at = 7 }

abbrev second_fails : ℕ → Option Error
second_fails n = if n == 1 then some (sentinel Sentinel.timeout) else none

abbrev empty_broker : Broker
empty_broker = record { asked = []; refused = 0 }

abbrev announcing : Discovery Broker
announcing = record { inner = empty_broker; last_firmware = [] }

on_ha_online-requests_example :
    (on_ha_online
      (broker_publisher second_fails)
      topics
      true
      (λ b. 5)
      (λ label. ok messages)
      heating
      forever
      announcing).inner.asked
    ≡ (if is_zero heating.polled_at
        then requests messages []
        else requests (build_messages (state_of topics) heating) (requests messages []))
on_ha_online-requests_example =
    on_ha_online-requests second_fails topics true (λ b. 5) (λ label. ok messages) heating forever
      announcing messages refl

abbrev idle_poll : Tier → Ctx → Step Broker Snapshot
idle_poll tier ctx s = (ok heating, s)

abbrev publishing : Poller Broker
publishing = record (new_poller empty_broker) {
  subscribers = publish_snapshot (broker_publisher second_fails) topics true (λ b. 5) ∷ [];
}

polled-requests_example :
    ((polled idle_poll (λ b. 5) forever hot (ok heating, empty_broker) publishing).world.asked
      ≡ requests (build_messages (state_of topics) (merge hot publishing.latest heating)) [])
    × ((polled idle_poll
          (λ b. 5)
          forever
          hot
          (err (sentinel Sentinel.timeout), empty_broker)
          publishing).world.asked
        ≡ [])
polled-requests_example =
    polled-requests second_fails topics true (λ b. 5) idle_poll forever hot heating
      (sentinel Sentinel.timeout) empty_broker publishing refl
