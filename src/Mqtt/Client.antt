-- ===== src/Mqtt/Client.antt =====
-- infrastructure/mqtt/client.go: the client over the MQTT library, with its registry of
-- subscriptions and the two metrics that it keeps. The library is the record `Paho` of operations
-- over a state `W`, the world behind it; an operation tells what the caller sees of its token.
-- Every method and callback is one step, under the client's lock.
use oasis_modbus2mqtt.Prelude.{
  ℕ, ◌+◌, Bool, true, false, not, ◌||◌, Option, none, some, List, [], ◌∷◌, ◌++◌, if◌then◌else◌,
}
use oasis_modbus2mqtt.Prelude.Text.{Text, codes, text_eq}
use oasis_modbus2mqtt.Prelude.Errors.{Sentinel, Error, sentinel, wrap, message}
use Prim.Native.String.{String}
use oasis_modbus2mqtt.Prelude.Dict.{insert}
use oasis_modbus2mqtt.Prelude.Time.{Duration}
pub mod Session
pub mod Registry
pub mod Batches
pub mod Overlap
use oasis_modbus2mqtt.Port.{Ctx}
use oasis_modbus2mqtt.UseCase.Publish.{Publisher}
use oasis_modbus2mqtt.Config.{MqttConfig}
use oasis_modbus2mqtt.Mqtt.Topics.{TopicBuilder, availability_topic}

-- How long a caller waits for a token: for a context, or for some milliseconds.
pub data Limit : Type 0 where
  until : Ctx → Limit
  within : ℕ → Limit

-- The token completed, with its error; or the limit came first.
pub data Waited : Type 0 where
  completed : Option Error → Waited
  expired : Waited

-- A message from the broker, and `MessageHandler`, which may do anything to what is behind it.
pub record Delivery : Type 0 where
  pub topic : Text
  pub payload : Text

abbrev pub MessageHandler : Type 0 → Type 0
MessageHandler X = Text → Text → X → X

abbrev pub PahoHandler : Type 0 → Type 0
PahoHandler X = Delivery → X → X

-- `makePahoHandler`
unfoldable pub make_paho_handler : {X : Type 0} → MessageHandler X → PahoHandler X
make_paho_handler h msg x = h msg.topic msg.payload x

-- `ClientOptions`, as `Connect` fills it; the fixed options and the callbacks are left out.
pub record Options : Type 0 where
  pub broker : Text
  pub client_id : Text
  pub keepalive : Duration
  pub will_topic : Text
  pub will_payload : Text
  pub will_qos : ℕ
  pub will_retained : Bool
  pub credentials : Option (Text × Text)

-- The library's client: `subscribe limit topic qos handler`, `publish limit topic qos retained
-- payload`.
pub record Paho (X W : Type 0) : Type 0 where
  pub connect : Limit → Options → W → Waited × W
  pub publish : Limit → Text → ℕ → Bool → Text → W → Waited × W
  pub subscribe : Limit → Text → ℕ → PahoHandler X → W → Waited × W
  pub disconnect : ℕ → W → W

abbrev pub Subscriptions : Type 0 → Type 0
Subscriptions X = List (Text × MessageHandler X)

-- `built`: whether the library's client was made; `gauge`, `reconnects` and `publishes` are
-- `mqttConnectedFlag`, `MQTTReconnectsTotal` and `MQTTPublishesTotal` of infrastructure/metrics.
pub record Client (X W : Type 0) : Type 0 where
  pub built : Bool
  pub subs : Subscriptions X
  pub connected : Bool
  pub gauge : Bool
  pub reconnects : ℕ
  pub publishes : ℕ
  pub world : W

-- `AvailabilityOnline`, `AvailabilityOffline`
abbrev pub availability_online : Text
availability_online = codes "online"

abbrev pub availability_offline : Text
availability_offline = codes "offline"

-- `select { case <-token.Done(): … fmt.Errorf(context, err) … case <-ctx.Done(): … }`
abbrev pub token_error : String → Ctx → Waited → Option Error
token_error context ctx (completed none) = none
token_error context ctx (completed (some e)) = some (wrap context e)
token_error context ctx expired = some ctx.cause

-- `SetMQTTConnected` of infrastructure/metrics/metrics.go
unfoldable pub set_mqtt_connected : {X W : Type 0} → Bool → Client X W → Client X W
set_mqtt_connected connected c = record c { gauge = connected }

-- `onConnectionLost`
unfoldable pub on_connection_lost : {X W : Type 0} → Client X W → Client X W
unfolding set_mqtt_connected
on_connection_lost c = set_mqtt_connected false (record c { connected = false })

-- `NewClient`
unfoldable pub new_client : {X W : Type 0} → W → Client X W
new_client w = record {
  built = false;
  subs = [];
  connected = false;
  gauge = false;
  reconnects = 0;
  publishes = 0;
  world = w;
}

module _ {X W : Type 0} (paho : Paho X W) (cfg : MqttConfig) (topics : TopicBuilder) where
  abbrev options : Options
  options = record {
    broker = codes "tcp://" ++ cfg.broker;
    client_id = cfg.client_id;
    keepalive = cfg.keepalive;
    will_topic = availability_topic topics;
    will_payload = availability_offline;
    will_qos = cfg.qos;
    will_retained = true;
    credentials = elim (cfg.username) [ [] ↦ none | c ∷ s ↦ some (c ∷ s, cfg.password) ];
  }

  -- `Connect`
  unfoldable pub connect : Ctx → Client X W → Option Error × Client X W
  connect ctx c =
      let (waited, w) = paho.connect (until ctx) options c.world in
      (token_error "mqtt connect" ctx waited, record c { built = true; world = w })

  -- `Disconnect(quiesce)`, with the milliseconds of `quiesce`
  unfoldable pub disconnect : ℕ → Client X W → Client X W
  unfolding set_mqtt_connected
  disconnect quiesce c =
      if not c.built || not c.connected
      then c
      else (let (waited, w) =
            paho.publish (within 1000) (availability_topic topics) cfg.qos true availability_offline
              c.world in
          set_mqtt_connected false
            (record c { connected = false; world = paho.disconnect quiesce w }))

  -- `Publish`
  abbrev counted : Option Error → ℕ → ℕ
  counted none n = n + 1
  counted (some e) n = n

  unfoldable pub publish : Publisher (Client X W)
  publish ctx topic payload retained c =
      if not c.connected || not c.built
      then (some (sentinel Sentinel.mqtt_not_connected), c)
      else (let (waited, w) = paho.publish (until ctx) topic cfg.qos retained payload c.world in
          let e = token_error "mqtt publish" ctx waited in
          (e, record c { publishes = counted e c.publishes; world = w }))

  -- The part of `Subscribe` behind the check of the handler.
  unfoldable pub subscribe_handler :
      Ctx → Text → MessageHandler X → Client X W → Option Error × Client X W
  unfolding make_paho_handler
  subscribe_handler ctx topic handler c =
      let stored = record c { subs = insert topic handler c.subs } in
      if not c.connected || not c.built
      then (none, stored)
      else (let (waited, w) =
            paho.subscribe (until ctx) topic cfg.qos (make_paho_handler handler) c.world in
          (token_error "mqtt subscribe" ctx waited, record stored { world = w }))

  -- `Subscribe`, where a handler may be nil.
  unfoldable pub subscribe :
      Ctx → Text → Option (MessageHandler X) → Client X W → Option Error × Client X W
  unfolding subscribe_handler
  subscribe ctx topic none c = (some (message "mqtt subscribe: handler is nil"), c)
  subscribe ctx topic (some handler) c = subscribe_handler ctx topic handler c

  -- The loop of `onConnect`: a failure or a timeout is logged, and the loop goes on.
  unfoldable pub resubscribe : Subscriptions X → W → W
  unfolding make_paho_handler
  resubscribe [] w = w
  resubscribe ((topic, handler) ∷ subs) w =
      resubscribe subs (paho.subscribe (within 5000) topic cfg.qos (make_paho_handler handler) w).1

  -- `onConnect`. The order in which the loop meets the copy of the registry is `order`.
  unfoldable pub on_connect : (Subscriptions X → Subscriptions X) → Client X W → Client X W
  unfolding set_mqtt_connected resubscribe
  on_connect order c =
      let up =
        set_mqtt_connected true (record c { connected = true; reconnects = c.reconnects + 1 }) in
      if not c.built then up else record up {
        world =
            resubscribe (order c.subs)
              (paho.publish (within 2000) (availability_topic topics) cfg.qos true
                availability_online c.world).1;
      }
