-- ===== src/DiscoveryBuilder/Commands.antt =====
-- The command topics of the discovery configs beside the subscriptions of the bridge, over the MQTT
-- client.
use oasis_modbus2mqtt.Prelude.{
  ◌≡◌, refl, sym, ap, ◌∙◌, Bool, Option, none, some, List, [], ◌∷◌, ◌++◌, arith, All, map,
}
use oasis_modbus2mqtt.Prelude.Text.{Text, codes, text_eq}
use oasis_modbus2mqtt.Prelude.Dict.{lookup, latest}
use oasis_modbus2mqtt.Prelude.Errors.{Error, wrap}
use oasis_modbus2mqtt.Prelude.Time.{Time}
use Prim.Native.String.{String}
use oasis_modbus2mqtt.Float64.{Float64}
use oasis_modbus2mqtt.Port.{Ctx}
use oasis_modbus2mqtt.Config.{HaConfig, MqttConfig}
use oasis_modbus2mqtt.Mqtt.Topics.{TopicBuilder, command_topic}
use oasis_modbus2mqtt.Mqtt.Client.{MessageHandler, Paho, Client, subscribe}
use oasis_modbus2mqtt.Mqtt.Client.Batches.{subscribe-lookup}
use oasis_modbus2mqtt.UseCase.ApplyCommand.{Command}
use oasis_modbus2mqtt.Interface.CommandSubscriber.{
  handle_power, handle_hvac_mode, handle_target_temperature, handle_fan_target,
}
use oasis_modbus2mqtt.DiscoveryBuilder.Payloads.{
  Payload, sensor_config, binary_sensor_config, switch_config, climate_config,
}
use oasis_modbus2mqtt.Interface.CommandSubscriber.Start.{subscriptions, start_each, start}
use oasis_modbus2mqtt.DiscoveryBuilder.{
  climate_payload, sensor_payload, switch_payload, binary_sensor_payload, derived_sensor_payload,
}
use oasis_modbus2mqtt.DiscoveryBuilder.Configs.{configs}
use oasis_modbus2mqtt.DiscoveryBuilder.Consistency.{all_of, command_topics}

or_before : {A : Type 0} → Option A → Option A → Option A
or_before none o = o
or_before (some a) o = some a

or_before_assoc :
    {A : Type 0} (a b c : Option A) → or_before (or_before a b) c ≡ or_before a (or_before b c)
unfolding or_before
or_before_assoc none b c = refl
or_before_assoc (some a) b c = refl

text_eq-prefix : (p s t : Text) → text_eq (p ++ s) (p ++ t) ≡ text_eq s t
text_eq-prefix [] s t = refl
text_eq-prefix (c ∷ p) s t = ground (arith, text_eq-prefix p s t)

-- Two command topics are compared as their objects are.
text_eq-command_topic :
    (topics : TopicBuilder) (s t : Text)
    → text_eq (command_topic topics s) (command_topic topics t) ≡ text_eq s t
unfolding command_topic
text_eq-command_topic topics s t =
    text_eq-prefix topics.device_prefix (codes "/cmd/" ++ s) (codes "/cmd/" ++ t)

if_none :
    {S : Type 0} (o : Option Error) (rest : Option Error × S) (t d : S)
    → ◌≡◌ {A = Option Error × S}
        (elim o [ none ↦ rest | some error ↦ (some (wrap "subscribe" error), t) ])
        (none, d)
    → (o ≡ none) × (rest ≡ (none, d))
if_none none rest t d h = (refl, h)
if_none (some e) rest t d h = cc

module _ {X W : Type 0} (paho : Paho X W) (cfg : MqttConfig) (topics : TopicBuilder) where
  abbrev keyed : List (String × MessageHandler X) → List (Text × MessageHandler X)
  keyed [] = []
  keyed ((o, h) ∷ more) = (command_topic topics (codes o), h) ∷ keyed more

  start_each-lookup :
      (ctx : Ctx) (t : Text) (entries : List (String × MessageHandler X)) (c d : Client X W)
      → start_each (subscribe paho cfg topics) topics ctx entries c ≡ (none, d)
      → lookup t d.subs ≡ or_before (latest t (keyed entries)) (lookup t c.subs)
  unfolding start_each latest or_before
  start_each-lookup ctx t [] c d h =
      ap (λ (x : Option Error × Client X W). lookup t x.1.subs) (sym h)
  start_each-lookup ctx t ((o, handler) ∷ more) c d h =
      let taken =
        if_none (subscribe paho cfg topics ctx (command_topic topics (codes o)) (some handler) c).0
          (start_each (subscribe paho cfg topics) topics ctx more
            (subscribe paho cfg topics ctx (command_topic topics (codes o)) (some handler) c).1)
          (subscribe paho cfg topics ctx (command_topic topics (codes o)) (some handler) c).1 d h in
      let stored =
        (subscribe-lookup paho cfg topics ctx (command_topic topics (codes o)) t handler c).0 in
      start_each-lookup ctx t more
        (subscribe paho cfg topics ctx (command_topic topics (codes o)) (some handler) c).1 d
        taken.1
      ∙ ground arith

  abbrev pub keys : List (String × MessageHandler X) → List Text
  keys [] = []
  keys ((o, h) ∷ more) = command_topic topics (codes o) ∷ keys more

  abbrev by_object : List (String × MessageHandler X) → List (Text × MessageHandler X)
  by_object [] = []
  by_object ((o, h) ∷ more) = (codes o, h) ∷ by_object more

  latest_keyed :
      (o : Text) (entries : List (String × MessageHandler X))
      → latest (command_topic topics o) (keyed entries) ≡ latest o (by_object entries)
  unfolding latest
  latest_keyed o [] = refl
  latest_keyed o ((p, h) ∷ more) =
      ground (arith, text_eq-command_topic topics (codes p) o, latest_keyed o more)

  module _ (parse_float : Text → Option Float64) (applier : Ctx → Command → X → Option Error × X)
      (now : X → Time) (prefer_done : Bool) where
    latest_each :
        All
          (λ (s : String × MessageHandler X).
            latest
              (command_topic topics (codes s.0))
              (keyed (subscriptions parse_float applier now prefer_done))
            ≡ some s.1)
          (subscriptions parse_float applier now prefer_done)
    unfolding subscriptions latest
    latest_each =
        let entries = subscriptions parse_float applier now prefer_done in
        (
          latest_keyed (codes "power") entries,
          (
            latest_keyed (codes "hvac_mode") entries,
            (
              latest_keyed (codes "target_temperature") entries,
              (latest_keyed (codes "fan_target") entries, tt),
            ),
          ),
        )

    registered_each :
        (ctx : Ctx) (c d : Client X W) (entries : List (String × MessageHandler X))
        → start (subscribe paho cfg topics) topics parse_float applier now prefer_done ctx c
          ≡ (none, d)
        → All
            (λ (s : String × MessageHandler X).
              latest
                (command_topic topics (codes s.0))
                (keyed (subscriptions parse_float applier now prefer_done))
              ≡ some s.1)
            entries
        → All
            (λ (s : String × MessageHandler X).
              lookup (command_topic topics (codes s.0)) d.subs ≡ some s.1)
            entries
    unfolding start or_before
    registered_each ctx c d [] h l = tt
    registered_each ctx c d (s ∷ entries) h l = (
      (start_each-lookup ctx (command_topic topics (codes s.0))
            (subscriptions parse_float applier now prefer_done) c d h
          ∙ ap (λ o. or_before o (lookup (command_topic topics (codes s.0)) c.subs)) l.0),
      registered_each ctx c d entries h l.1,
    )

    -- The command topics of a config have the handlers that are meant for them: the switch that of
    -- power, the climate entity those of the mode, the target temperature and the fan speed.
    abbrev pub Serves : Client X W → Payload → Type 0
    Serves d (sensor_config p) = Unit
    Serves d (binary_sensor_config p) = Unit
    Serves d (switch_config p) =
        lookup p.command_topic d.subs
        ≡ some (λ topic. handle_power parse_float applier now prefer_done)
    Serves d (climate_config p) =
        (lookup p.mode_command_topic d.subs
          ≡ some (λ topic. handle_hvac_mode parse_float applier now prefer_done))
        × (lookup p.temperature_command_topic d.subs
            ≡ some (λ topic. handle_target_temperature parse_float applier now prefer_done))
        × (lookup p.fan_mode_command_topic d.subs
            ≡ some (λ topic. handle_fan_target parse_float applier now prefer_done))

    -- When `Start` of the command subscriber succeeds on the MQTT client, connected or not, the
    -- registry has the handler of power under the command topic of the switch that the discovery
    -- configs announce, and those of the mode, the target temperature and the fan speed under the
    -- three command topics of the climate entity; and these four are all command topics that the
    -- configs announce, as they are all that `Start` subscribes to.
    pub commands_announced :
        (ha_cfg : HaConfig) (firmware : Text) (ctx : Ctx) (c d : Client X W)
        → start (subscribe paho cfg topics) topics parse_float applier now prefer_done ctx c
          ≡ (none, d)
        → All (λ a. Serves d a.payload) (configs topics ha_cfg firmware)
          × (all_of command_topics (configs topics ha_cfg firmware)
              ≡ map
                  (λ o. command_topic topics (codes o))
                  ("power" ∷ "hvac_mode" ∷ "target_temperature" ∷ "fan_target" ∷ []))
          × (keys (subscriptions parse_float applier now prefer_done)
              ≡ all_of command_topics (configs topics ha_cfg firmware))
    unfolding configs climate_payload sensor_payload switch_payload binary_sensor_payload
        derived_sensor_payload subscriptions
    commands_announced ha_cfg firmware ctx c d h =
        let served =
          registered_each ctx c d (subscriptions parse_float applier now prefer_done) h
            latest_each in
        (
          (
            tt,
            (
              tt,
              (
                tt,
                (
                  tt,
                  (
                    tt,
                    (
                      tt,
                      (
                        tt,
                        (
                          tt,
                          (
                            tt,
                            (
                              tt,
                              (
                                served.0,
                                (
                                  (served.1.0, served.1.1.0, served.1.1.1.0),
                                  (tt, (tt, (tt, (tt, tt)))),
                                ),
                              ),
                            ),
                          ),
                        ),
                      ),
                    ),
                  ),
                ),
              ),
            ),
          ),
          refl,
          refl,
        )
