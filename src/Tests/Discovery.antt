-- ===== src/Tests/Discovery.antt =====
-- The discovery configs on concrete values.
use oasis_modbus2mqtt.Prelude.{ℕ, ◌+◌, ◌≡◌, refl, ◌↔◌, true, Option, none, arith, All, Among}
use oasis_modbus2mqtt.Prelude.{map, [], ◌∷◌}
use oasis_modbus2mqtt.Domain.Snapshot.{empty_snapshot}
use oasis_modbus2mqtt.Prelude.Text.{Text, codes, format_uint}
use oasis_modbus2mqtt.Prelude.Errors.{Sentinel, Error, sentinel, Result, ok, err}
use oasis_modbus2mqtt.Float64.{Float64}
use oasis_modbus2mqtt.Port.{Ctx}
use oasis_modbus2mqtt.Domain.FanSpeed.{FanSpeed, new_fan_speed}
use oasis_modbus2mqtt.Mqtt.Topics.{state_topic, command_topic}
use oasis_modbus2mqtt.Mqtt.Client.{Client, new_client, subscribe, subscribe_handler}
use oasis_modbus2mqtt.Mqtt.Client.Session.{Session, silence, recording}
use oasis_modbus2mqtt.UseCase.ApplyCommand.{Command}
use oasis_modbus2mqtt.UseCase.PublishState.{build_messages}
use oasis_modbus2mqtt.Interface.CommandSubscriber.Start.{subscriptions, start_each, start}
use oasis_modbus2mqtt.DiscoveryBuilder.{build, climate_payload}
use oasis_modbus2mqtt.DiscoveryBuilder.Payloads.{Payload}
use oasis_modbus2mqtt.DiscoveryBuilder.Configs.{configs, Marshalled, build_iff}
use oasis_modbus2mqtt.DiscoveryBuilder.Consistency.{
  all_of, state_topics, command_topics, topics_of, states_announced,
}
use oasis_modbus2mqtt.DiscoveryBuilder.Commands.{keys, Serves, commands_announced}
use oasis_modbus2mqtt.DiscoveryBuilder.Values.{Fits, states_fit}
use oasis_modbus2mqtt.DiscoveryBuilder.Limits.{fan_modes_iff}
use oasis_modbus2mqtt.DiscoveryBuilder.Identity.{
  unique_ids, Unique, SharesAvailability, base_of, unique_ids-Unique,
}
use oasis_modbus2mqtt.Tests.Startup.{default_mqtt, default_ha}
use oasis_modbus2mqtt.Tests.Bridge.{topics, forever, accepting, messages, heating}

-- A reader of floats, and an applier that counts.
abbrev no_float : Text → Option Float64
no_float raw = none

abbrev applied : Ctx → Command → ℕ → Option Error × ℕ
applied ctx c n = (none, n + 1)

states_announced_example :
    All
      (λ t. Among t (topics_of (build_messages (λ o. state_topic topics (codes o)) heating)))
      (all_of state_topics (configs topics default_ha (codes "v5.2.0")))
    × All
        (λ t. Among t (all_of state_topics (configs topics default_ha (codes "v5.2.0"))))
        (topics_of (build_messages (λ o. state_topic topics (codes o)) heating))
states_announced_example = states_announced topics default_ha (codes "v5.2.0") heating

abbrev started : Option Error × Client ℕ (Session ℕ)
started =
    start (subscribe (recording accepting) default_mqtt topics) topics no_float applied (λ n. n)
      true forever (new_client silence)

started_well :
    start
      (subscribe (recording accepting) default_mqtt topics)
      topics
      no_float
      applied
      (λ n. n)
      true
      forever
      (new_client silence)
    ≡ (none, started.1)
unfolding start start_each subscriptions subscribe subscribe_handler recording new_client
started_well = refl

commands_announced_example :
    All
      (λ a.
        Serves
          (recording accepting)
          default_mqtt
          topics
          no_float
          applied
          (λ n. n)
          true
          started.1
          a.payload)
      (configs topics default_ha (codes "v5.2.0"))
    × (all_of command_topics (configs topics default_ha (codes "v5.2.0"))
        ≡ map
            (λ o. command_topic topics (codes o))
            ("power" ∷ "hvac_mode" ∷ "target_temperature" ∷ "fan_target" ∷ []))
    × (keys (recording accepting) default_mqtt topics (subscriptions no_float applied (λ n. n) true)
        ≡ all_of command_topics (configs topics default_ha (codes "v5.2.0")))
commands_announced_example =
    commands_announced (recording accepting) default_mqtt topics no_float applied (λ n. n) true
      default_ha (codes "v5.2.0") forever (new_client silence) started.1 started_well

abbrev no_json : Payload → Result Text
no_json p = err (sentinel Sentinel.invalid_payload)

build_iff_example :
    (build topics default_ha no_json (codes "v5.2.0") ≡ ok messages)
    ↔ Marshalled topics default_ha
        (codes "v5.2.0")
        no_json
        (configs topics default_ha (codes "v5.2.0"))
        messages
build_iff_example = build_iff topics default_ha (codes "v5.2.0") no_json messages

states_fit_example :
    All (λ a. Fits a.payload a.object_id heating) (configs topics default_ha (codes "v5.2.0"))
states_fit_example =
    states_fit topics default_ha (codes "v5.2.0") heating (unfold empty_snapshot in omega arith)

fan_modes_iff_example :
    Among (format_uint 7) (climate_payload topics default_ha (codes "v5.2.0")).fan_modes
    ↔ ((s : FanSpeed) × (new_fan_speed 7 ≡ ok s))
fan_modes_iff_example = fan_modes_iff topics default_ha (codes "v5.2.0") 7 (omega arith)

unique_ids-Unique_example :
    Unique (unique_ids (configs topics default_ha (codes "v5.2.0")))
    × All
        (λ a. SharesAvailability topics (base_of a.payload))
        (configs topics default_ha (codes "v5.2.0"))
unique_ids-Unique_example = unique_ids-Unique topics default_ha (codes "v5.2.0")
