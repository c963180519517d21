-- ===== src/Interface/CommandSubscriber/Start.antt =====
-- `Start` of interface/mqtt/command_subscriber.go: the subscriptions, one after the other, up to the
-- first that fails.
use oasis_modbus2mqtt.Prelude.{Bool, Option, none, some, List, [], ◌∷◌}
use oasis_modbus2mqtt.Prelude.Text.{Text, codes}
use oasis_modbus2mqtt.Prelude.Errors.{Error, wrap}
use oasis_modbus2mqtt.Prelude.Time.{Time}
use Prim.Native.String.{String}
use oasis_modbus2mqtt.Float64.{Float64}
use oasis_modbus2mqtt.Port.{Ctx}
use oasis_modbus2mqtt.Mqtt.Topics.{TopicBuilder, command_topic}
use oasis_modbus2mqtt.Mqtt.Client.{MessageHandler}
use oasis_modbus2mqtt.UseCase.ApplyCommand.{Command}
use oasis_modbus2mqtt.Interface.CommandSubscriber.{
  handle_power, handle_hvac_mode, handle_target_temperature, handle_fan_target,
}

-- The objects of `subscriptions`, with their handlers, which do not look at the topic.
unfoldable pub subscriptions :
    {X : Type 0}
    → (Text → Option Float64)
    → (Ctx → Command → X → Option Error × X)
    → (X → Time)
    → Bool
    → List (String × MessageHandler X)
subscriptions parse_float applier now prefer_done =
    ("power", λ topic. handle_power parse_float applier now prefer_done)
    ∷ ("hvac_mode", λ topic. handle_hvac_mode parse_float applier now prefer_done)
    ∷ ("target_temperature", λ topic. handle_target_temperature parse_float applier now prefer_done)
    ∷ ("fan_target", λ topic. handle_fan_target parse_float applier now prefer_done)
    ∷ []

-- The loop of `Start`, over the subscriber's `Subscribe` with its state `S`.
unfoldable pub start_each :
    {X S : Type 0}
    → (Ctx → Text → Option (MessageHandler X) → S → Option Error × S)
    → TopicBuilder
    → Ctx
    → List (String × MessageHandler X)
    → S
    → Option Error × S
start_each subscribe topics ctx [] s = (none, s)
start_each subscribe topics ctx ((object_id, handler) ∷ more) s =
    let (e, t) = subscribe ctx (command_topic topics (codes object_id)) (some handler) s in
    let rest = start_each subscribe topics ctx more t in
    elim e [ none ↦ rest | some error ↦ (some (wrap "subscribe" error), t) ]

-- `Start`
unfoldable pub start :
    {X S : Type 0}
    → (Ctx → Text → Option (MessageHandler X) → S → Option Error × S)
    → TopicBuilder
    → (Text → Option Float64)
    → (Ctx → Command → X → Option Error × X)
    → (X → Time)
    → Bool
    → Ctx
    → S
    → Option Error × S
unfolding subscriptions start_each
start subscribe topics parse_float applier now prefer_done ctx =
    start_each subscribe topics ctx (subscriptions parse_float applier now prefer_done)
