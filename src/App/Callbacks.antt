-- ===== src/App/Callbacks.antt =====
-- The callbacks that `New` of internal/app/app.go hands out. Their errors are only logged.
use oasis_modbus2mqtt.Prelude.{◌+◌, Bool, true, some, List, if◌then◌else◌}
use oasis_modbus2mqtt.Prelude.Text.{Text, codes}
use oasis_modbus2mqtt.Prelude.Errors.{Sentinel, sentinel, Result}
use oasis_modbus2mqtt.Prelude.Time.{Time, is_zero}
use Prim.Native.String.{String}
use oasis_modbus2mqtt.Port.{Ctx}
use oasis_modbus2mqtt.Domain.Firmware.{firmware_string}
use oasis_modbus2mqtt.Domain.Snapshot.{Snapshot}
use oasis_modbus2mqtt.Mqtt.Client.{availability_online, availability_offline}
use oasis_modbus2mqtt.Mqtt.Topics.{TopicBuilder, state_topic, availability_topic}
use oasis_modbus2mqtt.Service.Availability.{Event, online, offline}
use oasis_modbus2mqtt.UseCase.Publish.{Publisher, Message}
use oasis_modbus2mqtt.UseCase.PublishDiscovery.{Discovery, publish_discovery}
use oasis_modbus2mqtt.UseCase.PublishState.{publish_state}
use oasis_modbus2mqtt.App.Wiring.{callback_publish_timeout}

-- The topic provider of `NewPublishState`.
abbrev pub state_of : TopicBuilder → String → Text
state_of topics object_id = state_topic topics (codes object_id)

module _ {S : Type 0} (publish : Publisher S) (topics : TopicBuilder) (prefer_done : Bool)
    (now : S → Time) where
  -- `context.WithTimeout(context.Background(), callbackPublishTimeout)`
  abbrev pub callback_ctx : S → Ctx
  callback_ctx s = record {
    done_at = some (now s + callback_publish_timeout);
    cause = sentinel Sentinel.deadline_exceeded;
    prefer_done = prefer_done;
  }

  -- The callback of `poller.Subscribe`.
  unfoldable pub publish_snapshot : Snapshot → S → S
  publish_snapshot snap s = (publish_state publish (state_of topics) (callback_ctx s) snap s).1

  -- The callbacks of `availMgr.SetCallbacks`.
  unfoldable pub publish_event : Event → S → S
  publish_event online s =
      (publish (callback_ctx s) (availability_topic topics) availability_online true s).1
  publish_event offline s =
      (publish (callback_ctx s) (availability_topic topics) availability_offline true s).1

  -- The label of the firmware, which is known behind the first poll.
  abbrev pub firmware_label : Snapshot → Text
  firmware_label snap =
      if is_zero snap.polled_at then codes "unknown" else firmware_string snap.firmware

  -- The callback of `NewHAStatusListener`, with what `poller.Snapshot()` is.
  unfoldable pub on_ha_online :
      (Text → Result (List Message)) → Snapshot → Ctx → Discovery S → Discovery S
  on_ha_online build snap ctx d =
      let announced = (publish_discovery build publish ctx (firmware_label snap) d).1 in
      if is_zero snap.polled_at then announced else record announced {
        inner = (publish_state publish (state_of topics) ctx snap announced.inner).1;
      }
