-- ===== src/UseCase/PublishDiscovery.antt =====
-- application/usecase/publish_discovery.go: the discovery configs, published again when the
-- firmware changes. The builder is a function of the firmware label, into the configs or an error.
pub mod Changes
use oasis_modbus2mqtt.Prelude.{not, ◌&&◌, List, [], ◌∷◌, if◌then◌else◌}
use oasis_modbus2mqtt.Prelude.Text.{Text, text_eq}
use oasis_modbus2mqtt.Prelude.Errors.{Error, wrap, Result, ok, err}
use oasis_modbus2mqtt.Port.{Ctx}
use oasis_modbus2mqtt.UseCase.Publish.{Publisher, Message, publish_each}

-- The last firmware label beside the state of the publisher.
pub record Discovery (S : Type 0) : Type 0 where
  pub inner : S
  pub last_firmware : Text

module _ {S : Type 0} (build : Text → Result (List Message)) (publish : Publisher S) where
  -- `Publish` with what was built.
  unfoldable pub publish_built :
      Ctx → Text → Result (List Message) → Discovery S → List Error × Discovery S
  unfolding publish_each
  publish_built ctx firmware (err e) d = (wrap "build discovery" e ∷ [], d)
  publish_built ctx firmware (ok configs) d =
      let (es, s) = publish_each "publish discovery topic" publish ctx configs d.inner in
      (es, record { inner = s; last_firmware = firmware })

  unfoldable pub publish_discovery : Ctx → Text → Discovery S → List Error × Discovery S
  unfolding publish_built
  publish_discovery ctx firmware d = publish_built ctx firmware (build firmware) d

  -- `PublishIfChanged`
  unfoldable pub publish_if_changed : Ctx → Text → Discovery S → List Error × Discovery S
  unfolding publish_discovery
  publish_if_changed ctx firmware d =
      if text_eq firmware d.last_firmware && not (text_eq d.last_firmware [])
      then ([], d)
      else if text_eq firmware [] && text_eq d.last_firmware []
      then ([], d)
      else publish_discovery ctx firmware d
