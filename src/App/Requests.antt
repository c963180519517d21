-- ===== src/App/Requests.antt =====
-- What the callbacks of the bridge publish, at a broker that keeps the requests.
use oasis_modbus2mqtt.Prelude.{
  ℕ, ◌≡◌, refl, ap, ◌∙◌, Bool, true, false, Option, List, [], ◌∷◌, ◌&&◌, if◌then◌else◌,
}
use oasis_modbus2mqtt.Prelude.Text.{Text}
use oasis_modbus2mqtt.Prelude.Errors.{Error, Result, ok, err}
use oasis_modbus2mqtt.Prelude.Time.{Time, is_zero}
use oasis_modbus2mqtt.Prelude.Step.{Step}
use oasis_modbus2mqtt.Port.{Ctx}
use oasis_modbus2mqtt.Domain.Snapshot.{Snapshot}
use oasis_modbus2mqtt.Mqtt.Topics.{TopicBuilder}
use oasis_modbus2mqtt.Service.Poller.{ctx_done, is_error, Tier, Poller, merge, notify, polled}
use oasis_modbus2mqtt.UseCase.Publish.{
  Message, Broker, broker_publisher, requests, publish_each-requests,
}
use oasis_modbus2mqtt.UseCase.PublishDiscovery.{Discovery, publish_built, publish_discovery}
use oasis_modbus2mqtt.UseCase.PublishState.{build_messages, publish_state}
use oasis_modbus2mqtt.App.Callbacks.{
  state_of, callback_ctx, publish_snapshot, firmware_label, on_ha_online,
}

fork :
    (b : Bool) (u v : Discovery Broker) {m n : List (Text × Text × Bool)}
    → u.inner.asked ≡ m
    → v.inner.asked ≡ n
    → (if b then u else v).inner.asked ≡ (if b then m else n)
fork true u v p q = p
fork false u v p q = q

same_world :
    (b : Bool) (p q : Poller Broker) {m : List (Text × Text × Bool)}
    → p.world.asked ≡ m
    → q.world.asked ≡ m
    → (if b then p else q).world.asked ≡ m
same_world true p q e f = e
same_world false p q e f = f

module _ (respond : ℕ → Option Error) (topics : TopicBuilder) (prefer_done : Bool)
    (now : Broker → Time) where
  state_requests :
      (ctx : Ctx) (snap : Snapshot) (b : Broker)
      → (publish_state (broker_publisher respond) (state_of topics) ctx snap b).1.asked
        ≡ requests (build_messages (state_of topics) snap) b.asked
  unfolding publish_state
  state_requests ctx snap b =
      (publish_each-requests "publish state" respond ctx (build_messages (state_of topics) snap)
        b).0

  built_requests :
      (build : Text → Result (List Message)) (ctx : Ctx) (label : Text) (configs : List Message)
      (d : Discovery Broker)
      → build label ≡ ok configs
      → (publish_discovery build (broker_publisher respond) ctx label d).1.inner.asked
        ≡ requests configs d.inner.asked
  unfolding publish_discovery publish_built
  built_requests build ctx label configs d h =
      rw h (publish_each-requests "publish discovery topic" respond ctx configs d.inner).0

  -- When Home Assistant comes online, the discovery configs for the label of the firmware are
  -- published, and behind them, once a poll has succeeded, the state of the latest snapshot: each
  -- message once, retained and in order, whatever the broker answers.
  pub on_ha_online-requests :
      (build : Text → Result (List Message)) (snap : Snapshot) (ctx : Ctx) (d : Discovery Broker)
      (configs : List Message)
      → build (firmware_label (broker_publisher respond) topics prefer_done now snap) ≡ ok configs
      → (on_ha_online
          (broker_publisher respond)
          topics
          prefer_done
          now
          build
          snap
          ctx
          d).inner.asked
        ≡ (if is_zero snap.polled_at
            then requests configs d.inner.asked
            else requests (build_messages (state_of topics) snap) (requests configs d.inner.asked))
  unfolding on_ha_online
  on_ha_online-requests build snap ctx d configs h =
      let label = firmware_label (broker_publisher respond) topics prefer_done now snap in
      let announced = (publish_discovery build (broker_publisher respond) ctx label d).1 in
      fork (is_zero snap.polled_at) announced
        (record announced {
          inner =
              (publish_state (broker_publisher respond) (state_of topics) ctx snap
                announced.inner).1;
        })
        (built_requests build ctx label configs d h)
        (state_requests ctx snap announced.inner
          ∙ ap (requests (build_messages (state_of topics) snap))
              (built_requests build ctx label configs d h))

  -- The bridge's poller, whose one subscriber publishes: a poll that succeeds leads to the messages of
  -- the merged snapshot, each once, retained and in order, behind those before; one that fails leads
  -- to none.
  pub polled-requests :
      (poll : Tier → Ctx → Step Broker Snapshot) (ctx : Ctx) (tier : Tier) (partial : Snapshot)
      (e : Error) (b : Broker) (p : Poller Broker)
      → p.subscribers ≡ publish_snapshot (broker_publisher respond) topics prefer_done now ∷ []
      → ((polled poll now ctx tier (ok partial, b) p).world.asked
          ≡ requests (build_messages (state_of topics) (merge tier p.latest partial)) b.asked)
        × ((polled poll now ctx tier (err e, b) p).world.asked ≡ b.asked)
  unfolding polled notify publish_snapshot
  polled-requests poll ctx tier partial e b p h =
      let merged = merge tier p.latest partial in
      (
        ap (λ subscribers. (notify subscribers merged b).asked) h
            ∙ state_requests (callback_ctx (broker_publisher respond) topics prefer_done now b)
                merged b,
        same_world (ctx_done ctx (now b) && is_error e ctx.cause) _ _ refl refl,
      )
