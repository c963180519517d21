-- ===== src/Mqtt/Client/Registry.antt =====
-- What the broker has been asked for is what the registry says, after any sequence of calls and
-- callbacks.
use oasis_modbus2mqtt.Prelude.{
  ℕ, ◌≡◌, refl, sym, ap, ◌∙◌, Bool, true, false, not, ◌||◌, ◌⊎◌, inl, inr, Option, none, some, List,
  [], ◌∷◌, arith, Bool-cases,
}
use mathlib.Core.Path.{subst}
use oasis_modbus2mqtt.Prelude.Text.{Text}
use oasis_modbus2mqtt.Prelude.Dict.{
  lookup, insert, latest, Distinct, lookup-insert, insert-Distinct,
}
use oasis_modbus2mqtt.Config.{MqttConfig}
use oasis_modbus2mqtt.Mqtt.Topics.{TopicBuilder, availability_topic}
use oasis_modbus2mqtt.Port.{Ctx}
use oasis_modbus2mqtt.Mqtt.Client.{
  Waited, within, MessageHandler, PahoHandler, make_paho_handler, Subscriptions, Client, new_client,
  connect, publish, subscribe, subscribe_handler, resubscribe, on_connect, on_connection_lost,
  disconnect, set_mqtt_connected, availability_online,
}
use oasis_modbus2mqtt.Mqtt.Client.Session.{
  Session, silence, recording, WalksThrough, come_up, Move, connects, publishes, subscribes,
  comes_up, loses, disconnects, Reach, fresh, next,
}

or_else : {A : Type 0} → Option A → Option A → Option A
or_else none o = o
or_else (some a) o = some a

or_else-none : {A : Type 0} (o : Option A) → or_else o none ≡ o
unfolding or_else
or_else-none none = refl
or_else-none (some a) = refl

module _ {X : Type 0} where
  -- The handler that the library is given for a stored one.
  unfoldable pub wrapped : Option (MessageHandler X) → Option (PahoHandler X)
  wrapped none = none
  wrapped (some h) = some (make_paho_handler h)

  record IsSynced (c : Client X (Session X)) : Type 0 where
    pub built : c.connected ≡ true → c.built ≡ true
    pub gauge : c.gauge ≡ c.connected
    pub distinct : Distinct c.subs
    pub restored :
        (t : Text) → c.connected ≡ true → lookup t (c.world.asked) ≡ wrapped (lookup t c.subs)

  insert_synced :
      (k : Text) (h : MessageHandler X) (subs : Subscriptions X)
      (asked : List (Text × PahoHandler X)) (t : Text)
      → lookup t asked ≡ wrapped (lookup t subs)
      → lookup t ((k, make_paho_handler h) ∷ asked) ≡ wrapped (lookup t (insert k h subs))
  unfolding lookup wrapped
  insert_synced k h subs asked t e = ground (arith, lookup-insert k t h subs)

not_down :
    (up built : Bool) → (up ≡ true → built ≡ true) → (not up || not built) ≡ true → up ≡ true → ⊥
not_down true true b down e = cc
not_down true false b down e = cc (b e)
not_down false built b down e = cc

module _ {X : Type 0} (respond : ℕ → Waited) (cfg : MqttConfig) (topics : TopicBuilder)
    (order : Subscriptions X → Subscriptions X) (walks : WalksThrough order) where
  resubscribe_asked :
      (subs : Subscriptions X) (w : Session X) (t : Text)
      → lookup t ((resubscribe (recording respond) cfg topics subs w).asked)
        ≡ or_else (wrapped (latest t subs)) (lookup t w.asked)
  unfolding resubscribe recording latest lookup wrapped or_else
  resubscribe_asked [] w t = refl
  resubscribe_asked ((u, h) ∷ subs) w t = ground (
    arith,
    resubscribe_asked subs
        ((recording respond).subscribe (within 5000) u cfg.qos (make_paho_handler h) w).1 t,
  )

  come_up-IsSynced :
      (c : Client X (Session X))
      → c.built ≡ true
      → IsSynced c
      → IsSynced (come_up respond cfg topics order c)
  unfolding come_up on_connect set_mqtt_connected recording lookup
  come_up-IsSynced c b v = rw b (record {
    built = λ e. refl;
    gauge = refl;
    distinct = v.distinct;
    restored = λ t e.
        resubscribe_asked (order c.subs)
          ((recording respond).publish (within 2000) (availability_topic topics) cfg.qos true
            availability_online (record (c.world) { asked = [] })).1
          t
        ∙ (or_else-none (wrapped (latest t (order c.subs)))
            ∙ ap wrapped (walks c.subs t v.distinct));
  })

  connect-IsSynced :
      (ctx : Ctx) (c : Client X (Session X))
      → c.built ≡ false
      → IsSynced c
      → IsSynced (connect (recording respond) cfg topics ctx c).1
  unfolding connect recording
  connect-IsSynced ctx c b v = record {
    built = λ e. refl;
    gauge = v.gauge;
    distinct = v.distinct;
    restored = v.restored;
  }

  publish-IsSynced :
      (ctx : Ctx) (topic payload : Text) (retained : Bool) (c : Client X (Session X))
      → IsSynced c
      → IsSynced (publish (recording respond) cfg topics ctx topic payload retained c).1
  unfolding publish recording
  publish-IsSynced ctx topic payload retained c v =
      elim (Bool-cases (not c.connected || not c.built)) [
        | inl down ↦ rw down v
        | inr up ↦ rw up (record {
          built = v.built;
          gauge = v.gauge;
          distinct = v.distinct;
          restored = v.restored;
        })
      ]

  disconnect-IsSynced :
      (quiesce : ℕ) (c : Client X (Session X))
      → IsSynced c
      → IsSynced (disconnect (recording respond) cfg topics quiesce c)
  unfolding disconnect set_mqtt_connected recording
  disconnect-IsSynced quiesce c v = elim (Bool-cases (not c.built || not c.connected)) [
    | inl down ↦ rw down v
    | inr up ↦
        rw up
          (record { built = λ e. cc; gauge = refl; distinct = v.distinct; restored = λ t e. cc })
  ]

  lost-IsSynced : (c : Client X (Session X)) → IsSynced c → IsSynced (on_connection_lost c)
  unfolding on_connection_lost set_mqtt_connected
  lost-IsSynced c v = record {
    built = λ e. cc;
    gauge = refl;
    distinct = v.distinct;
    restored = λ t e. cc;
  }

  subscribe_handler-IsSynced :
      (ctx : Ctx) (topic : Text) (h : MessageHandler X) (c : Client X (Session X))
      → IsSynced c
      → IsSynced (subscribe_handler (recording respond) cfg topics ctx topic h c).1
  unfolding subscribe_handler recording
  subscribe_handler-IsSynced ctx topic h c v = elim (Bool-cases (not c.connected || not c.built)) [
    | inl down ↦ rw down (record {
      built = v.built;
      gauge = v.gauge;
      distinct = insert-Distinct topic h c.subs v.distinct;
      restored = λ t e. absurd (not_down c.connected c.built v.built down e);
    })
    | inr up ↦ rw up (record {
      built = v.built;
      gauge = v.gauge;
      distinct = insert-Distinct topic h c.subs v.distinct;
      restored = λ t e. insert_synced topic h c.subs c.world.asked t (v.restored t e);
    })
  ]

  subscribe-IsSynced :
      (ctx : Ctx) (topic : Text) (o : Option (MessageHandler X)) (c : Client X (Session X))
      → IsSynced c
      → IsSynced (subscribe (recording respond) cfg topics ctx topic o c).1
  unfolding subscribe
  subscribe-IsSynced ctx topic none c v = v
  subscribe-IsSynced ctx topic (some h) c v = subscribe_handler-IsSynced ctx topic h c v

  Move-IsSynced :
      {c d : Client X (Session X)} → Move respond cfg topics order c d → IsSynced c → IsSynced d
  Move-IsSynced {c} (connects ctx b e) v = subst IsSynced (sym e) (connect-IsSynced ctx c b v)
  Move-IsSynced {c} (publishes ctx topic payload retained e) v =
      subst IsSynced (sym e) (publish-IsSynced ctx topic payload retained c v)
  Move-IsSynced {c} (subscribes ctx topic o e) v =
      subst IsSynced (sym e) (subscribe-IsSynced ctx topic o c v)
  Move-IsSynced {c} (comes_up b e) v = subst IsSynced (sym e) (come_up-IsSynced c b v)
  Move-IsSynced {c} (loses e) v = subst IsSynced (sym e) (lost-IsSynced c v)
  Move-IsSynced {c} (disconnects quiesce e) v =
      subst IsSynced (sym e) (disconnect-IsSynced quiesce c v)

  new-IsSynced : IsSynced {X = X} (new_client silence)
  unfolding new_client Distinct
  new-IsSynced = record { built = λ e. cc; gauge = refl; distinct = tt; restored = λ t e. cc }

  Reach-IsSynced : {c : Client X (Session X)} → Reach respond cfg topics order c → IsSynced c
  Reach-IsSynced fresh = new-IsSynced
  Reach-IsSynced (next r m) = Move-IsSynced m (Reach-IsSynced r)

  -- After any sequence of calls of the client and callbacks of the library, whatever the answers of
  -- the broker and the order of the loop in `onConnect`: the metric is the connection flag, the
  -- registry has one handler for each topic, and the client is not connected, or the handler that the
  -- broker was last asked for under a topic in this session is the one that the registry has, and it
  -- was asked for none under the topics that the registry does not have.
  pub subscriptions_restored :
      (c : Client X (Session X))
      → Reach respond cfg topics order c
      → (c.gauge ≡ c.connected)
        × Distinct c.subs
        × ((c.connected ≡ false)
            ⊎ ((t : Text) → lookup t (c.world.asked) ≡ wrapped (lookup t c.subs)))
  subscriptions_restored c r =
      let synced = Reach-IsSynced r in
      (
        synced.gauge,
        synced.distinct,
        elim (Bool-cases c.connected) [
          | inl up ↦ inr (λ t. synced.restored t up)
          | inr down ↦ inl down
        ],
      )
