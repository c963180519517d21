-- ===== src/Tests/Overlap.antt =====
-- A subscription that comes between the raised flag and the copy of the registry.
use oasis_modbus2mqtt.Prelude.{ℕ, ◌+◌, ◌≡◌, refl, true, false, some, [], ◌∷◌, Among}
use oasis_modbus2mqtt.Prelude.Text.{Text, codes}
use oasis_modbus2mqtt.Prelude.Dict.{lookup, insert, lookup-Among}
use oasis_modbus2mqtt.Mqtt.Topics.{TopicBuilder}
use oasis_modbus2mqtt.Mqtt.Client.{
  MessageHandler, make_paho_handler, Subscriptions, new_client, set_mqtt_connected,
}
use oasis_modbus2mqtt.Mqtt.Client.Session.{silence}
use oasis_modbus2mqtt.Mqtt.Client.Overlap.{
  Overlap, store, raise_flag, build_client, copy, ask, builds, stores, raises, copies, asks, Run,
  begin, then_step,
}
use oasis_modbus2mqtt.Mqtt.Client.Overlap.Restored.{Visits, overlap_restores}

abbrev topics : TopicBuilder
topics = record { discovery_prefix = codes "homeassistant"; device_prefix = codes "oasis_syberia" }

abbrev as_stored : Subscriptions ℕ → Subscriptions ℕ
as_stored subs = subs

as_stored-Visits : Visits as_stored
as_stored-Visits subs t h found = lookup-Among t h subs found

abbrev counts : MessageHandler ℕ
counts topic payload n = n + 1

abbrev off : Overlap ℕ
off = record { client = new_client silence; pending = []; copied = false }

is_down : off.client.connected ≡ false
unfolding new_client
is_down = refl

-- One subscription is stored without a connection, which then comes up.
abbrev up : Overlap ℕ
up = raise_flag (store (codes "t") counts (build_client off))

abbrev entry : Text → Text × MessageHandler ℕ
entry topic = (topic, counts)

abbrev all_pending : Subscriptions ℕ
all_pending = entry (codes "t") ∷ entry (codes "u") ∷ entry (codes "u") ∷ []

-- Another one comes before the registry is copied.
abbrev both : Overlap ℕ
both = copy topics as_stored (store (codes "u") counts up)

both-pending : both.pending ≡ all_pending
unfolding copy store raise_flag build_client new_client insert set_mqtt_connected
both-pending = refl

abbrev asked : Overlap ℕ
asked = ask (entry (codes "u")) [] (
    ask (entry (codes "u")) (entry (codes "u") ∷ [])
      (ask (entry (codes "t")) (entry (codes "u") ∷ entry (codes "u") ∷ []) both))

asked-Run : Run topics as_stored asked
unfolding new_client build_client store ask insert
asked-Run =
    then_step
      (then_step
        (then_step
          (then_step
            (then_step
              (then_step
                (then_step (then_step (begin (new_client silence) is_down) (builds refl))
                  (stores (codes "t") counts refl))
                (raises refl refl))
              (stores (codes "u") counts refl))
            (copies refl))
          (asks [] (entry (codes "t")) _ both-pending refl))
        (asks [] (entry (codes "u")) _ refl refl))
      (asks [] (entry (codes "u")) [] refl refl)

is_up : asked.client.connected ≡ true
unfolding ask copy store raise_flag build_client set_mqtt_connected
is_up = refl

is_copied : asked.copied ≡ true
unfolding ask copy
is_copied = refl

is_idle : asked.pending ≡ []
unfolding ask
is_idle = refl

is_found : lookup (codes "u") asked.client.subs ≡ some counts
unfolding ask copy store raise_flag build_client set_mqtt_connected new_client insert lookup
is_found = refl

overlap_restores_example : Among (codes "u", make_paho_handler counts) asked.client.world.asked
overlap_restores_example =
    overlap_restores topics as_stored as_stored-Visits asked asked-Run is_up is_copied is_idle
      (codes "u") counts is_found
