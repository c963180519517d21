-- ===== src/Service/HaStatus.antt =====
-- application/service/ha_status_listener.go: the birth message of Home Assistant.
pub mod Online
use oasis_modbus2mqtt.Prelude.{ℕ, ◌+◌, ◌*◌, Bool, Option, none, some, if◌then◌else◌}
use oasis_modbus2mqtt.Prelude.Text.{Text, codes, text_eq, to_lower, trim_space}
use oasis_modbus2mqtt.Prelude.Errors.{Sentinel, sentinel}
use oasis_modbus2mqtt.Port.{Ctx}
use oasis_modbus2mqtt.Prelude.Time.{Time, second}

-- `haStatusHandlerTimeout`
abbrev pub ha_status_handler_timeout : ℕ
ha_status_handler_timeout = 10 * second

-- What `handle` makes of a payload: its text in lower case, without the white space around it.
unfoldable pub normalised : Text → Text
normalised payload = trim_space (to_lower payload)

-- The callback, if there is one, with a context of its own.
abbrev pub call_online : {S : Type 0} → Option (Ctx → S → S) → Ctx → S → S
call_online none ctx s = s
call_online (some callback) ctx s = callback ctx s

-- `handle`; "offline" and every other payload are only logged.
unfoldable pub handle_status :
    {S : Type 0} → Option (Ctx → S → S) → Bool → (S → Time) → Text → S → S
unfolding normalised
handle_status on_online prefer_done now payload s =
    if text_eq (normalised payload) (codes "online")
    then call_online on_online
        (record {
          done_at = some (now s + ha_status_handler_timeout);
          cause = sentinel Sentinel.deadline_exceeded;
          prefer_done = prefer_done;
        })
        s
    else s
