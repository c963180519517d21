-- ===== src/Tests/Service.antt =====
-- The services on concrete runs.
use oasis_modbus2mqtt.Prelude.{
  ℕ, ◌≡◌, refl, ◌+◌, true, false, Option, none, some, List, [], ◌∷◌, arith, if◌then◌else◌,
}
use oasis_modbus2mqtt.Prelude.Errors.{Sentinel, Error, sentinel, ok}
use oasis_modbus2mqtt.Prelude.Int.{pos}
use oasis_modbus2mqtt.Prelude.Time.{Time}
use oasis_modbus2mqtt.Float64.{of_nat}
use oasis_modbus2mqtt.Port.{Ctx, ModbusClient}
use oasis_modbus2mqtt.Service.Dispatcher.Threshold.{
  after as outcomes_after, all_failed, signals_at_threshold,
}
use oasis_modbus2mqtt.Service.Availability.{is_stale}
use oasis_modbus2mqtt.Service.Availability.Transitions.{
  Alternates, said_offline, after_ticks, wired, events_alternate,
}
use oasis_modbus2mqtt.Service.Backoff.{BackoffConfig}
use oasis_modbus2mqtt.Service.Supervisor.{Supervisor, connected, supervise}
use oasis_modbus2mqtt.Service.Supervisor.Liveness.{
  Peer, peer_connection, set_clock, supervise_reconnects,
}

abbrev forever : Ctx
forever = record { done_at = none; cause = sentinel Sentinel.canceled; prefer_done = false }

abbrev failed : Option Error
failed = some (sentinel Sentinel.timeout)

abbrev silent : ModbusClient ℕ
silent = record {
  reader = record {
    read_input = λ ctx start count s. (ok [], s);
    read_holding = λ ctx start count s. (ok [], s);
  };
  writer = record {
    write_holding = λ ctx addr value s. (none, s);
    modify_holding = λ ctx addr modify s. (none, s);
  };
  connected = λ s. true;
}

signals_at_threshold_example :
    (outcomes_after silent 2 (failed ∷ failed ∷ none ∷ [])).inner
    ≡ (outcomes_after silent 2 (failed ∷ none ∷ [])).inner
      + (if all_failed 2 (failed ∷ failed ∷ none ∷ []) then 1 else 0)
signals_at_threshold_example =
    signals_at_threshold silent 2 failed (failed ∷ none ∷ []) (omega arith)

-- A poll at 5, a tick at 6, and one at 99.
abbrev ticks : List (Time × Time)
ticks = (5, 6) ∷ []

events_alternate_example :
    Alternates (after_ticks ((5, 99) ∷ ticks) (wired (pos 30))).events
    × (said_offline (after_ticks ((5, 99) ∷ ticks) (wired (pos 30))).events
        ≡ is_stale 5 99 (pos 30))
events_alternate_example = events_alternate (pos 30) ticks 5 99

abbrev doubling : BackoffConfig ℕ
doubling = record {
  min = pos 1000;
  max = pos 5000;
  factor = of_nat 2;
  jitter = of_nat 0;
  draw = λ r. (of_nat 0, r + 1);
}

-- Three more attempts are refused, and the trigger is there.
abbrev lost : Supervisor Peer ℕ
lost = record {
  world = record { down = 3; attempts = 0; closes = 0; clock = 1 };
  backoff = record { current = pos 1000; rng = 7 };
  triggered = true;
  reconnect_failed = 0;
}

supervise_reconnects_example :
    (t : Supervisor Peer ℕ) × (supervise peer_connection
        (λ p. p.clock)
        (set_clock (pos 0) doubling)
        (pos 0)
        doubling
        4
        forever
        lost
      ≡ some (connected, t))
    × (t.world.attempts ≡ 0 + (3 + 1))
    × (t.reconnect_failed ≡ 0 + 3)
    × (t.backoff.current ≡ pos 1000)
    × (t.world.closes ≡ 0 + 1)
    × (t.triggered ≡ false)
supervise_reconnects_example =
    supervise_reconnects (pos 0) doubling 3 4 forever lost refl refl (omega arith)
