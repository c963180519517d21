-- ===== src/Modbus/Client/Pacing.antt =====
-- Every sequence of calls of the client keeps the guard interval.
use oasis_modbus2mqtt.Prelude.Time.{Time, Duration}
use oasis_modbus2mqtt.Port.{Ctx}
use oasis_modbus2mqtt.Modbus.Client.{
  Reply, Client, read_input, read_holding, new_client, write_holding, modify_holding, connect,
  force_close,
}
use oasis_modbus2mqtt.Prelude.{ℕ, ◌<◌, refl, List, [], ◌∷◌, arith}
use oasis_modbus2mqtt.Prelude.Int.{pos_part}
use oasis_modbus2mqtt.Modbus.Client.Guard.{Spaced, IsPaced}
use oasis_modbus2mqtt.Modbus.Client.Operations.{
  read_input-IsPaced, read_holding-IsPaced, write_holding-IsPaced, modify_holding-IsPaced,
  connect-IsPaced, force_close-IsPaced,
}

-- A call of one of the client's methods. The mutex makes the calls of several goroutines one
-- sequence.
pub data Call : Type 0 where
  connect_call close_call : Call
  read_input_call read_holding_call write_call : Ctx → ℕ → ℕ → Call
  modify_call : Ctx → ℕ → (ℕ → ℕ) → Call

unfoldable pub call : Call → Client → Client
call connect_call c = (connect c).1
call close_call c = (force_close c).1
call (read_input_call ctx start count) c = (read_input ctx start count c).1
call (read_holding_call ctx start count) c = (read_holding ctx start count c).1
call (write_call ctx addr value) c = (write_holding ctx addr value c).1
call (modify_call ctx addr modify) c = (modify_holding ctx addr modify c).1

unfoldable pub run : List Call → Client → Client
unfolding call
run [] c = c
run (k ∷ ks) c = run ks (call k c)

new-IsPaced :
    (guard : Duration) (clock : Time) (script : List Reply)
    → 0 < clock
    → IsPaced guard (new_client guard clock script)
unfolding new_client
new-IsPaced guard clock script h = record {
  same = refl;
  started = h;
  spaced = tt;
  remembers = tt;
  recent = omega arith;
}

module _ {g : Duration} where
  call-IsPaced : (k : Call) (c : Client) → IsPaced g c → IsPaced g (call k c)
  unfolding call
  call-IsPaced connect_call c = connect-IsPaced c
  call-IsPaced close_call c = force_close-IsPaced c
  call-IsPaced (read_input_call ctx start count) c = read_input-IsPaced ctx start count c
  call-IsPaced (read_holding_call ctx start count) c = read_holding-IsPaced ctx start count c
  call-IsPaced (write_call ctx addr value) c = write_holding-IsPaced ctx addr value c
  call-IsPaced (modify_call ctx addr modify) c = modify_holding-IsPaced ctx addr modify c

  run-IsPaced : (ks : List Call) (c : Client) → IsPaced g c → IsPaced g (run ks c)
  unfolding run
  run-IsPaced [] c h = h
  run-IsPaced (k ∷ ks) c h = run-IsPaced ks (call k c) (call-IsPaced k c h)

-- Whatever sequence of connects, closes, reads, writes and modifications the client is asked for,
-- and whatever the transport answers, two register operations with no opening or closing of the
-- connection between them are at least the guard interval apart, from the end of the one to the
-- start of the other.
pub run-Spaced :
    (guard : Duration) (clock : Time) (script : List Reply) (calls : List Call)
    → 0 < clock
    → Spaced (pos_part guard) (run calls (new_client guard clock script)).exchanges
run-Spaced guard clock script calls h =
    let paced =
      run-IsPaced calls (new_client guard clock script) (new-IsPaced guard clock script h) in
    rw paced.same at paced.spaced
