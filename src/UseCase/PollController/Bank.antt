-- ===== src/UseCase/PollController/Bank.antt =====
-- What the three polls read of a controller that keeps its registers still: each field by the
-- address of its register.
use mathlib.Core.Path.{subst}
use oasis_modbus2mqtt.Prelude.{
  ℕ, zero, suc, ◌+◌, ◌%◌, ◌≡◌, refl, sym, ap, ◌∙◌, true, List, [], ◌∷◌, ltb, ◌==◌, if◌then◌else◌,
  length,
}
use oasis_modbus2mqtt.Prelude.Errors.{Sentinel, sentinel, wrap, Result, ok, err}
use oasis_modbus2mqtt.Prelude.Int.{signed16}
use Prim.Native.String.{String}
use oasis_modbus2mqtt.Port.{Ctx, Reader}
use oasis_modbus2mqtt.Prelude.Step.{Step, pure, gets, ◌>>=◌}
use oasis_modbus2mqtt.Prelude.Time.{Time}
use oasis_modbus2mqtt.Domain.Snapshot.{Snapshot, parse_last_time}
use oasis_modbus2mqtt.Domain.ErrorCode.{bit_set}
use oasis_modbus2mqtt.Domain.Mode.{mode_from_register}
use oasis_modbus2mqtt.Domain.Firmware.{firmware_from_raw}
use oasis_modbus2mqtt.Domain.OperatingState.{operating_state_from_register}
use oasis_modbus2mqtt.Domain.DeviceConfig.{device_config_from_register}
use oasis_modbus2mqtt.Domain.Temperature.{temperature_from_raw}
use oasis_modbus2mqtt.UseCase.PollController.{
  signed_temp_from_raw, check_block, read_block, read_three, hot_snapshot, medium_snapshot,
  slow_snapshot, poll_hot, poll_medium, poll_slow,
}

-- The registers of an address range.
abbrev pub window : (ℕ → ℕ) → ℕ → ℕ → List ℕ
window f start zero = []
window f start (suc n) = f start ∷ window f (start + 1) n

-- What a controller with these input and holding registers shows, by the numbers of its manual.
unfoldable pub controller_view : (ℕ → ℕ) → (ℕ → ℕ) → Time → Snapshot
controller_view i h t = record {
  firmware = firmware_from_raw (i 0);
  device_id = i 79;
  device_config = device_config_from_register (h 0);
  power_on = bit_set (i 2) 0;
  switching = bit_set (i 2) 1;
  heat_capable = bit_set (i 2) 6;
  cool_capable = bit_set (i 2) 7;
  current_mode = mode_from_register (h 86);
  operation = operating_state_from_register (i 3);
  operation_time_left = parse_last_time (i 6);
  target_temp = temperature_from_raw (h 31);
  room_temp = signed_temp_from_raw (i 57);
  supply_temp = signed_temp_from_raw (i 9);
  fan_target1 = h 32;
  fan_state1 = i 25;
  fan_state2 = i 30;
  heater_pwm = ltb 0 (i 16 % 4);
  damper_open = bit_set (i 16) 5;
  pid_demand = i 18;
  filter_pct = signed16 (i 14);
  errors = [];
  raw_error0 = i 4;
  raw_error1 = i 5;
  raw_error2 = i 69;
  raw_error3 = i 70;
  room_humidity = i 58;
  polled_at = t;
}

-- A reader that answers every read with the registers that were asked for.
pub record IsBank {S : Type 0} (reader : Reader S) (input holding : ℕ → ℕ) : Type 0 where
  pub input_read :
      (ctx : Ctx) (start count : ℕ) (s : S)
      → (reader.read_input ctx start count s).0 ≡ ok (window input start count)
  pub holding_read :
      (ctx : Ctx) (start count : ℕ) (s : S)
      → (reader.read_holding ctx start count s).0 ≡ ok (window holding start count)

read_block_ok :
    {S : Type 0} (label : String) (count : ℕ) (read : Step S (List ℕ)) (s : S) (regs : List ℕ)
    → (read s).0 ≡ ok regs
    → (length regs == count) ≡ true
    → (read_block label count read s).0 ≡ ok regs
unfolding read_block check_block
read_block_ok label count read s regs h k =
    ap (check_block label count) h
    ∙ subst
        (λ b.
          (if b then ok regs else err (wrap label (sentinel Sentinel.unexpected_read_length)))
          ≡ ok regs)
        (sym k) refl

bind_ok :
    {S A B : Type 0} (m : Step S A) (f : A → Step S B) (s : S) (a : A)
    → (m s).0 ≡ ok a
    → (m >>= f) s ≡ f a (m s).1
bind_ok {S} {A} {B} m f s a h =
    subst {A = Result A}
      (λ r. elim r [ ok x ↦ f x (m s).1 | err e ↦ (err e, (m s).1) ] ≡ f a (m s).1) (sym h) refl

module _ {S : Type 0} (reader : Reader S) (now : S → Time) where
  -- Three reads that succeed, one after the other, are decoded.
  read_three_ok :
      (first second third : Step S (List ℕ)) (decode : List ℕ → List ℕ → List ℕ → Time → Snapshot)
      (s : S) (a b c : List ℕ)
      → (first s).0 ≡ ok a
      → (second (first s).1).0 ≡ ok b
      → (third (second (first s).1).1).0 ≡ ok c
      → (t : Time) × ((read_three reader now first second third decode s).0 ≡ ok (decode a b c t))
  unfolding read_three
  read_three_ok first second third decode s a b c h k l =
      let last = λ (x y z : List ℕ). (gets now >>= λ t. pure (decode x y z t)) in
      let from_third = λ (x y : List ℕ). (third >>= last x y) in
      let from_second = λ (x : List ℕ). (second >>= from_third x) in
      (
        now (third (second (first s).1).1).1,
        ap (λ p. p.0)
            (bind_ok first from_second s a h
              ∙ bind_ok second (from_third a) _ b k
              ∙ bind_ok third (last a b) _ c l),
      )

  module _ (input holding : ℕ → ℕ) (bank : IsBank reader input holding) (ctx : Ctx) where
    input_block :
        (label : String) (start count : ℕ)
        → (length (window input start count) == count) ≡ true
        → (s : S)
        → (read_block label count (reader.read_input ctx start count) s).0
          ≡ ok (window input start count)
    input_block label start count h s =
        read_block_ok label count (reader.read_input ctx start count) s _
          (bank.input_read ctx start count s) h

    holding_block :
        (label : String) (start count : ℕ)
        → (length (window holding start count) == count) ≡ true
        → (s : S)
        → (read_block label count (reader.read_holding ctx start count) s).0
          ≡ ok (window holding start count)
    holding_block label start count h s =
        read_block_ok label count (reader.read_holding ctx start count) s _
          (bank.holding_read ctx start count s) h

    pub poll_hot-bank :
        (s : S)
        → (t : Time) × ((poll_hot reader now ctx s).0
            ≡ ok (hot_snapshot (window input 2 17) (window input 25 6) (window holding 31 2) t))
    unfolding poll_hot
    poll_hot-bank s =
        read_three_ok (read_block "poll_hot read i2..i18" 17 (reader.read_input ctx 2 17))
          (read_block "poll_hot read i25..i30" 6 (reader.read_input ctx 25 6))
          (read_block "poll_hot read h31..h32" 2 (reader.read_holding ctx 31 2)) hot_snapshot s
          (window input 2 17) (window input 25 6) (window holding 31 2) (input_block _ 2 17 refl _)
          (input_block _ 25 6 refl _) (holding_block _ 31 2 refl _)

    pub poll_medium-bank :
        (s : S)
        → (t : Time) × ((poll_medium reader now ctx s).0
            ≡ ok (medium_snapshot (window input 57 2) (window input 69 2) (window holding 86 1) t))
    unfolding poll_medium
    poll_medium-bank s =
        read_three_ok (read_block "poll_medium read i57..i58" 2 (reader.read_input ctx 57 2))
          (read_block "poll_medium read i69..i70" 2 (reader.read_input ctx 69 2))
          (read_block "poll_medium read h86" 1 (reader.read_holding ctx 86 1)) medium_snapshot s
          (window input 57 2) (window input 69 2) (window holding 86 1) (input_block _ 57 2 refl _)
          (input_block _ 69 2 refl _) (holding_block _ 86 1 refl _)

    pub poll_slow-bank :
        (s : S)
        → (t : Time) × ((poll_slow reader now ctx s).0
            ≡ ok (slow_snapshot (window input 0 1) (window input 79 1) (window holding 0 1) t))
    unfolding poll_slow
    poll_slow-bank s =
        read_three_ok (read_block "poll_slow read i0" 1 (reader.read_input ctx 0 1))
          (read_block "poll_slow read i79" 1 (reader.read_input ctx 79 1))
          (read_block "poll_slow read h0" 1 (reader.read_holding ctx 0 1)) slow_snapshot s
          (window input 0 1) (window input 79 1) (window holding 0 1) (input_block _ 0 1 refl _)
          (input_block _ 79 1 refl _) (holding_block _ 0 1 refl _)
