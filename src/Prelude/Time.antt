-- ===== src/Prelude/Time.antt =====
-- `time.Time` as the nanoseconds since the zero time, and `time.Duration` as nanoseconds.
use Prim.Native.Nat.{ℕ, ◌-◌, ◌^◌}
use mathlib.Core.Bool.{Bool}
use oasis_modbus2mqtt.Prelude.Tests.{◌==◌, if◌then◌else◌}
use oasis_modbus2mqtt.Prelude.Int.{ℤ, pos, negsuc, sub_ℕ, ltb_ℤ}

abbrev pub Time : Type 0
Time = ℕ

abbrev pub Duration : Type 0
Duration = ℤ

abbrev pub second : ℕ
second = 1000000000

abbrev pub millisecond : ℕ
millisecond = 1000000

-- `t.IsZero()`
abbrev pub is_zero : Time → Bool
is_zero t = t == 0

-- `t.Sub(u)`: the difference, held to what an int64 can say.
unfoldable pub time_sub : Time → Time → Duration
time_sub t u =
    let d = sub_ℕ t u in
    if ltb_ℤ (pos (2 ^ 63 - 1)) d
    then pos (2 ^ 63 - 1)
    else if ltb_ℤ d (negsuc (2 ^ 63 - 1))
    then negsuc (2 ^ 63 - 1)
    else d
