-- ===== src/DiscoveryBuilder/Limits.antt =====
-- The limits that the climate config names beside those that commands are held to.
use oasis_modbus2mqtt.Prelude.{
  ℕ, ◌^◌, ◌<◌, ◌≤◌, ◌≡◌, refl, sym, ap, ◌∙◌, ◌↔◌, inl, inr, true, false, some, List, [], ◌∷◌, arith,
  All, Among, ◌||◌, ltb, holds_below, holds_below_at,
}
use mathlib.Core.Path.{subst}
use oasis_modbus2mqtt.Prelude.Text.{Text, format_uint}
use oasis_modbus2mqtt.Prelude.Dict.{among, among_sound}
use oasis_modbus2mqtt.Prelude.Errors.{ok}
use oasis_modbus2mqtt.Float64.{Float64, nan, inf, fin, less, is_nan, is_inf, of_nat}
use oasis_modbus2mqtt.Config.{HaConfig}
use oasis_modbus2mqtt.Interface.CommandSubscriber.{parse_digits}
use oasis_modbus2mqtt.Interface.CommandSubscriber.Digits.{parse_digits-format_uint}
use oasis_modbus2mqtt.Domain.FanSpeed.{FanSpeed, new_fan_speed}
use oasis_modbus2mqtt.Domain.Temperature.{new_temperature}
use oasis_modbus2mqtt.Mqtt.Topics.{TopicBuilder}
use oasis_modbus2mqtt.DiscoveryBuilder.{climate_payload}

beyond : (c : Float64) → is_inf c ≡ true → (less c (of_nat 5) || less (of_nat 30) c) ≡ true
unfolding is_inf less of_nat
beyond nan h = cc
beyond (inf true) h = refl
beyond (inf false) h = refl
beyond (fin s a) h = cc

accepted_iff :
    (c : Float64)
    → (new_temperature c ≡ ok (record { celsius = c }))
      ↔ ((is_nan c ≡ false) × (less c (of_nat 5) ≡ false) × (less (of_nat 30) c ≡ false))
unfolding new_temperature
accepted_iff c = ground (arith, beyond c)

-- A text is a number that `NewFanSpeed` accepts.
abbrev Accepts : Text → Type 0
Accepts mode = (k : ℕ) × (parse_digits mode 0 ≡ some k) × (s : FanSpeed) × (new_fan_speed k ≡ ok s)

same_number : {k v : ℕ} → some k ≡ some v → k ≡ v
same_number h = cc

accepted_of_listed :
    (v : ℕ) (t : Text)
    → parse_digits t 0 ≡ some v
    → (listed : List Text) → All Accepts listed
    → Among t listed
    → (s : FanSpeed) × (new_fan_speed v ≡ ok s)
accepted_of_listed v t h [] a m = absurd m
accepted_of_listed v t h (mode ∷ rest) a (inl e) =
    let k = same_number (sym (a.0.1) ∙ (ap (λ x. parse_digits x 0) e ∙ h)) in
    (a.0.2, subst (λ n. new_fan_speed n ≡ ok a.0.2) k a.0.3)
accepted_of_listed v t h (mode ∷ rest) a (inr m) = accepted_of_listed v t h rest a.1 m

module _ (topics : TopicBuilder) (ha_cfg : HaConfig) (firmware : Text) where
  fan_modes : List Text
  unfolding climate_payload
  fan_modes = (climate_payload topics ha_cfg firmware).fan_modes

  fan_table : holds_below (λ v. ltb v 1 || among (format_uint v) fan_modes) 11 ≡ true
  unfolding holds_below among format_uint fan_modes
  fan_table = refl

  listed_of_accepted :
      (v : ℕ) (s : FanSpeed) → new_fan_speed v ≡ ok s → Among (format_uint v) fan_modes
  unfolding new_fan_speed
  listed_of_accepted v s h =
      let positive : 1 ≤ v = ground arith in
      let bounded : v < 11 = ground arith in
      let listed =
        holds_below_at (λ n. ltb n 1 || among (format_uint n) fan_modes) 11 v bounded fan_table in
      among_sound (format_uint v) fan_modes (ground arith)

  modes_accepted : All Accepts (climate_payload topics ha_cfg firmware).fan_modes
  unfolding climate_payload parse_digits new_fan_speed
  modes_accepted = (
    (1, refl, record { value = 1 }, refl),
    (
      (2, refl, record { value = 2 }, refl),
      (
        (3, refl, record { value = 3 }, refl),
        (
          (4, refl, record { value = 4 }, refl),
          (
            (5, refl, record { value = 5 }, refl),
            (
              (6, refl, record { value = 6 }, refl),
              (
                (7, refl, record { value = 7 }, refl),
                (
                  (8, refl, record { value = 8 }, refl),
                  (
                    (9, refl, record { value = 9 }, refl),
                    ((10, refl, record { value = 10 }, refl), tt),
                  ),
                ),
              ),
            ),
          ),
        ),
      ),
    ),
  )

  -- A fan speed, in decimal, is one of the climate config's fan modes just when `NewFanSpeed` accepts
  -- it, for every speed that a uint64 holds.
  pub fan_modes_iff :
      (v : ℕ)
      → v < 2 ^ 64
      → Among (format_uint v) (climate_payload topics ha_cfg firmware).fan_modes
        ↔ ((s : FanSpeed) × (new_fan_speed v ≡ ok s))
  unfolding fan_modes
  fan_modes_iff v h = (
    λ m.
        accepted_of_listed v (format_uint v) (parse_digits-format_uint v h)
          (climate_payload topics ha_cfg firmware).fan_modes modes_accepted m,
    λ a. listed_of_accepted v a.0 a.1,
  )

  -- The climate config's limits are those that are accepted: `NewTemperature` accepts a temperature
  -- just when it is a number that is not below the minimum and not above the maximum.
  pub temperature_limits :
      (c : Float64)
      → (new_temperature c ≡ ok (record { celsius = c })) ↔ (
          (is_nan c ≡ false)
          × (less c (climate_payload topics ha_cfg firmware).min_temp ≡ false)
          × (less (climate_payload topics ha_cfg firmware).max_temp c ≡ false))
  unfolding climate_payload
  temperature_limits c = accepted_iff c
