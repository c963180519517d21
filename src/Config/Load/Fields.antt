-- ===== src/Config/Load/Fields.antt =====
-- infrastructure/config: what a helper of `Load` returns against the row of its variable.
use oasis_modbus2mqtt.Prelude.{ℕ, ◌≡◌, arith}
use oasis_modbus2mqtt.Prelude.Text.{Text, codes}
use oasis_modbus2mqtt.Prelude.Errors.{ok}
use oasis_modbus2mqtt.Prelude.Int.{ℤ}
use oasis_modbus2mqtt.Prelude.Time.{Duration}
use oasis_modbus2mqtt.Float64.{Float64}
use Prim.Native.String.{String}
use oasis_modbus2mqtt.Config.Load.{
  Parsers, Env, in_context, get_env_or_default, get_env_or_default_int, get_env_or_default_duration,
  get_env_or_default_byte, get_env_or_default_float,
}
use oasis_modbus2mqtt.Config.Load.Table.{ReadsText, ReadsInt, ReadsDuration, ReadsFloat, ReadsByte}

module _ (parsers : Parsers) (env : Env) where
  pub text_of :
      (key default : String)
      → ReadsText parsers env key default (get_env_or_default parsers env key (codes default))
  unfolding get_env_or_default
  text_of key default = ground arith

  pub of_text :
      (key default : String) (v : Text)
      → ReadsText parsers env key default v
      → get_env_or_default parsers env key (codes default) ≡ v
  unfolding get_env_or_default
  of_text key default v h = ground arith

  pub int_of :
      (context key : String) (default v : ℤ)
      → in_context context (get_env_or_default_int parsers env key default) ≡ ok v
      → ReadsInt parsers env key default v
  unfolding get_env_or_default_int
  int_of context key default v h = ground arith

  pub of_int :
      (context key : String) (default v : ℤ)
      → ReadsInt parsers env key default v
      → in_context context (get_env_or_default_int parsers env key default) ≡ ok v
  unfolding get_env_or_default_int
  of_int context key default v h = ground arith

  pub duration_of :
      (context key : String) (default v : Duration)
      → in_context context (get_env_or_default_duration parsers env key default) ≡ ok v
      → ReadsDuration parsers env key default v
  unfolding get_env_or_default_duration
  duration_of context key default v h = ground arith

  pub of_duration :
      (context key : String) (default v : Duration)
      → ReadsDuration parsers env key default v
      → in_context context (get_env_or_default_duration parsers env key default) ≡ ok v
  unfolding get_env_or_default_duration
  of_duration context key default v h = ground arith

  pub float_of :
      (context key : String) (default v : Float64)
      → in_context context (get_env_or_default_float parsers env key default) ≡ ok v
      → ReadsFloat parsers env key default v
  unfolding get_env_or_default_float
  float_of context key default v h = ground arith

  pub of_float :
      (context key : String) (default v : Float64)
      → ReadsFloat parsers env key default v
      → in_context context (get_env_or_default_float parsers env key default) ≡ ok v
  unfolding get_env_or_default_float
  of_float context key default v h = ground arith

  pub byte_of :
      (context key : String) (default v : ℕ)
      → in_context context (get_env_or_default_byte parsers env key default) ≡ ok v
      → ReadsByte parsers env key default v
  unfolding get_env_or_default_byte
  byte_of context key default v h = ground arith

  pub of_byte :
      (context key : String) (default v : ℕ)
      → ReadsByte parsers env key default v
      → in_context context (get_env_or_default_byte parsers env key default) ≡ ok v
  unfolding get_env_or_default_byte
  of_byte context key default v h = ground arith
