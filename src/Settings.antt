-- ===== src/Settings.antt =====
-- The settings that the programs read from the environment: the helpers of
-- engine/cmd/ingest-api/main.go, engine/internal/handler and engine/internal/clickhouse/writer.go.
use quantumbilling.Common.{Text, is_empty, Option, none, some, if◌then◌else◌}
use quantumbilling.Common.Int.{ℤ}

-- os.Getenv, strconv.Atoi and time.ParseDuration, in seconds.
pub record Os : Type 0 where
  pub get_env : Text → Text
  pub atoi : Text → Option ℤ
  pub parse_duration : Text → Option ℤ

module _ (os : Os) where
  -- `envOrDefault`, and `getEnv` of the writer
  unfoldable pub env_or_default : Text → Text → Text
  env_or_default key default_val = if is_empty (os.get_env key) then default_val else os.get_env key

  unfoldable pub get_env_int : Text → ℤ → ℤ
  get_env_int key default_val =
      if is_empty (os.get_env key)
      then default_val
      else elim (os.atoi (os.get_env key)) [ some v ↦ v | none ↦ default_val ]

  -- `getEnvDuration` of the ingest handler
  unfoldable pub get_env_duration : Text → ℤ → ℤ
  get_env_duration key default_val =
      if is_empty (os.get_env key) then default_val else elim (os.parse_duration (os.get_env key)) [
        | some d ↦ d
        | none ↦ elim (os.atoi (os.get_env key)) [ some secs ↦ secs | none ↦ default_val ]
      ]
