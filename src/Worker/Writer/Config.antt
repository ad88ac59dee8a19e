-- ===== src/Worker/Writer/Config.antt =====
-- engine/internal/clickhouse/writer.go: the settings of the writer, its helpers on the environment
-- and on metadata, and the connection's placeholders.
use quantumbilling.Common.{List, [], ◌∷◌, Text, text, is_empty, Option, none, some, if◌then◌else◌}
use quantumbilling.Common.Int.{ℤ}
use quantumbilling.Settings.{Os}
use quantumbilling.Worker.Writer.{Writer}

pub record WriterConfig : Type 0 where
  pub addr : Text
  pub db : Text
  pub user : Text
  pub password : Text

unfoldable pub default_writer_config : WriterConfig
default_writer_config = record {
  addr = text "localhost:9000";
  db = text "events";
  user = text "default";
  password = [];
}

-- `Ping` and `Close`, which have no error
unfoldable pub ping : Writer → Option Text
ping w = none

unfoldable pub close : Writer → Option Text
close w = none

module _ (os : Os) where
  unfoldable pub get_env : Text → Text → Text
  get_env key default_val = if is_empty (os.get_env key) then default_val else os.get_env key

  -- `getEnvInt`
  unfoldable pub env_int : Text → ℤ → ℤ
  env_int key default_val =
      if is_empty (os.get_env key)
      then default_val
      else elim (os.atoi (os.get_env key)) [ some v ↦ v | none ↦ default_val ]

  -- `getEnvDuration`
  unfoldable pub env_duration : Text → ℤ → ℤ
  env_duration key default_val =
      if is_empty (os.get_env key)
      then default_val
      else elim (os.parse_duration (os.get_env key)) [ some d ↦ d | none ↦ default_val ]

-- `MarshalMetadata`, with json.Marshal on a map of strings, whose error leaves no bytes.
unfoldable pub marshal_metadata : (List (Text × Text) → Option Text) → List (Text × Text) → Text
marshal_metadata marshal [] = text "{}"
marshal_metadata marshal (f ∷ fs) = elim (marshal (f ∷ fs)) [ none ↦ [] | some b ↦ b ]
