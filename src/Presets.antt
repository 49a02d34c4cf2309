-- ===== src/Presets.antt =====
-- internal/presets/config.go and internal/api/handler/presets.go: the presets that the front end
-- offers. The file system and the YAML parser are parameters.
use fusion_bff.Base.{String, Bool, List, [], Result, ok, err, Error, wrapped, if◌then◌else◌}
use fusion_bff.Config.{◌<>◌}
use fusion_bff.Handler.{Reply, json}

-- `KafkaPreset`
pub record KafkaPreset : Type 0 where
  pub name : String
  pub brokers : List String
  pub secret_ref : String

-- `SecretPreset`
pub record SecretPreset : Type 0 where
  pub name : String
  pub secret_name : String
  pub secret_key : String

-- `Config` of package presets.
pub record PresetsConfig : Type 0 where
  pub kafka : List KafkaPreset
  pub secrets : List SecretPreset

abbrev pub no_presets : PresetsConfig
no_presets = record { kafka = []; secrets = [] }

-- `LoadConfig`, over what reading the file gave, `os.IsNotExist`, and the parser; `quoted` is the path
-- as `%q` writes it.
unfoldable pub load_presets :
    {Bytes : Type 0}
    → String
    → Result Bytes
    → (Error → Bool)
    → (Bytes → Result PresetsConfig)
    → Result PresetsConfig
load_presets quoted (err e) is_not_exist unmarshal =
    if is_not_exist e then ok no_presets else err (wrapped ("presets: read config " <> quoted) e)
load_presets quoted (ok bytes) is_not_exist unmarshal = elim (unmarshal bytes) [
  | err e ↦ err (wrapped "presets: parse config" e)
  | ok cfg ↦ ok cfg
]

-- `PresetsHandler.List`
unfoldable pub get_presets : PresetsConfig → Reply PresetsConfig
get_presets cfg = json 200 cfg
