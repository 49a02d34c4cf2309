-- ===== src/Rbac/Config.antt =====
-- internal/rbac/config.go: the configuration that rbac.yaml gives. The file system and the YAML
-- parser are parameters.
use fusion_bff.Base.{String, List, Dict, Result, ok, err, wrapped, ◌==◌, if◌then◌else◌, map}
use fusion_bff.Rbac.Route.{RouteRule}

-- `RBACConfig`
pub record RbacConfig : Type 0 where
  pub group_source : String
  pub group_roles : Dict (List String)
  pub user_roles : Dict (List String)
  pub role_permissions : Dict (List String)
  pub route_permissions : List RouteRule
  pub permission_implies : Dict (List String)

-- The default of `group_source`.
abbrev pub with_default_source : RbacConfig → RbacConfig
with_default_source cfg =
    if cfg.group_source == "" then record cfg { group_source = "jwt" } else cfg

-- `LoadConfig`, over what reading the file and parsing its bytes gave.
unfoldable pub load_config :
    {Bytes : Type 0} → Result Bytes → (Bytes → Result RbacConfig) → Result RbacConfig
load_config (err e) parse = err (wrapped "rbac: read config" e)
load_config (ok bytes) parse = elim (parse bytes) [
  | err e ↦ err (wrapped "rbac: parse config" e)
  | ok cfg ↦ ok (with_default_source cfg)
]

-- The keys of a map of slices, as a `range` over it lists them.
unfoldable pub keys : Dict (List String) → List String
keys m = map (λ entry. entry.0) m

-- `GroupNames`
unfoldable pub group_names : RbacConfig → List String
group_names cfg = keys cfg.group_roles
