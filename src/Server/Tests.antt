-- ===== src/Server/Tests.antt =====
-- A start with a database and the embedded provider, and the routes that it serves.
use fusion_bff.Base.{
  str_le, ℕ, some, true, false, [], ◌∷◌, lookup, All, ok, err, plain, ◌≡◌, refl, ◌/◌, string_eq,
  is_empty, trim_space,
}
use fusion_bff.Rbac.Config.{RbacConfig, load_config}
use fusion_bff.Db.Tables.{OwnerGroupRow, Database, find_row}
use fusion_bff.Db.OwnerGroups.{ensure_owner_group}
use fusion_bff.Db.Pools.{pool_of}
use fusion_bff.Allowlist.{new_checker}
use fusion_bff.Handler.Admin.Names.{matches_tail, valid_owner_group_name}
use fusion_bff.Config.{
  Env, Durations, Config, check_required, get_env, parse_duration, default_owner_group_of,
}
use fusion_bff.Config.Load.{load, load_times, bypass_of, settings, override_bypass}
use fusion_bff.Presets.{load_presets, no_presets}
use fusion_bff.Server.{info, log_level_of}
use fusion_bff.Server.Start.{
  Outside, App, needs_db, build_engine, check_source, check_default_group, seed_default_group,
  open_pool, migrate, connect, check_urls, start,
}
use fusion_bff.Server.Wired.{IsWired, start-IsWired}
use fusion_bff.Server.Addresses.{IsAddressed, load-IsAddressed}
use fusion_bff.Server.Routes.{Handlers, all_routes}
use fusion_bff.Server.Guarded.{IsGuarded, all_routes-IsGuarded}
use fusion_bff.Server.Unambiguous.{IsUnambiguous, all_routes-IsUnambiguous}

program : Unit {0}
unfolding start log_level_of needs_db build_engine check_source check_default_group
    seed_default_group open_pool migrate connect check_urls load load_config load_presets lookup
    find_row ensure_owner_group matches_tail valid_owner_group_name check_required get_env
    load_times parse_duration is_empty override_bypass settings bypass_of default_owner_group_of
    trim_space
program = tt

abbrev clock : Durations ℕ
clock = record {
  nanoseconds = λ n. n / 1000000000;
  parse = λ text. err (plain "time: invalid duration");
  quoted = λ text. text;
}

abbrev env : Env
env key = lookup key (("OIDC_BYPASS", "true") ∷ ("DB_DSN", "postgres://") ∷ [])

abbrev db : Database
db = record {
  group_roles = [];
  user_roles = [];
  resource_perms = [];
  service_statuses = [];
  owner_groups = [];
  mappings = [];
  members = [];
  preferences = [];
  collate = str_le;
}

abbrev rbac_cfg : RbacConfig
rbac_cfg = record {
  group_source = "db";
  group_roles = [];
  user_roles = [];
  role_permissions = [];
  route_permissions = [];
  permission_implies = [];
}

abbrev out : Outside
out = record {
  rbac_file = λ path. ok "group_source: db";
  parse_rbac = λ bytes. ok rbac_cfg;
  presets_file = λ path. err (plain "no such file");
  is_not_exist = λ e. true;
  parse_presets = λ bytes. ok no_presets;
  quoted = λ path. path;
  pool_new = λ dsn. ok tt;
  ping = ok tt;
  exec_schema = ok tt;
  pool = pool_of (ok tt) (λ s. s) db;
  link = ok tt;
  parse_url = λ url. ok tt;
}

abbrev cfg : Config ℕ
cfg = override_bypass (
    settings env
      (record { jwks = 900; sa_token = 300; allowlist = 30; session = 28800; probe = 5 }))

abbrev default_row : OwnerGroupRow
default_row = record {
  id = 1;
  name = "default";
  description = "Default owner group — every user is a member";
  created_by = "system";
  created_at = 0;
}

abbrev app : App ℕ
app = record {
  cfg = cfg;
  rbac_cfg = rbac_cfg;
  presets = no_presets;
  pool = some out.pool;
  engine = build_engine rbac_cfg (some out.pool) "default";
  has_admin = true;
  has_owner_groups = true;
  has_mock = true;
  checker = new_checker [];
  db = record db { owner_groups = default_row ∷ [] };
}

started : start out clock env 1 0 db ≡ ok app
unfolding program
started = refl

start-IsWired_example : IsWired app
start-IsWired_example = start-IsWired out clock env 1 0 db app started

abbrev handlers : Handlers
handlers = record {
  admin = true;
  resource_perm = true;
  owner_group = false;
  preferences = true;
  presets = true;
  system_health = true;
  mock = false;
}

all_routes-IsGuarded_example : All IsGuarded (all_routes handlers)
all_routes-IsGuarded_example = all_routes-IsGuarded handlers

all_routes-IsUnambiguous_example : IsUnambiguous (all_routes handlers)
all_routes-IsUnambiguous_example = all_routes-IsUnambiguous handlers

verbose : log_level_of "verbose" ≡ (info, false)
unfolding program
verbose = refl

load-IsAddressed_example : IsAddressed cfg
unfolding program
load-IsAddressed_example = load-IsAddressed clock env cfg refl refl
