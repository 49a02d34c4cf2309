-- ===== src/Server/Start.antt =====
-- cmd/server/main.go: `main` up to the point where it serves, and internal/db/db.go. The files, the
-- parsers, the database driver and `url.Parse` are parameters. Each exit of the process is an error.
use fusion_bff.Base.{
  ℕ, String, Bool, not, ◌||◌, ◌&&◌, Option, none, some, [], ◌==◌, if◌then◌else◌, is_empty, is_some,
  Result, ok, err, Error, plain, wrapped, ◌>>=◌,
}
use fusion_bff.Rbac.Config.{RbacConfig, load_config}
use fusion_bff.Rbac.Engine.{Engine, new_engine, with_owner_groups, with_default_owner_group}
use fusion_bff.Db.{Pool}
use fusion_bff.Db.Tables.{Database}
use fusion_bff.Db.OwnerGroups.{ensure_owner_group}
use fusion_bff.Allowlist.{StaticChecker, new_checker}
use fusion_bff.Handler.Admin.Names.{valid_owner_group_name}
use fusion_bff.Config.{Env, Durations, Config}
use fusion_bff.Config.Load.{load}
use fusion_bff.Presets.{PresetsConfig, load_presets}

-- What the process finds when it starts: the answers of the packages that it calls.
pub record Outside : Type 0 where
  pub rbac_file : String → Result String
  pub parse_rbac : String → Result RbacConfig
  pub presets_file : String → Result String
  pub is_not_exist : Error → Bool
  pub parse_presets : String → Result PresetsConfig
  pub quoted : String → String
  pub pool_new : String → Result (Unit {0})
  pub ping : Result (Unit {0})
  pub exec_schema : Result (Unit {0})
  pub pool : Pool
  pub link : Result (Unit {0})
  pub parse_url : String → Result (Unit {0})

-- What `main` hands to the router: the nil handlers are those whose flag is false. The admin
-- handlers and the one for resource permissions are nil together.
pub record App (Duration : Type 0) : Type 0 where
  pub cfg : Config Duration
  pub rbac_cfg : RbacConfig
  pub presets : PresetsConfig
  pub pool : Option Pool
  pub engine : Engine
  pub has_admin : Bool
  pub has_owner_groups : Bool
  pub has_mock : Bool
  pub checker : StaticChecker
  pub db : Database

-- A failed step: what is logged before `os.Exit(1)`.
abbrev pub logged : {A : Type 0} → String → Result A → Result A
logged message (ok a) = ok a
logged message (err e) = err (wrapped message e)

-- `group_source` asks for the database.
unfoldable pub needs_db : RbacConfig → Bool
needs_db cfg = cfg.group_source == "db" || cfg.group_source == "both"

-- The engine that `main` builds, with the pool that it has opened, if any.
unfoldable pub build_engine : RbacConfig → Option Pool → String → Engine
build_engine rbac_cfg pool default_group =
    let base = new_engine rbac_cfg (if needs_db rbac_cfg then pool else none) in
    let named =
      if is_empty default_group then base else with_default_owner_group default_group base in
    elim pool [ none ↦ named | some p ↦ with_owner_groups (some p) named ]

-- The tests that make `main` exit: no database for a source that needs one, and a default owner group
-- without a valid name.
unfoldable pub check_source : RbacConfig → Option Pool → Result (Unit {0})
check_source rbac_cfg (some _) = ok tt
check_source rbac_cfg none =
    if needs_db rbac_cfg
    then err (plain "DB_DSN is required when rbac group_source is set")
    else ok tt

unfoldable pub check_default_group : String → Result (Unit {0})
check_default_group g =
    if not (is_empty g) && not (valid_owner_group_name g)
    then err (plain "invalid DEFAULT_OWNER_GROUP")
    else ok tt

-- Seeds the default owner group, if there is a pool and a default group; `id` and `now` are those of
-- a new row.
unfoldable pub seed_default_group :
    Result (Unit {0}) → ℕ → ℕ → Option Pool → String → Database → Result Database
seed_default_group link id now none g db = ok db
seed_default_group link id now (some _) g db =
    if is_empty g
    then ok db
    else (let (answer, db') =
          ensure_owner_group link db id now g "Default owner group — every user is a member" in
        elim answer [ err e ↦ err (wrapped "seed default owner group" e) | ok _ ↦ ok db' ])

module _ (out : Outside) where
  -- `Open`
  unfoldable pub open_pool : String → Result Pool
  open_pool dsn = elim (out.pool_new dsn) [
    | err e ↦ err (wrapped "db: open pool" e)
    | ok _ ↦ elim out.ping [ err e ↦ err (wrapped "db: ping" e) | ok _ ↦ ok out.pool ]
  ]

  -- `Migrate`
  unfoldable pub migrate : Result (Unit {0})
  migrate = elim out.exec_schema [ err e ↦ err (wrapped "db: migrate" e) | ok _ ↦ ok tt ]

  -- The pool, opened and migrated, if `DB_DSN` is set.
  unfoldable pub connect : String → Result (Option Pool)
  connect dsn =
      if is_empty dsn
      then ok none
      else (do pool ← logged "db" (open_pool dsn); _ ← logged "db migrate" migrate; ok (some pool))

  -- The addresses of the services must be URLs.
  unfoldable pub check_urls : {Duration : Type 0} → Config Duration → Result (Unit {0})
  check_urls cfg = do
    _ ← logged "forge proxy" (out.parse_url cfg.forge_url)
    _ ← logged "index proxy" (out.parse_url cfg.index_url)
    _ ← logged "weave proxy" (out.parse_url cfg.weave_url)
    _ ← logged "wizard proxy" (out.parse_url cfg.wizard_url)
    logged "content proxy" (out.parse_url cfg.content_url)

  -- The two configuration files.
  abbrev pub read_rbac : {Duration : Type 0} → Config Duration → Result RbacConfig
  read_rbac cfg =
      logged "rbac config" (load_config (out.rbac_file cfg.rbac_config_path) out.parse_rbac)

  abbrev pub read_presets : {Duration : Type 0} → Config Duration → Result PresetsConfig
  read_presets cfg =
      let path = cfg.presets_config_path in
      logged "presets config"
        (load_presets (out.quoted path) (out.presets_file path) out.is_not_exist out.parse_presets)

  -- `main` up to `NewRouter`. A process that exits after the seeding leaves the seeded row behind.
  unfoldable pub start :
      {Duration : Type 0} → Durations Duration → Env → ℕ → ℕ → Database → Result (App Duration)
  start time env id now db = do
    cfg ← logged "config" (load time env)
    rbac_cfg ← read_rbac cfg
    presets ← read_presets cfg
    pool ← connect cfg.db_dsn
    _ ← check_source rbac_cfg pool
    _ ← check_default_group cfg.default_owner_group
    db' ← seed_default_group out.link id now pool cfg.default_owner_group db
    _ ← check_urls cfg
    ok (record {
      cfg = cfg;
      rbac_cfg = rbac_cfg;
      presets = presets;
      pool = pool;
      engine = build_engine rbac_cfg pool cfg.default_owner_group;
      has_admin = needs_db rbac_cfg;
      has_owner_groups = is_some pool;
      has_mock = cfg.oidc_bypass;
      checker = if cfg.oidc_bypass then new_checker [] else new_checker cfg.allowed_users;
      db = db';
    })
