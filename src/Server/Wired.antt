-- ===== src/Server/Wired.antt =====
-- What holds of the parts that `main` has put together when it starts to serve.
use fusion_bff.Base.{
  ℕ, String, true, false, Option, none, some, List, [], ◌∷◌, ◌==◌, is_empty, is_empty_iff, is_some,
  Result, ok, err, >>=-eq-ok, ◌≡◌, refl, subst, ◌⊎◌, inl, inr, Bool-cases, Option-cases,
  Result-cases, eq_iff, arith,
}
use fusion_bff.Rbac.Config.{RbacConfig}
use fusion_bff.Rbac.Engine.{new_engine, with_owner_groups, with_default_owner_group}
use fusion_bff.Db.{Pool}
use fusion_bff.Db.Tables.{OwnerGroupRow, Database, find_row}
use fusion_bff.Db.OwnerGroups.{ensure_owner_group}
use fusion_bff.Db.OwnerGroups.Consistent.{Exists}
use fusion_bff.Handler.Admin.Names.{valid_owner_group_name}
use fusion_bff.Config.{Env, Durations}
use fusion_bff.Config.Usable.{IsUsable, load-IsUsable}
use fusion_bff.Config.Load.{load}
use fusion_bff.Server.Start.{
  Outside, App, logged, needs_db, build_engine, check_source, check_default_group,
  seed_default_group, read_rbac, read_presets, connect, check_urls, start,
}

logged-ok :
    {A : Type 0} (message : String) (r : Result A) {a : A} → logged message r ≡ ok a → r ≡ ok a
logged-ok message (ok _) h = h
logged-ok message (err _) h = cc

find_row-Exists :
    (name : String) (groups : List OwnerGroupRow) (g : OwnerGroupRow)
    → find_row (λ row. row.name == name) groups ≡ some g
    → Exists name groups
unfolding find_row
find_row-Exists name [] g h = cc
find_row-Exists name (row ∷ groups) g h = elim (Bool-cases (row.name == name)) [
  | inl same ↦ inl ((eq_iff row.name name).0 same)
  | inr other ↦ inr (find_row-Exists name groups g (rw other at h))
]

-- After the default owner group has been seeded over a connection that works, it exists.
pub ensure_owner_group-Exists :
    (link : Result (Unit {0})) (db : Database) (id now : ℕ) (name description : String)
    → (ensure_owner_group link db id now name description).0 ≡ ok tt
    → Exists name (ensure_owner_group link db id now name description).1.owner_groups
unfolding ensure_owner_group
ensure_owner_group-Exists (err e) db id now name description h = cc
ensure_owner_group-Exists (ok _) db id now name description h =
    elim (Option-cases (find_row (λ row. row.name == name) db.owner_groups)) [
      | inl absent ↦ rw (absent, ensure_owner_group) (inl refl)
      | inr (g, found) ↦
          rw (found, ensure_owner_group) (find_row-Exists name db.owner_groups g found)
    ]

ok_inj : {A : Type 0} {x y : A} → ok x ≡ ok y → x ≡ y
ok_inj e = cc

abbrev description : String
description = "Default owner group — every user is a member"

-- The parts fit together.
pub record IsWired {Duration : Type 0} (app : App Duration) : Type 0 where
  pub config : IsUsable app.cfg
  pub admin : app.has_admin ≡ needs_db app.rbac_cfg
  pub source : (app.has_admin ≡ false) ⊎ ((pool : Pool) × (app.engine.pool ≡ some pool))
  pub owners : app.engine.owner_pool ≡ app.pool
  pub default : app.engine.default_owner_group ≡ app.cfg.default_owner_group
  pub default_name :
      (app.cfg.default_owner_group ≡ "")
      ⊎ (valid_owner_group_name app.cfg.default_owner_group ≡ true)
  pub seeded :
      (app.has_owner_groups ≡ false)
      ⊎ ((app.cfg.default_owner_group ≡ "")
          ⊎ Exists app.cfg.default_owner_group app.db.owner_groups)

check_default_group-name :
    (g : String) → check_default_group g ≡ ok tt → (g ≡ "") ⊎ (valid_owner_group_name g ≡ true)
unfolding check_default_group
check_default_group-name g h =
    let empty = is_empty_iff g in
    elim (Bool-cases (is_empty g)) [
      | inl none_set ↦ inl (empty.0 none_set)
      | inr set ↦ elim (Bool-cases (valid_owner_group_name g)) [
        | inl valid ↦ inr valid
        | inr bad ↦ let failed = rw (set, bad, check_default_group) at h in cc
      ]
    ]

seed_default_group-Exists :
    (link : Result (Unit {0})) (id now : ℕ) (pool : Pool) (g : String) (db db' : Database)
    → seed_default_group link id now (some pool) g db ≡ ok db'
    → (g ≡ "") ⊎ Exists g db'.owner_groups
unfolding seed_default_group
seed_default_group-Exists link id now pool g db db' h =
    let empty = is_empty_iff g in
    elim (Bool-cases (is_empty g)) [
      | inl none_set ↦ inl (empty.0 none_set)
      | inr set ↦
          let seeded = ensure_owner_group link db id now g description in
          elim (Result-cases seeded.0) [
            | inr (e, bad) ↦ let failed = rw (set, bad, seed_default_group) at h in cc
            | inl (_, good) ↦
                let same : seeded.1 ≡ db' = ok_inj (rw (set, good, seed_default_group) at h) in
                inr (
                  subst (λ d. Exists g d.owner_groups) same
                    (ensure_owner_group-Exists link db id now g description good))
          ]
    ]

module _ (rbac_cfg : RbacConfig) (g : String) where
  build_engine-owners : (pool : Option Pool) → (build_engine rbac_cfg pool g).owner_pool ≡ pool
  unfolding build_engine new_engine with_owner_groups with_default_owner_group
  build_engine-owners none = ground arith
  build_engine-owners (some pool) = refl

  build_engine-default :
      (pool : Option Pool) → (build_engine rbac_cfg pool g).default_owner_group ≡ g
  unfolding build_engine new_engine with_owner_groups with_default_owner_group
  build_engine-default none = ground (arith, is_empty_iff g)
  build_engine-default (some pool) = ground (arith, is_empty_iff g)

  build_engine-source :
      (pool : Option Pool)
      → check_source rbac_cfg pool ≡ ok tt
      → (needs_db rbac_cfg ≡ false) ⊎ ((p : Pool) × ((build_engine rbac_cfg pool g).pool ≡ some p))
  unfolding build_engine new_engine with_owner_groups with_default_owner_group check_source
  build_engine-source none h = elim (Bool-cases (needs_db rbac_cfg)) [
    | inl needed ↦ let failed = rw (needed, check_source) at h in cc
    | inr free ↦ inl free
  ]
  build_engine-source (some pool) h = elim (Bool-cases (needs_db rbac_cfg)) [
    | inl needed ↦ inr (pool, rw needed (ground arith))
    | inr free ↦ inl free
  ]

seeded-Exists :
    (link : Result (Unit {0})) (id now : ℕ) (pool : Option Pool) (g : String) (db db' : Database)
    → seed_default_group link id now pool g db ≡ ok db'
    → (is_some pool ≡ false) ⊎ ((g ≡ "") ⊎ Exists g db'.owner_groups)
seeded-Exists link id now none g db db' h = inl refl
seeded-Exists link id now (some pool) g db db' h =
    inr (seed_default_group-Exists link id now pool g db db' h)

-- When the process starts to serve, its parts fit together. The configuration is usable. If the
-- roles come from the database, the engine has a pool, so that no call goes through a nil pool; else
-- the admin handlers are absent. The default owner group is empty or a valid name, and with a
-- database it exists there. The engine has that group, and the pool for owner groups.
pub start-IsWired :
    {Duration : Type 0} (out : Outside) (time : Durations Duration) (env : Env) (id now : ℕ)
    (db : Database) (app : App Duration)
    → start out time env id now db ≡ ok app
    → IsWired app
unfolding start
start-IsWired out time env id now db app done =
    let (cfg, loaded, done) = >>=-eq-ok (logged "config" (load time env)) _ done in
    let (rbac_cfg, _, done) = >>=-eq-ok (read_rbac out cfg) _ done in
    let (presets, _, done) = >>=-eq-ok (read_presets out cfg) _ done in
    let (pool, _, done) = >>=-eq-ok (connect out cfg.db_dsn) _ done in
    let (_, checked, done) = >>=-eq-ok (check_source rbac_cfg pool) _ done in
    let (_, named, done) = >>=-eq-ok (check_default_group cfg.default_owner_group) _ done in
    let (db', seeded, done) =
      >>=-eq-ok (seed_default_group out.link id now pool cfg.default_owner_group db) _ done in
    let (_, _, made) = >>=-eq-ok (check_urls out cfg) _ done in
    subst IsWired (ok_inj made) (record {
      config = load-IsUsable time env cfg (logged-ok "config" (load time env) loaded);
      admin = refl;
      source = build_engine-source rbac_cfg cfg.default_owner_group pool checked;
      owners = build_engine-owners rbac_cfg cfg.default_owner_group pool;
      default = build_engine-default rbac_cfg cfg.default_owner_group pool;
      default_name = check_default_group-name cfg.default_owner_group named;
      seeded = seeded-Exists out.link id now pool cfg.default_owner_group db db' seeded;
    })
