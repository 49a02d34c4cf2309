-- ===== src/Handler/Preferences.antt =====
-- internal/api/handler/preferences.go, with `SetPreferredOwnerGroup` and `ClearPreferredOwnerGroup`
-- of internal/rbac/engine.go. The session of the request is the one that `SessionAuth` found.
pub mod Laws
use fusion_bff.Base.{
  String, Bool, true, false, not, Option, none, some, List, ◌==◌, is_empty, contains, string_eq,
  if◌then◌else◌, Result, ok, err, plain,
}
use fusion_bff.Session.{Session, SessionStore, update}
use fusion_bff.Rbac.Engine.{Engine, preferences_enabled, nil_pool}
use fusion_bff.Db.Tables.{Database}
use fusion_bff.Db.OwnerGroups.{upsert_preferred_owner_group, delete_preferred_owner_group}
use fusion_bff.Handler.{Reply, abort, json, internal_error}
use fusion_bff.Handler.Auth.{preferred_owner_group}

-- The body of the replies: the stored preference and the effective one, or null.
pub record Preferences : Type 0 where
  pub preferred_owner_group : Option String
  pub effective : Option String

-- The session store and the database behind the engine's pool, which the handlers change.
pub record World : Type 0 where
  pub store : SessionStore
  pub db : Database

module _ (engine : Engine) (link : Result (Unit {0})) where
  -- `SetPreferredOwnerGroup`
  unfoldable pub set_preferred_owner_group :
      String → String → Database → Result (Unit {0}) × Database
  set_preferred_owner_group user_id owner_group db = elim engine.owner_pool [
    | none ↦ (err nil_pool, db)
    | some _ ↦ upsert_preferred_owner_group link db user_id owner_group
  ]

  -- `ClearPreferredOwnerGroup`
  unfoldable pub clear_preferred_owner_group : String → Database → Result (Unit {0}) × Database
  clear_preferred_owner_group user_id db = elim engine.owner_pool [
    | none ↦ (err nil_pool, db)
    | some _ ↦ delete_preferred_owner_group link db user_id
  ]

  -- `view`
  unfoldable pub view : Session → Preferences
  view sess = record {
    preferred_owner_group =
        if is_empty sess.preferred_owner_group then none else some sess.preferred_owner_group;
    effective = preferred_owner_group engine sess;
  }

  -- `Get`
  unfoldable pub get_preferences : Session → Reply Preferences
  get_preferences sess = json 200 (view sess)

  -- `updateSession`: an error of the session store is only logged.
  unfoldable pub update_session : Session → String → World → Reply Preferences × World
  update_session sess preferred w =
      let sess' = record sess { preferred_owner_group = preferred } in
      (json 200 (view sess'), record w { store = (update sess' w.store).1 })

  -- `persistable`: the reply that stops a write, if any.
  unfoldable pub persistable : Session → Option (Reply Preferences)
  persistable sess =
      if not (preferences_enabled engine)
      then some (abort 503 "preferences require a database (DB_DSN)")
      else if is_empty sess.user_id
      then some (abort 400 "token carries no user id claim; preferences cannot be stored")
      else none

  -- The end of `Put` and `Delete`, with the answer of the database.
  unfoldable pub after_write :
      Session → String → Result (Unit {0}) × Database → World → Reply Preferences × World
  after_write sess preferred (err e, db) w = (internal_error, record w { db = db })
  after_write sess preferred (ok _, db) w = update_session sess preferred (record w { db = db })

  -- `Put`; the body is an error where the JSON cannot be bound or the field is missing or empty.
  unfoldable pub put_preferences : Session → Result String → World → Reply Preferences × World
  put_preferences sess body w = elim body [
    | err _ ↦ (abort 400 "preferred_owner_group is required", w)
    | ok group ↦ elim (persistable sess) [
      | some reply ↦ (reply, w)
      | none ↦
          if not (contains sess.owner_groups group)
          then (abort 400 "not a member of that owner group", w)
          else after_write sess group (set_preferred_owner_group sess.user_id group w.db) w
    ]
  ]

  -- `Delete`
  unfoldable pub delete_preferences : Session → World → Reply Preferences × World
  delete_preferences sess w = elim (persistable sess) [
    | some reply ↦ (reply, w)
    | none ↦ after_write sess "" (clear_preferred_owner_group sess.user_id w.db) w
  ]
