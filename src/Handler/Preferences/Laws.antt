-- ===== src/Handler/Preferences/Laws.antt =====
-- When a preference is stored, and what the user sees of it.
use fusion_bff.Base.{
  String, true, false, is_empty, is_empty_iff, contains, contains_iff, string_eq, is_some, some,
  if◌then◌else◌, ◌==◌, lookup, lookup-insert, Result, ok, err, Error, insert, ◌∈◌, ◌≡◌, refl, ◌≢◌,
  ◌⊎◌, inl, inr, Bool-cases, Option-cases, Result-cases,
}
use fusion_bff.Session.{Session, get}
use fusion_bff.Session.Calls.{sessions_of}
use fusion_bff.Session.Updates.{lookup-get, sessions_of-update, update-rest}
use fusion_bff.Rbac.Engine.{Engine, preferences_enabled, effective_preferred_owner_group}
use fusion_bff.Db.Tables.{Database}
use fusion_bff.Db.OwnerGroups.{upsert_preferred_owner_group}
use fusion_bff.Handler.{Reply, json}
use fusion_bff.Handler.Auth.{preferred_owner_group}
use fusion_bff.Handler.Preferences.{
  World, Preferences, set_preferred_owner_group, view, update_session, persistable, after_write,
  put_preferences,
}

set_preferred-upsert :
    (engine : Engine) (link : Result (Unit {0})) (user_id group : String) (db : Database)
    → is_some engine.owner_pool ≡ true
    → set_preferred_owner_group engine link user_id group db
      ≡ upsert_preferred_owner_group link db user_id group
unfolding set_preferred_owner_group
set_preferred-upsert engine link user_id group db h = elim (Option-cases engine.owner_pool) [
  | inl absent ↦ (let no_pool : is_some engine.owner_pool ≡ false = rw absent refl in cc)
  | inr (pool, found) ↦ rw (found, set_preferred_owner_group) refl
]

upsert-down :
    (link : Result (Unit {0})) (db : Database) (user_id group : String) (e : Error)
    → link ≡ err e
    → upsert_preferred_owner_group link db user_id group ≡ (err e, db)
unfolding upsert_preferred_owner_group
upsert-down (err e') db user_id group e h = (let same : e' ≡ e = cc in rw same refl)
upsert-down (ok _) db user_id group e h = cc

upsert-up :
    (link : Result (Unit {0})) (db : Database) (user_id group : String)
    → link ≡ ok tt
    → upsert_preferred_owner_group link db user_id group
      ≡ (ok tt, record db { preferences = insert user_id group db.preferences })
unfolding upsert_preferred_owner_group
upsert-up (err e') db user_id group h = cc
upsert-up (ok _) db user_id group h = refl

module _ (engine : Engine) (link : Result (Unit {0})) (sess : Session) where
  -- The preference can be stored: there is a database that answers, a user id in the session, and a
  -- group in the body that the user belongs to.
  abbrev pub IsStorable : Result String → String → Type 0
  IsStorable body group =
      (body ≡ ok group)
      × (is_some engine.owner_pool ≡ true)
      × (sess.user_id ≢ "")
      × (group ∈ sess.owner_groups)
      × (link ≡ ok tt)

  -- The group is the preference of the session and of the user in the database; the other sessions,
  -- the preferences of other users, the other tables and the rest of the store are as before.
  abbrev pub IsStored : String → World → World → Type 0
  IsStored group w w' =
      ((q : String)
        → sessions_of w'.store q ≡ (
            if sess.id == q
            then some (record sess { preferred_owner_group = group })
            else sessions_of w.store q))
      × ((u : String)
          → lookup u w'.db.preferences
            ≡ (if sess.user_id == u then some group else lookup u w.db.preferences))
      × (w'.db ≡ record w.db { preferences = w'.db.preferences })
      × (w'.store ≡ record w.store { sessions = w'.store.sessions })

  -- The reply that shows the group as the stored preference and the effective one.
  abbrev pub shown : String → Reply Preferences
  shown group = json 200 (record { preferred_owner_group = some group; effective = some group })

  view-shown :
      (group : String)
      → group ≢ ""
      → contains sess.owner_groups group ≡ true
      → json 200 (view engine link (record sess { preferred_owner_group = group })) ≡ shown group
  unfolding view preferred_owner_group effective_preferred_owner_group
  view-shown group named own =
      let full : is_empty group ≡ false = elim (Bool-cases (is_empty group)) [
        | inl empty ↦ absurd (named ((is_empty_iff group).0 empty))
        | inr full ↦ full
      ] in
      rw (full, own, full) refl

  after_write-IsStored :
      (group : String) (w : World) (old : Session)
      → lookup sess.id w.store.sessions ≡ some old
      → IsStored group w
          (after_write engine link sess group
            (ok tt, record w.db { preferences = insert sess.user_id group w.db.preferences })
            w).1
  unfolding after_write update_session
  after_write-IsStored group w old found = (
    λ q. sessions_of-update q w.store old (record sess { preferred_owner_group = group }) found,
    λ u. lookup-insert sess.user_id u group w.db.preferences,
    refl,
    update-rest w.store old (record sess { preferred_owner_group = group }) found,
  )

  -- A body with a group of the user, whose session has a user id, is written to the database.
  put_preferences-writes :
      (group : String) (w : World)
      → is_some engine.owner_pool ≡ true
      → is_empty sess.user_id ≡ false
      → contains sess.owner_groups group ≡ true
      → put_preferences engine link sess (ok group) w
        ≡ after_write engine link sess group
            (upsert_preferred_owner_group link w.db sess.user_id group)
            w
  unfolding put_preferences persistable preferences_enabled
  put_preferences-writes group w present named own =
      let write = set_preferred-upsert engine link sess.user_id group w.db present in
      rw (present, named, own, write, put_preferences, persistable, preferences_enabled) refl

  -- The two ends of a write.
  abbrev Ends : Result String → World → Type 0
  Ends body w =
      ((group : String) × IsStorable body group
        × ((put_preferences engine link sess body w).0 ≡ shown group)
        × IsStored group w (put_preferences engine link sess body w).1)
      ⊎ (((group : String) → ¬ IsStorable body group)
          × ((put_preferences engine link sess body w).1 ≡ w))

  put_preferences-Ends :
      (group : String) (w : World) (old : Session)
      → get sess.id w.store ≡ ok old
      → group ≢ ""
      → is_some engine.owner_pool ≡ true
      → is_empty sess.user_id ≡ false
      → contains sess.owner_groups group ≡ true
      → Ends (ok group) w
  unfolding after_write update_session
  put_preferences-Ends group w old there full present named own =
      let writes = put_preferences-writes group w present named own in
      elim (Result-cases link) [
        | inr (e, down) ↦
            let failed = upsert-down link w.db sess.user_id group e down in
            inr (λ g (_, _, _, _, l). cc, rw (writes, failed, after_write) refl)
        | inl (_, up) ↦
            let done = upsert-up link w.db sess.user_id group up in
            let user : sess.user_id ≢ "" = λ e. (let n = (is_empty_iff sess.user_id).1 e in cc) in
            inl (
              group,
              (refl, present, user, (contains_iff sess.owner_groups group).0 own, up),
              rw (writes, done) (view-shown group full own),
              rw (writes, done)
                  (after_write-IsStored group w old (lookup-get sess.id w.store old there)),
            )
      ]

  -- A request to set the preference either can be stored, and then it succeeds: the group stands in
  -- the database for the user and in the session, nothing else changes, and the reply shows the group
  -- as the stored preference and as the effective one. Or it cannot, and then neither the database nor
  -- the sessions change. The session of the request must be stored under its id, and a body that can
  -- be bound must not hold an empty group.
  pub put_preferences_cases :
      (body : Result String) (w : World) (old : Session)
      → get sess.id w.store ≡ ok old
      → ((group : String) → body ≡ ok group → group ≢ "")
      → ((group : String) × IsStorable body group
          × ((put_preferences engine link sess body w).0 ≡ shown group)
          × IsStored group w (put_preferences engine link sess body w).1)
        ⊎ (((group : String) → ¬ IsStorable body group)
            × ((put_preferences engine link sess body w).1 ≡ w))
  unfolding put_preferences persistable preferences_enabled
  put_preferences_cases (err e) w old there bound = inr (λ group (b, _, _, _, _). cc, refl)
  put_preferences_cases (ok group) w old there bound =
      elim (Bool-cases (is_some engine.owner_pool)) [
        | inr absent ↦ inr (
          λ g (_, d, _, _, _). cc,
          rw (absent, put_preferences, persistable, preferences_enabled) refl,
        )
        | inl present ↦ elim (Bool-cases (is_empty sess.user_id)) [
          | inl nameless ↦ inr (
            λ g (_, _, n, _, _). n ((is_empty_iff sess.user_id).0 nameless),
            rw (present, nameless, put_preferences, persistable, preferences_enabled) refl,
          )
          | inr named ↦ elim (Bool-cases (contains sess.owner_groups group)) [
            | inr foreign ↦ inr (
              λ g (b, _, _, m, _).
                  let same : group ≡ g = cc in
                  let m' = (contains_iff sess.owner_groups group).1 (rw same m) in cc,
              rw (present, named, foreign, put_preferences, persistable, preferences_enabled) refl,
            )
            | inl own ↦ put_preferences-Ends group w old there (bound group refl) present named own
          ]
        ]
      ]
