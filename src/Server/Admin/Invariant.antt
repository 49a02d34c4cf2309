-- ===== src/Server/Admin/Invariant.antt =====
-- What the requests below /bff/admin keep, and who can change the database by them.
use fusion_bff.Base.{ℕ, String, List, [], ◌∷◌, ok, ◌≡◌, ◌≢◌, refl, ◌⊎◌, inl, inr, ◌∈◌, some}
use fusion_bff.Db.Tables.{Database}
use fusion_bff.Db.OwnerGroups.Consistent.{HasId}
use fusion_bff.Session.{Session, get}
use fusion_bff.Middleware.{Outcome, denied, passes, session_id, session_auth}
use fusion_bff.Middleware.SessionAuth.{session_auth_iff}
use fusion_bff.Server.Admin.{
  AdminCall, creates_group_role, creates_user_role, creates_owner_group, creates_mapping,
  creates_resource_perm, creates_member, deletes_group_role, deletes_user_role,
  deletes_resource_perm, deletes_owner_group, deletes_mapping, deletes_member, upserts_override,
  deletes_override, permission_of, Setting, Arrival, run_call, serve_admin, serve_all,
}
use fusion_bff.Server.Admin.Kept.{
  post_group_role-same, post_user_role-same, post_resource_perm-same, upsert_override-same,
  remove_group_role-same, remove_user_role-same, remove_resource_perm-same, delete_override-same,
}
use fusion_bff.Server.Admin.Handlers.{
  IsSound, same-IsSound, post_owner_group-IsSound, post_mapping-IsSound, post_member-IsSound,
  remove_mapping-IsSound, remove_member-IsSound, delete_group_handler-IsSound,
}

Outcome-cases :
    {A : Type 0} (o : Outcome A)
    → ((code : ℕ) × (message : String) × (o ≡ denied code message)) ⊎ ((a : A) × (o ≡ passes a))
Outcome-cases (denied code message) = inl (code, message, refl)
Outcome-cases (passes a) = inr (a, refl)

-- Every route asks for a permission.
permission_of_cases :
    (call : AdminCall)
    → (permission_of call ≡ "admin:roles:manage") ⊎ (permission_of call ≡ "admin:health:manage")
unfolding permission_of
permission_of_cases (upserts_override service body) = inr refl
permission_of_cases (deletes_override service) = inr refl
permission_of_cases (creates_group_role body) = inl refl
permission_of_cases (creates_user_role body) = inl refl
permission_of_cases (creates_owner_group body) = inl refl
permission_of_cases (creates_mapping body) = inl refl
permission_of_cases (creates_resource_perm body) = inl refl
permission_of_cases (creates_member body) = inl refl
permission_of_cases (deletes_group_role param) = inl refl
permission_of_cases (deletes_user_role param) = inl refl
permission_of_cases (deletes_resource_perm param) = inl refl
permission_of_cases (deletes_owner_group param) = inl refl
permission_of_cases (deletes_mapping param) = inl refl
permission_of_cases (deletes_member param) = inl refl

permission_of-set : (call : AdminCall) → permission_of call ≢ ""
permission_of-set call h = elim (permission_of_cases call) [ inl roles ↦ cc | inr health ↦ cc ]

module _ (set : Setting) where
  run_call-IsSound :
      (a : Arrival) (sub : String) (call : AdminCall) (db : Database)
      → ¬ HasId a.new_id db.owner_groups
      → IsSound set.default_owner_group db
      → IsSound set.default_owner_group (run_call set a sub call db)
  unfolding run_call
  run_call-IsSound a sub (creates_group_role body) db fresh s =
      same-IsSound _ db _ (post_group_role-same a.link db sub a.new_id a.now body) s
  run_call-IsSound a sub (creates_user_role body) db fresh s =
      same-IsSound _ db _ (post_user_role-same a.link db sub a.new_id a.now body) s
  run_call-IsSound a sub (creates_owner_group body) db fresh s =
      post_owner_group-IsSound a.link db sub a.new_id a.now _ body fresh s
  run_call-IsSound a sub (creates_mapping body) db fresh s =
      post_mapping-IsSound a.link db sub a.new_id a.now _ body s
  run_call-IsSound a sub (creates_resource_perm body) db fresh s =
      same-IsSound _ db _ (post_resource_perm-same a.link db sub a.new_id a.now body) s
  run_call-IsSound a sub (creates_member body) db fresh s =
      post_member-IsSound a.link db sub a.new_id a.now _ set.lower body s
  run_call-IsSound a sub (deletes_group_role param) db fresh s =
      same-IsSound _ db _ (remove_group_role-same a.link db param) s
  run_call-IsSound a sub (deletes_user_role param) db fresh s =
      same-IsSound _ db _ (remove_user_role-same a.link db param) s
  run_call-IsSound a sub (deletes_resource_perm param) db fresh s =
      same-IsSound _ db _ (remove_resource_perm-same a.link db param) s
  run_call-IsSound a sub (deletes_owner_group param) db fresh s =
      delete_group_handler-IsSound a.link db _ param s
  run_call-IsSound a sub (deletes_mapping param) db fresh s =
      remove_mapping-IsSound a.link db _ param s
  run_call-IsSound a sub (deletes_member param) db fresh s =
      remove_member-IsSound a.link db _ param s
  run_call-IsSound a sub (upserts_override service body) db fresh s =
      same-IsSound _ db _
        (upsert_override-same a.link db sub a.new_id a.now set.has_pool service body) s
  run_call-IsSound a sub (deletes_override service) db fresh s =
      same-IsSound _ db _ (delete_override-same a.link db set.has_pool service) s

  serve_admin-IsSound :
      (a : Arrival) (db : Database)
      → ¬ HasId a.new_id db.owner_groups
      → IsSound set.default_owner_group db
      → IsSound set.default_owner_group (serve_admin set a db)
  unfolding serve_admin
  serve_admin-IsSound a db fresh s =
      elim (Outcome-cases (session_auth a.store set.cookie_name (permission_of a.call) a.req)) [
        | inl (code, message, refused) ↦ rw (refused, serve_admin) s
        | inr (sess, let_in) ↦
            rw (let_in, serve_admin) (run_call-IsSound a sess.sub a.call db fresh s)
      ]

  -- The id that the database would give to a new owner group is new at each request.
  abbrev pub AreFresh : List Arrival → Database → Type 0
  AreFresh [] db = Unit
  AreFresh (a ∷ arrivals) db =
      (¬ HasId a.new_id db.owner_groups) × AreFresh arrivals (serve_admin set a db)

  -- Whatever requests below /bff/admin arrive, of whatever users and over connections that work or
  -- not, the owner groups keep their primary key, each mapping and each member names an owner group
  -- that exists, and a default owner group that exists at first is never lost. A new owner group must
  -- get an id that no group has.
  pub serve_all-IsSound :
      (arrivals : List Arrival) (db : Database)
      → AreFresh arrivals db
      → IsSound set.default_owner_group db
      → IsSound set.default_owner_group (serve_all set arrivals db)
  unfolding serve_all
  serve_all-IsSound [] db fresh s = s
  serve_all-IsSound (a ∷ arrivals) db (fresh, later) s =
      serve_all-IsSound arrivals (serve_admin set a db) later (serve_admin-IsSound a db fresh s)

  -- A request below /bff/admin either leaves the database as it is, or its cookie names a stored
  -- session that has the permission of the route: to manage overrides for the two routes of the
  -- service states, and to manage roles for all others.
  pub serve_admin-Authorised :
      (a : Arrival) (db : Database)
      → (serve_admin set a db ≡ db)
        ⊎ ((sid : String) × (sess : Session) × (session_id set.cookie_name a.req ≡ some sid)
            × (get sid a.store ≡ ok sess)
            × (permission_of a.call ∈ sess.permissions))
  unfolding serve_admin
  serve_admin-Authorised a db =
      elim (Outcome-cases (session_auth a.store set.cookie_name (permission_of a.call) a.req)) [
        | inl (code, message, refused) ↦ inl (rw (refused, serve_admin) refl)
        | inr (sess, let_in) ↦
            let (sid, named, stored, may) =
              (session_auth_iff a.store set.cookie_name (permission_of a.call) a.req sess).0
                let_in in
            elim may [
              | inl free ↦ absurd (permission_of-set a.call free)
              | inr has ↦ inr (sid, sess, named, stored, has)
            ]
      ]
