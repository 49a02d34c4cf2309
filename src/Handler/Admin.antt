-- ===== src/Handler/Admin.antt =====
-- internal/api/handler: admin.go, resource_permissions.go and owner_groups.go. A handler gets the
-- bound JSON body, or an error; the connection `link` to the database; the actor's `sub`; and the id
-- and time that the database gives a new row. Log lines are left out.
pub mod Names
pub mod NameBounds
pub mod Tables
pub mod Laws
use fusion_bff.Base.{
  ℕ, String, Bool, true, false, not, ◌||◌, ◌&&◌, Option, none, some, List, [], ◌==◌, is_empty,
  if◌then◌else◌, Result, ok, err, Error, trim_space, trim_left, has_char,
}
use fusion_bff.Db.{ResourcePermRow}
use fusion_bff.Db.Tables.{
  Database, GroupRoleRow, UserRoleRow, OwnerGroupRow, OwnerGroupMappingRow, OwnerGroupMemberRow,
}
use fusion_bff.Db.Roles.{create_group_role, delete_group_role, create_user_role, delete_user_role}
use fusion_bff.Db.Grants.{create_resource_perm, delete_resource_perm}
use fusion_bff.Db.OwnerGroups.{
  create_owner_group, delete_owner_group, get_owner_group, create_owner_group_mapping,
  delete_owner_group_mapping, create_owner_group_member, delete_owner_group_member,
  match_type_email, match_type_user_id,
}
use fusion_bff.Rbac.Engine.{Engine, rbac_config_summary}
use fusion_bff.Handler.{Reply, abort, json, status, internal_error, is_unique_violation, pg_code}
use fusion_bff.Handler.Admin.Names.{valid_owner_group_name}

-- `respondList`, and the list handlers.
unfoldable pub respond_list : {A : Type 0} → Result (List A) → Reply (List A)
respond_list (err _) = internal_error
respond_list (ok rows) = json 200 rows

-- The reply to a `Create` of roles or grants: 409 where the row exists.
unfoldable pub reply_created : {A : Type 0} → String → Result A → Reply A
reply_created conflict (err e) =
    if is_unique_violation e then abort 409 conflict else internal_error
reply_created conflict (ok row) = json 201 row

-- `abortOnCreateError`, and the reply where it does not abort.
unfoldable pub abort_on_create_error : {A : Type 0} → Result A → Reply A
abort_on_create_error (ok row) = json 201 row
abort_on_create_error (err e) = elim (pg_code e) [
  | none ↦ internal_error
  | some code ↦
      if code == "23505"
      then abort 409 "already exists"
      else if code == "23503"
      then abort 400 "owner group does not exist"
      else internal_error
]

-- The reply to a deletion.
unfoldable pub reply_deleted : {A : Type 0} → Result (Option A) → Reply A
reply_deleted (err _) = internal_error
reply_deleted (ok none) = abort 404 "not found"
reply_deleted (ok (some _)) = status 204

-- `deleteByID`: the path parameter, as `strconv.Atoi` reads it, and the deletion.
unfoldable pub delete_by_id :
    {A : Type 0} → Result ℕ → (ℕ → Result (Option A) × Database) → Database → Reply A × Database
delete_by_id (err _) del db = (abort 400 "invalid id", db)
delete_by_id (ok id) del db = (reply_deleted (del id).0, (del id).1)

module _ (link : Result (Unit {0})) (db : Database) (sub : String) (new_id now : ℕ) where
  -- `AdminHandler.CreateGroupRole`
  unfoldable pub post_group_role : Result (String × String) → Reply GroupRoleRow × Database
  post_group_role (err _) = (abort 400 "group and role are required", db)
  post_group_role (ok (group, role)) =
      let (answer, db') = create_group_role link db new_id now group role sub in
      (reply_created "assignment already exists" answer, db')

  -- `AdminHandler.CreateUserRole`
  unfoldable pub post_user_role : Result (String × String) → Reply UserRoleRow × Database
  post_user_role (err _) = (abort 400 "sub and role are required", db)
  post_user_role (ok (user_sub, role)) =
      let (answer, db') = create_user_role link db new_id now (trim_space user_sub) role sub in
      if is_empty (trim_space user_sub)
      then (abort 400 "sub and role are required", db)
      else (reply_created "assignment already exists" answer, db')

  -- `ResourcePermHandler.Create`; the row holds the fields of the body.
  unfoldable pub post_resource_perm :
      Result (String × String × String × String × String) → Reply ResourcePermRow × Database
  post_resource_perm (err _) = (abort 400 "all fields are required", db)
  post_resource_perm (ok (subject_type, subject, permission, resource_type, resource_id)) =
      let (answer, db') = create_resource_perm link db (record {
        id = new_id;
        subject_type = subject_type;
        subject = subject;
        permission = permission;
        resource_type = resource_type;
        resource_id = resource_id;
        created_by = sub;
        created_at = now;
      }) in
      if not (subject_type == "user")
        && not (subject_type == "group")
        && not (subject_type == "role")
      then (abort 400 "subject_type must be user, group, or role", db)
      else (reply_created "grant already exists" answer, db')

  -- `OwnerGroupHandler.CreateGroup`
  unfoldable pub post_owner_group : Result (String × String) → Reply OwnerGroupRow × Database
  post_owner_group (err _) = (abort 400 "name is required", db)
  post_owner_group (ok (name, description)) =
      let (answer, db') = create_owner_group link db new_id now name description sub in
      if not (valid_owner_group_name name)
      then (
        abort 400
            "name must be 1-63 characters: letters, digits, '.', '_' or '-', starting and ending alphanumeric",
        db,
      )
      else (abort_on_create_error answer, db')

  -- The OIDC group that `CreateMapping` stores.
  abbrev pub normal_group : String → String
  normal_group oidc_group = trim_left b'/' (trim_space oidc_group)

  -- `OwnerGroupHandler.CreateMapping`
  unfoldable pub post_owner_group_mapping :
      Result (String × String) → Reply OwnerGroupMappingRow × Database
  post_owner_group_mapping (err _) = (abort 400 "owner_group and oidc_group are required", db)
  post_owner_group_mapping (ok (owner_group, oidc_group)) =
      let (answer, db') =
        create_owner_group_mapping link db new_id now owner_group (normal_group oidc_group) sub in
      if is_empty (normal_group oidc_group)
      then (abort 400 "oidc_group must not be empty", db)
      else (abort_on_create_error answer, db')

  -- The value that `CreateMember` stores, or the text of the error. `lower` is `strings.ToLower`.
  unfoldable pub match_value_of : (String → String) → String → String → Result String
  match_value_of lower match_type match_value =
      if match_type == match_type_email
      then (if has_char b'@' (lower (trim_space match_value))
          then ok (lower (trim_space match_value))
          else err (Error.plain "match_value must be an email address"))
      else if match_type == match_type_user_id
      then (if is_empty (trim_space match_value)
          then err (Error.plain "match_value must not be empty")
          else ok (trim_space match_value))
      else err (Error.plain "match_type must be email or user_id")

  abbrev text_of : Error → String
  text_of (Error.plain text) = text
  text_of _ = ""

  -- `OwnerGroupHandler.CreateMember`
  unfoldable pub post_owner_group_member :
      (String → String) → Result (String × String × String) → Reply OwnerGroupMemberRow × Database
  post_owner_group_member lower (err _) =
      (abort 400 "owner_group, match_type and match_value are required", db)
  post_owner_group_member lower (ok (owner_group, match_type, match_value)) =
      elim (match_value_of lower match_type match_value) [
        | err e ↦ (abort 400 (text_of e), db)
        | ok value ↦
            let (answer, db') =
              create_owner_group_member link db new_id now owner_group match_type value sub in
            (abort_on_create_error answer, db')
      ]

module _ (link : Result (Unit {0})) (db : Database) where
  -- `OwnerGroupHandler.DeleteGroup`, with the name of the default owner group.
  unfoldable pub delete_group_handler : String → Result ℕ → Reply OwnerGroupRow × Database
  delete_group_handler default_group param =
      let deleted = delete_by_id param (delete_owner_group link db) db in
      if is_empty default_group then deleted else elim param [
        | err _ ↦ deleted
        | ok id ↦ elim (get_owner_group link db id) [
          | err _ ↦ (internal_error, db)
          | ok none ↦ deleted
          | ok (some row) ↦
              if row.name == default_group
              then (abort 409 "the default owner group cannot be deleted", db)
              else deleted
        ]
      ]
