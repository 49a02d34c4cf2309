-- ===== src/Db/OwnerGroups/Laws.antt =====
-- The owner groups of a user, as the database tells them.
use fusion_bff.Base.{
  String, true, List, [], ◌∷◌, ◌++◌, map, contains, contains_iff, string_eq, is_empty_iff, ok,
  add_all, ◌≡◌, refl, ◌≢◌, ◌↔◌, ◌⊎◌, ◌∈◌, arith, eq_iff, mem-append, mem-add_all,
  add_all-IsDistinct, IsDistinct,
}
use fusion_bff.Db.Tables.{OwnerGroupMappingRow, OwnerGroupMemberRow, Database, select}
use fusion_bff.Db.Tables.{order_by}
use fusion_bff.Db.Ordered.{
  IsTotal, IsOrdered, order_by-IsOrdered, order_by-IsDistinct, mem-order_by,
}
use fusion_bff.Db.OwnerGroups.{is_member, load_owner_groups_for_user}

-- A mapping gives the owner group to one of the OIDC groups.
abbrev pub Maps : List String → String → List OwnerGroupMappingRow → Type 0
Maps oidc_groups name [] = ⊥
Maps oidc_groups name (r ∷ rows) =
    ((r.oidc_group ∈ oidc_groups) × (name ≡ r.owner_group)) ⊎ Maps oidc_groups name rows

module _ (lower : String → String) (user_id email : String) where
  -- The member row names the user, by email without regard to case, or by user id.
  abbrev pub Names : OwnerGroupMemberRow → Type 0
  Names r =
      ((r.match_type ≡ "email") × (email ≢ "") × (r.match_value ≡ lower email))
      ⊎ ((r.match_type ≡ "user_id") × (user_id ≢ "") × (r.match_value ≡ user_id))

  abbrev pub Includes : String → List OwnerGroupMemberRow → Type 0
  Includes name [] = ⊥
  Includes name (r ∷ rows) = (Names r × (name ≡ r.owner_group)) ⊎ Includes name rows

  is_member_iff : (r : OwnerGroupMemberRow) → (is_member lower user_id email r ≡ true) ↔ Names r
  unfolding is_member
  is_member_iff r = ground (
    arith,
    eq_iff r.match_type "email",
    eq_iff r.match_type "user_id",
    is_empty_iff email,
    is_empty_iff user_id,
    eq_iff r.match_value (lower email),
    eq_iff r.match_value user_id,
  )

  mem-members :
      (name : String) (rows : List OwnerGroupMemberRow)
      → (name ∈ map (λ r. r.owner_group) (select (is_member lower user_id email) rows))
        ↔ Includes name rows
  unfolding select
  mem-members name [] = (λ h. h, λ h. h)
  mem-members name (r ∷ rows) = ground (arith, is_member_iff r, mem-members name rows)

mem-mappings :
    (oidc_groups : List String) (name : String) (rows : List OwnerGroupMappingRow)
    → (name ∈ map (λ r. r.owner_group) (select (λ r. contains oidc_groups r.oidc_group) rows))
      ↔ Maps oidc_groups name rows
unfolding select
mem-mappings oidc_groups name [] = (λ h. h, λ h. h)
mem-mappings oidc_groups name (r ∷ rows) =
    ground (arith, contains_iff oidc_groups r.oidc_group, mem-mappings oidc_groups name rows)

module _ (db : Database) (lower : String → String) (user_id email : String)
    (oidc_groups : List String) where
  -- The names are those that a mapping or a member row gives to the user.
  abbrev pub AreOwned : List String → Type 0
  AreOwned names =
      (name : String)
      → (name ∈ names)
        ↔ (Maps oidc_groups name db.mappings ⊎ Includes lower user_id email name db.members)

  -- All owner groups of the user, each once, in the order of the rows.
  abbrev found : List String
  found = add_all [] (
      map (λ r. r.owner_group) (select (λ r. contains oidc_groups r.oidc_group) db.mappings)
      ++ map (λ r. r.owner_group) (select (is_member lower user_id email) db.members))

  found-AreOwned : AreOwned (order_by db.collate found)
  found-AreOwned name =
      let mapped =
        map (λ r. r.owner_group) (select (λ r. contains oidc_groups r.oidc_group) db.mappings) in
      let direct = map (λ r. r.owner_group) (select (is_member lower user_id email) db.members) in
      ground (
        arith,
        mem-order_by db.collate name found,
        mem-add_all [] (mapped ++ direct) name,
        mem-append name mapped direct,
        mem-mappings oidc_groups name db.mappings,
        mem-members lower user_id email name db.members,
      )

  pub load_owner_groups_for_user-mem :
      (names : List String) × (load_owner_groups_for_user (ok tt) db lower user_id email oidc_groups
        ≡ ok names)
      × AreOwned names
  unfolding load_owner_groups_for_user
  load_owner_groups_for_user-mem = (order_by db.collate found, refl, found-AreOwned)

  -- Over a connection that works, the owner groups of a user are a list without repetition, each name
  -- at most the next one in the collation of the database, which must be total. They are those that a
  -- mapping gives to one of the user's OIDC groups, and those with a member row for the user's email,
  -- which is not empty and compared in lower case, or for the user id, which is not empty.
  pub load_owner_groups_for_user_iff :
      IsTotal db.collate
      → (names : List String) × (load_owner_groups_for_user
            (ok tt)
            db
            lower
            user_id
            email
            oidc_groups
          ≡ ok names)
        × IsOrdered db.collate names
        × IsDistinct names
        × AreOwned names
  unfolding load_owner_groups_for_user
  load_owner_groups_for_user_iff total = (
    order_by db.collate found,
    refl,
    order_by-IsOrdered db.collate found total,
    order_by-IsDistinct db.collate found (add_all-IsDistinct [] _ tt),
    found-AreOwned,
  )
