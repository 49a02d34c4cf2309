-- ===== src/Db/OwnerGroups/Statements.antt =====
-- The statements on owner groups as steps, and what all of them keep.
use fusion_bff.Base.{
  ℕ, String, Bool, true, ◌&&◌, ◌||◌, List, [], ◌∷◌, ◌==◌, Result, ok, err, ◌≡◌, inl, inr, arith,
  eq_iff, is_some, Bool-cases, Option-cases,
}
use fusion_bff.Db.Tables.{
  OwnerGroupRow, OwnerGroupMappingRow, OwnerGroupMemberRow, Database, find_row, drop_rows,
  insert_row, delete_returning,
}
use fusion_bff.Db.OwnerGroups.{
  references, create_owner_group, delete_owner_group, create_owner_group_mapping,
  delete_owner_group_mapping, create_owner_group_member, delete_owner_group_member,
  match_type_email, match_type_user_id,
}
use fusion_bff.Db.OwnerGroups.Consistent.{
  Exists, AllMapped, AllIncluded, HasId, IsConsistent, delete_owner_group-IsConsistent,
}

-- The statements that change the owner groups, their mappings or members; `id` and `now` are what
-- the database gives a new row.
pub data Statement : Type 0 where
  create_group create_mapping : ℕ → ℕ → String → String → String → Statement
  create_member : ℕ → ℕ → String → String → String → String → Statement
  delete_group delete_mapping delete_member : ℕ → Statement

unfoldable pub after : Result (Unit {0}) → Statement → Database → Database
after link (create_group id now name description by) db =
    (create_owner_group link db id now name description by).1
after link (create_mapping id now owner_group oidc_group by) db =
    (create_owner_group_mapping link db id now owner_group oidc_group by).1
after link (create_member id now owner_group match_type match_value by) db =
    (create_owner_group_member link db id now owner_group match_type match_value by).1
after link (delete_group id) db = (delete_owner_group link db id).1
after link (delete_mapping id) db = (delete_owner_group_mapping link db id).1
after link (delete_member id) db = (delete_owner_group_member link db id).1

-- A new owner group gets an id that no group has.
abbrev pub IsFresh : Database → Statement → Type 0
IsFresh db (create_group id now name description by) = ¬ HasId id db.owner_groups
IsFresh db _ = Unit

find_row-Exists :
    (name : String) (groups : List OwnerGroupRow)
    → is_some (find_row (λ g. g.name == name) groups) ≡ true
    → Exists name groups
unfolding find_row
find_row-Exists name [] h = cc
find_row-Exists name (g ∷ groups) h =
    ground (arith, eq_iff g.name name, find_row-Exists name groups)

Mapped-more :
    (g : OwnerGroupRow) (groups : List OwnerGroupRow) (rows : List OwnerGroupMappingRow)
    → AllMapped groups rows
    → AllMapped (g ∷ groups) rows
Mapped-more g groups [] a = tt
Mapped-more g groups (r ∷ rows) a = (inr a.0, Mapped-more g groups rows a.1)

Included-more :
    (g : OwnerGroupRow) (groups : List OwnerGroupRow) (rows : List OwnerGroupMemberRow)
    → AllIncluded groups rows
    → AllIncluded (g ∷ groups) rows
Included-more g groups [] a = tt
Included-more g groups (r ∷ rows) a = (inr a.0, Included-more g groups rows a.1)

Mapped-less :
    (p : OwnerGroupMappingRow → Bool) (groups : List OwnerGroupRow)
    (rows : List OwnerGroupMappingRow)
    → AllMapped groups rows
    → AllMapped groups (drop_rows p rows)
unfolding drop_rows
Mapped-less p groups [] a = tt
Mapped-less p groups (r ∷ rows) a = ground (arith, Mapped-less p groups rows)

Included-less :
    (p : OwnerGroupMemberRow → Bool) (groups : List OwnerGroupRow) (rows : List OwnerGroupMemberRow)
    → AllIncluded groups rows
    → AllIncluded groups (drop_rows p rows)
unfolding drop_rows
Included-less p groups [] a = tt
Included-less p groups (r ∷ rows) a = ground (arith, Included-less p groups rows)

create_group-IsConsistent :
    (link : Result (Unit {0})) (db : Database) (id now : ℕ) (name description by : String)
    → ¬ HasId id db.owner_groups
    → IsConsistent db
    → IsConsistent (create_owner_group link db id now name description by).1
unfolding create_owner_group insert_row
create_group-IsConsistent (err e) db id now name description by fresh c = c
create_group-IsConsistent (ok _) db id now name description by fresh c =
    let row : OwnerGroupRow = record {
      id = id;
      name = name;
      description = description;
      created_by = by;
      created_at = now;
    } in
    elim (Option-cases (find_row (λ g. g.name == name) db.owner_groups)) [
      | inr (g, found) ↦ rw (found, create_owner_group) c
      | inl absent ↦
          rw (absent, create_owner_group)
            (record {
              keyed = (fresh, c.keyed);
              mapped = Mapped-more row db.owner_groups db.mappings c.mapped;
              included = Included-more row db.owner_groups db.members c.included;
            })
    ]

create_mapping-IsConsistent :
    (link : Result (Unit {0})) (db : Database) (id now : ℕ) (owner_group oidc_group by : String)
    → IsConsistent db
    → IsConsistent (create_owner_group_mapping link db id now owner_group oidc_group by).1
unfolding create_owner_group_mapping insert_row references
create_mapping-IsConsistent (err e) db id now owner_group oidc_group by c = c
create_mapping-IsConsistent (ok _) db id now owner_group oidc_group by c =
    elim (Option-cases
      (find_row (λ r. r.owner_group == owner_group && r.oidc_group == oidc_group) db.mappings)) [
        | inr (r, found) ↦ rw (found, create_owner_group_mapping) c
        | inl absent ↦
            elim (Bool-cases (is_some (find_row (λ g. g.name == owner_group) db.owner_groups))) [
              | inr missing ↦ rw (absent, missing, create_owner_group_mapping) c
              | inl exists ↦
                  rw (absent, exists, create_owner_group_mapping)
                    (record {
                      keyed = c.keyed;
                      mapped = (find_row-Exists owner_group db.owner_groups exists, c.mapped);
                      included = c.included;
                    })
            ]
      ]

create_member-IsConsistent :
    (link : Result (Unit {0})) (db : Database) (id now : ℕ)
    (owner_group match_type match_value by : String)
    → IsConsistent db
    → IsConsistent
        (create_owner_group_member link db id now owner_group match_type match_value by).1
unfolding create_owner_group_member insert_row references
create_member-IsConsistent (err e) db id now owner_group match_type match_value by c = c
create_member-IsConsistent (ok _) db id now owner_group match_type match_value by c =
    elim (Bool-cases (match_type == match_type_email || match_type == match_type_user_id)) [
      | inr unknown ↦ rw (unknown, create_owner_group_member) c
      | inl known ↦
          elim (Option-cases (
            find_row
              (λ r.
                r.owner_group == owner_group
                && r.match_type == match_type
                && r.match_value == match_value)
              db.members)) [
                | inr (r, found) ↦ rw (known, found, create_owner_group_member) c
                | inl absent ↦
                    elim (Bool-cases
                      (is_some (find_row (λ g. g.name == owner_group) db.owner_groups))) [
                        | inr missing ↦ rw (known, absent, missing, create_owner_group_member) c
                        | inl exists ↦
                            rw (known, absent, exists, create_owner_group_member)
                              (record {
                                keyed = c.keyed;
                                mapped = c.mapped;
                                included = (
                                  find_row-Exists owner_group db.owner_groups exists,
                                  c.included,
                                );
                              })
                      ]
              ]
    ]

delete_mapping-IsConsistent :
    (link : Result (Unit {0})) (db : Database) (id : ℕ)
    → IsConsistent db
    → IsConsistent (delete_owner_group_mapping link db id).1
unfolding delete_owner_group_mapping delete_returning
delete_mapping-IsConsistent (err e) db id c = record {
  keyed = c.keyed;
  mapped = c.mapped;
  included = c.included;
}
delete_mapping-IsConsistent (ok _) db id c = record {
  keyed = c.keyed;
  mapped = Mapped-less _ db.owner_groups db.mappings c.mapped;
  included = c.included;
}

delete_member-IsConsistent :
    (link : Result (Unit {0})) (db : Database) (id : ℕ)
    → IsConsistent db
    → IsConsistent (delete_owner_group_member link db id).1
unfolding delete_owner_group_member delete_returning
delete_member-IsConsistent (err e) db id c = record {
  keyed = c.keyed;
  mapped = c.mapped;
  included = c.included;
}
delete_member-IsConsistent (ok _) db id c = record {
  keyed = c.keyed;
  mapped = c.mapped;
  included = Included-less _ db.owner_groups db.members c.included;
}

-- Every statement on the owner groups, over a connection that works or not, keeps the primary key of
-- the owner groups and the foreign keys: each mapping and each member names an owner group that
-- exists. A new owner group must get an id that no group has.
pub after-IsConsistent :
    (link : Result (Unit {0})) (s : Statement) (db : Database)
    → IsFresh db s
    → IsConsistent db
    → IsConsistent (after link s db)
unfolding after
after-IsConsistent link (create_group id now name description by) db fresh c =
    create_group-IsConsistent link db id now name description by fresh c
after-IsConsistent link (create_mapping id now owner_group oidc_group by) db fresh c =
    create_mapping-IsConsistent link db id now owner_group oidc_group by c
after-IsConsistent link (create_member id now owner_group match_type match_value by) db fresh c =
    create_member-IsConsistent link db id now owner_group match_type match_value by c
after-IsConsistent link (delete_group id) db fresh c = delete_owner_group-IsConsistent link db id c
after-IsConsistent link (delete_mapping id) db fresh c = delete_mapping-IsConsistent link db id c
after-IsConsistent link (delete_member id) db fresh c = delete_member-IsConsistent link db id c
