-- ===== src/Db/OwnerGroups/Consistent.antt =====
-- What the foreign keys keep: every mapping and every member names an owner group that exists.
use fusion_bff.Base.{
  ℕ, String, Bool, true, none, some, List, [], ◌∷◌, ◌==◌, eqb, Result, ok, err, ◌≡◌, refl, sym, ap,
  ◌∙◌, ◌≢◌, ◌⊎◌, inl, inr, arith, eq_iff, Bool-cases, Option-cases,
}
use fusion_bff.Db.Tables.{
  OwnerGroupRow, OwnerGroupMappingRow, OwnerGroupMemberRow, Database, find_row, drop_rows,
}
use fusion_bff.Db.OwnerGroups.{cascade, delete_owner_group}

-- An owner group of this name exists.
abbrev pub Exists : String → List OwnerGroupRow → Type 0
Exists name [] = ⊥
Exists name (g ∷ groups) = (g.name ≡ name) ⊎ Exists name groups

abbrev pub AllMapped : List OwnerGroupRow → List OwnerGroupMappingRow → Type 0
AllMapped groups [] = Unit
AllMapped groups (r ∷ rows) = Exists r.owner_group groups × AllMapped groups rows

abbrev pub AllIncluded : List OwnerGroupRow → List OwnerGroupMemberRow → Type 0
AllIncluded groups [] = Unit
AllIncluded groups (r ∷ rows) = Exists r.owner_group groups × AllIncluded groups rows

-- A row has the id.
abbrev pub HasId : ℕ → List OwnerGroupRow → Type 0
HasId id [] = ⊥
HasId id (g ∷ groups) = (eqb g.id id ≡ true) ⊎ HasId id groups

-- `id SERIAL PRIMARY KEY`
abbrev pub IsKeyed : List OwnerGroupRow → Type 0
IsKeyed [] = Unit
IsKeyed (g ∷ groups) = (¬ HasId g.id groups) × IsKeyed groups

-- The primary key and the foreign keys hold.
pub record IsConsistent (db : Database) : Type 0 where
  pub keyed : IsKeyed db.owner_groups
  pub mapped : AllMapped db.owner_groups db.mappings
  pub included : AllIncluded db.owner_groups db.members

eqb_sym : (a b c : ℕ) → eqb a b ≡ true → eqb c b ≡ true → eqb c a ≡ true
eqb_sym a b c h h' = ground arith

abbrev pub same_id : ℕ → OwnerGroupRow → Bool
same_id id g = eqb g.id id

drop_rows-HasId :
    (id j : ℕ) (groups : List OwnerGroupRow)
    → HasId j (drop_rows (same_id id) groups)
    → HasId j groups
unfolding drop_rows
drop_rows-HasId id j [] h = h
drop_rows-HasId id j (g ∷ groups) h = ground (arith, drop_rows-HasId id j groups)

drop_rows-IsKeyed :
    (id : ℕ) (groups : List OwnerGroupRow)
    → IsKeyed groups
    → IsKeyed (drop_rows (same_id id) groups)
unfolding drop_rows
drop_rows-IsKeyed id [] k = tt
drop_rows-IsKeyed id (g ∷ groups) k =
    ground (arith, drop_rows-HasId id g.id groups, drop_rows-IsKeyed id groups)

-- Rows without the id stay.
pub drop_rows-Exists :
    (id : ℕ) (name : String) (groups : List OwnerGroupRow)
    → ¬ HasId id groups
    → Exists name groups
    → Exists name (drop_rows (same_id id) groups)
unfolding drop_rows
drop_rows-Exists id name [] n e = e
drop_rows-Exists id name (g ∷ groups) n e = ground (arith, drop_rows-Exists id name groups)

HasId-same :
    (id j : ℕ) (groups : List OwnerGroupRow) → eqb j id ≡ true → HasId id groups → HasId j groups
HasId-same id j [] same h = h
HasId-same id j (g ∷ groups) same h = ground (arith, eqb_sym j id g.id, HasId-same id j groups)

-- Deleting a row leaves a group of every other name.
pub delete-Exists :
    (id : ℕ) (name gone : String) (groups : List OwnerGroupRow)
    → IsKeyed groups
    → ((g : OwnerGroupRow) → find_row (same_id id) groups ≡ some g → g.name ≡ gone)
    → name ≢ gone
    → Exists name groups
    → Exists name (drop_rows (same_id id) groups)
unfolding drop_rows find_row
delete-Exists id name gone [] k f n e = e
delete-Exists id name gone (g ∷ groups) k f n e = elim (Bool-cases (eqb g.id id)) [
  | inl same ↦
      let here : g.name ≡ gone = f g (rw same refl) in
      rw same (elim e [
        | inl first ↦ absurd (n (sym first ∙ here))
        | inr later ↦
            drop_rows-Exists id name groups (λ h. k.0 (HasId-same id g.id groups same h)) later
      ])
  | inr other ↦ rw other (elim e [
    | inl first ↦ inl first
    | inr later ↦ inr (delete-Exists id name gone groups k.1 (λ g' h. f g' (rw other h)) n later)
  ])
]

pub find_row-HasId :
    (id : ℕ) (groups : List OwnerGroupRow) → find_row (same_id id) groups ≡ none → ¬ HasId id groups
unfolding find_row
find_row-HasId id [] h m = m
find_row-HasId id (g ∷ groups) h m = ground (arith, find_row-HasId id groups)

-- The rows of the cascade name groups that are left.
module _ (id : ℕ) (gone : String) (groups : List OwnerGroupRow) (k : IsKeyed groups)
    (f : (g : OwnerGroupRow) → find_row (same_id id) groups ≡ some g → g.name ≡ gone) where
  cascade-AllMapped :
      (rows : List OwnerGroupMappingRow)
      → AllMapped groups rows
      → AllMapped (drop_rows (same_id id) groups) (drop_rows (λ r. r.owner_group == gone) rows)
  unfolding drop_rows
  cascade-AllMapped [] a = tt
  cascade-AllMapped (r ∷ rows) a = elim (Bool-cases (r.owner_group == gone)) [
    | inl same ↦ rw same (cascade-AllMapped rows a.1)
    | inr other ↦ rw other (
      delete-Exists id r.owner_group gone groups k f (λ e. cc ((eq_iff r.owner_group gone).1 e))
          a.0,
      cascade-AllMapped rows a.1,
    )
  ]

  cascade-AllIncluded :
      (rows : List OwnerGroupMemberRow)
      → AllIncluded groups rows
      → AllIncluded (drop_rows (same_id id) groups) (drop_rows (λ r. r.owner_group == gone) rows)
  unfolding drop_rows
  cascade-AllIncluded [] a = tt
  cascade-AllIncluded (r ∷ rows) a = elim (Bool-cases (r.owner_group == gone)) [
    | inl same ↦ rw same (cascade-AllIncluded rows a.1)
    | inr other ↦ rw other (
      delete-Exists id r.owner_group gone groups k f (λ e. cc ((eq_iff r.owner_group gone).1 e))
          a.0,
      cascade-AllIncluded rows a.1,
    )
  ]

AllMapped-drop :
    (id : ℕ) (groups : List OwnerGroupRow) (rows : List OwnerGroupMappingRow)
    → ¬ HasId id groups
    → AllMapped groups rows
    → AllMapped (drop_rows (same_id id) groups) rows
AllMapped-drop id groups [] n a = tt
AllMapped-drop id groups (r ∷ rows) n a =
    (drop_rows-Exists id r.owner_group groups n a.0, AllMapped-drop id groups rows n a.1)

AllIncluded-drop :
    (id : ℕ) (groups : List OwnerGroupRow) (rows : List OwnerGroupMemberRow)
    → ¬ HasId id groups
    → AllIncluded groups rows
    → AllIncluded (drop_rows (same_id id) groups) rows
AllIncluded-drop id groups [] n a = tt
AllIncluded-drop id groups (r ∷ rows) n a =
    (drop_rows-Exists id r.owner_group groups n a.0, AllIncluded-drop id groups rows n a.1)

-- Deleting an owner group, whether it exists or not and whether the connection works or not, keeps
-- the primary key, and every mapping and member that is left names an owner group that is left.
pub delete_owner_group-IsConsistent :
    (link : Result (Unit {0})) (db : Database) (id : ℕ)
    → IsConsistent db
    → IsConsistent (delete_owner_group link db id).1
unfolding delete_owner_group cascade
delete_owner_group-IsConsistent (err e) db id c = c
delete_owner_group-IsConsistent (ok _) db id c =
    let keyed = drop_rows-IsKeyed id db.owner_groups c.keyed in
    elim (Option-cases (find_row (same_id id) db.owner_groups)) [
      | inl absent ↦
          let n = find_row-HasId id db.owner_groups absent in
          rw (absent, cascade)
            (record {
              keyed = keyed;
              mapped = AllMapped-drop id db.owner_groups db.mappings n c.mapped;
              included = AllIncluded-drop id db.owner_groups db.members n c.included;
            })
      | inr (g, found) ↦
          let f : (g' : OwnerGroupRow)
              → find_row (same_id id) db.owner_groups ≡ some g'
              → g'.name ≡ g.name =
            λ g' h. (let same' : g' ≡ g = cc in ap (λ x. x.name) same') in
          rw (found, cascade)
            (record {
              keyed = keyed;
              mapped = cascade-AllMapped id g.name db.owner_groups c.keyed f db.mappings c.mapped;
              included =
                  cascade-AllIncluded id g.name db.owner_groups c.keyed f db.members c.included;
            })
    ]
