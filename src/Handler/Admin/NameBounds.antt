-- ===== src/Handler/Admin/NameBounds.antt =====
-- How long a valid name of an owner group is, and that it can stand in the X-User-Groups header.
use Prim.Native.String.{[], ◌∷◌}
use Prim.Native.Char.{Char, code}
use fusion_bff.Base.{
  ℕ, zero, suc, ◌≤◌, String, Bool, true, false, ◌&&◌, ◌||◌, eqb, is_empty, has_char, ◌≡◌, refl,
  arith,
}
use fusion_bff.Proxy.Groups.{IsListable}
use fusion_bff.Handler.Admin.Names.{is_alphanumeric, is_inner, matches_tail, valid_owner_group_name}

-- The number of characters.
abbrev pub count : String → ℕ
count [] = 0
count (c ∷ s) = suc (count s)

no_comma : (c : Char) → is_alphanumeric c ≡ true → eqb (code c) b',' ≡ false
no_comma c h = ground arith

no_inner_comma : (c : Char) → is_inner c ≡ true → eqb (code c) b',' ≡ false
no_inner_comma c h = ground arith

both_true : (a b : Bool) → (a && b) ≡ true → (a ≡ true) × (b ≡ true)
both_true true b h = (refl, h)
both_true false b h = cc

neither : (a b : Bool) → a ≡ false → b ≡ false → (a || b) ≡ false
neither a b h k = ground arith

matches_tail-bounds :
    (n : ℕ) (c : Char) (s : String)
    → matches_tail n c s ≡ true
    → (count s ≤ n) × (has_char b',' (c ∷ s) ≡ false)
unfolding matches_tail has_char
matches_tail-bounds n c [] h = (omega arith, neither _ _ (no_comma c h) refl)
matches_tail-bounds zero c (d ∷ s) h = cc
matches_tail-bounds (suc n) c (d ∷ s) h =
    let (first, more) = both_true (is_inner c) (matches_tail n d s) h in
    let (short, free) = matches_tail-bounds n d s more in
    (omega arith, neither _ _ (no_inner_comma c first) free)

-- A valid name of an owner group has 1 to 63 characters, and no comma, so that it can stand in the
-- header that carries the owner groups to the services.
pub valid_owner_group_name-bounds :
    (name : String)
    → valid_owner_group_name name ≡ true
    → (1 ≤ count name) × (count name ≤ 63) × IsListable name
unfolding valid_owner_group_name is_empty has_char
valid_owner_group_name-bounds [] h = cc
valid_owner_group_name-bounds (c ∷ []) h =
    (omega arith, omega arith, (refl, neither _ _ (no_comma c h) refl))
valid_owner_group_name-bounds (c ∷ d ∷ s) h =
    let (first, more) = both_true (is_alphanumeric c) (matches_tail 61 d s) h in
    let (short, free) = matches_tail-bounds 61 d s more in
    (omega arith, omega arith, (refl, neither _ _ (no_comma c first) free))
