-- ===== src/Handler/Admin/Names.antt =====
-- `ownerGroupNameRE` of internal/api/handler/owner_groups.go, read as a test on the characters.
use Prim.Native.String.{[], ◌∷◌}
use Prim.Native.Char.{Char, code}
use fusion_bff.Base.{ℕ, zero, suc, String, Bool, false, ◌&&◌, ◌||◌, leb, eqb}

-- `[A-Za-z0-9]`
abbrev pub is_alphanumeric : Char → Bool
is_alphanumeric c =
    (leb b'A' (code c) && leb (code c) b'Z')
    || (leb b'a' (code c) && leb (code c) b'z')
    || (leb b'0' (code c) && leb (code c) b'9')

-- `[A-Za-z0-9._-]`
abbrev pub is_inner : Char → Bool
is_inner c = is_alphanumeric c || eqb (code c) b'.' || eqb (code c) b'_' || eqb (code c) b'-'

-- `[A-Za-z0-9._-]{0,n}[A-Za-z0-9]$`, after a character.
unfoldable pub matches_tail : ℕ → Char → String → Bool
matches_tail n c [] = is_alphanumeric c
matches_tail zero c (d ∷ s) = false
matches_tail (suc n) c (d ∷ s) = is_inner c && matches_tail n d s

-- `ValidOwnerGroupName`: one alphanumeric character, or two with at most 61 others between them.
unfoldable pub valid_owner_group_name : String → Bool
valid_owner_group_name [] = false
valid_owner_group_name (c ∷ []) = is_alphanumeric c
valid_owner_group_name (c ∷ d ∷ s) = is_alphanumeric c && matches_tail 61 d s
