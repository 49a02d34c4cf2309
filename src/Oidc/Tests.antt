-- ===== src/Oidc/Tests.antt =====
-- Tokens with Keycloak's spelling of groups, as names and as objects.
use fusion_bff.Base.{
  String, Option, some, none, [], ◌∷◌, Dict, Result, plain, ok, err, ◌≡◌, ◌↔◌, refl, lookup,
  is_empty, trim_left, wrapped,
}
use fusion_bff.Oidc.{
  ClaimDecoder, RawClaims, UserClaims, extract_string_claim, extract_user_id, group_claim,
  group_claims, user_claims, validate,
}
use fusion_bff.Oidc.Accepted.{IsAccepted, validate_iff}

program : Unit {0}
unfolding lookup is_empty trim_left extract_string_claim extract_user_id group_claim group_claims
    user_claims validate
program = tt

-- The values that the tokens hold.
data Json : Type 0 where
  text number object : String → Json
  other : Json

abbrev as_string : Json → Option String
as_string (text s) = some s
as_string _ = none

abbrev as_number : Json → Option String
as_number (number s) = some s
as_number _ = none

abbrev object_name : Json → Result String
object_name (object s) = ok s
object_name _ = err (plain "not an object")

abbrev decoder : ClaimDecoder Json
decoder = record { as_string = as_string; as_number = as_number; object_name = object_name }

abbrev verify_any : String → Result String
verify_any raw = ok raw

abbrev decode_raw : String → Result (RawClaims Json)
decode_raw _ =
    ok (record { sub = "u1"; email = ""; name = ""; groups = text "/data" ∷ object "//ops" ∷ [] })

abbrev decode_bad : String → Result (RawClaims Json)
decode_bad _ = ok (record { sub = "u1"; email = ""; name = ""; groups = text "a" ∷ other ∷ [] })

abbrev decode_dict : String → Result (Dict Json)
decode_dict _ = ok (("sub", text "u1") ∷ ("uid", number "17") ∷ [])

abbrev accepted : UserClaims
accepted = record {
  subject = "u1";
  user_id = "17";
  email = "";
  name = "";
  groups = "data" ∷ "ops" ∷ [];
}

accepts_objects : validate decoder verify_any decode_raw decode_dict "uid" "t" ≡ ok accepted
unfolding program
accepts_objects = refl

refuses_other_groups :
    validate decoder verify_any decode_bad decode_dict "uid" "t"
    ≡ err (wrapped "extracting claims" (plain "not an object"))
unfolding program
refuses_other_groups = refl

validate_iff_example :
    (validate decoder verify_any decode_raw decode_dict "uid" "t" ≡ ok accepted)
    ↔ IsAccepted decoder verify_any decode_raw decode_dict "uid" "t" accepted
validate_iff_example = validate_iff decoder verify_any decode_raw decode_dict "uid" "t" accepted
