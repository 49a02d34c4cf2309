-- ===== src/Oidc.antt =====
-- internal/oidc: claims.go and validator.go. The token verifier and the JSON decoder are
-- parameters.
pub mod Groups
pub mod Accepted
pub mod KeySet
mod Tests
use fusion_bff.Base.{
  String, Option, none, some, List, [], ◌∷◌, map, Dict, lookup, Result, ok, err, ◌>>=◌, wrapped,
  if◌then◌else◌, is_empty, trim_left,
}

-- `UserClaims`
pub record UserClaims : Type 0 where
  pub subject : String
  pub user_id : String
  pub email : String
  pub name : String
  pub groups : List String

-- What `encoding/json` makes of one claim's value: a string, the text of a number, or the name in an
-- object.
pub record ClaimDecoder (Json : Type 0) : Type 0 where
  pub as_string : Json → Option String
  pub as_number : Json → Option String
  pub object_name : Json → Result String

-- The claims that the validator decodes by name: each group as it stands in the token.
pub record RawClaims (Json : Type 0) : Type 0 where
  pub sub : String
  pub email : String
  pub name : String
  pub groups : List Json

-- `DefaultUserIDClaim`
abbrev pub default_user_id_claim : String
default_user_id_claim = "sub"

module _ {Json : Type 0} (decoder : ClaimDecoder Json) where
  -- The value of a claim: a string or a number, and "" for anything else.
  abbrev claim_text : Json → String
  claim_text raw = elim (decoder.as_string raw) [
    | some s ↦ s
    | none ↦ elim (decoder.as_number raw) [ some n ↦ n | none ↦ "" ]
  ]

  -- `extractStringClaim`
  unfoldable pub extract_string_claim : Dict Json → String → String
  extract_string_claim claims name = elim (lookup name claims) [
    | none ↦ ""
    | some raw ↦ claim_text raw
  ]

  -- `ExtractUserID`
  unfoldable pub extract_user_id : Dict Json → String → String
  extract_user_id claims claim =
      extract_string_claim claims (if is_empty claim then default_user_id_claim else claim)

  -- `UnmarshalJSON` of a group: a name, or an object with a name.
  unfoldable pub group_claim : Json → Result String
  group_claim json = elim (decoder.as_string json) [
    | some name ↦ ok name
    | none ↦ decoder.object_name json
  ]

  -- The groups of a token, which `encoding/json` decodes in order until one fails.
  unfoldable pub group_claims : List Json → Result (List String)
  group_claims [] = ok []
  group_claims (json ∷ more) = do
    name ← group_claim json
    names ← group_claims more
    ok (name ∷ names)

  -- The claims of a verified token, groups without their leading slashes.
  unfoldable pub user_claims : String → RawClaims Json → List String → Dict Json → UserClaims
  user_claims user_id_claim raw names all = record {
    subject = raw.sub;
    user_id = extract_user_id all user_id_claim;
    email = raw.email;
    name = raw.name;
    groups = map (trim_left b'/') names;
  }

  -- `Validate`, over the verifier's answer and the two decodings of the token's claims.
  unfoldable pub validate :
      {Token : Type 0}
      → (String → Result Token)
      → (Token → Result (RawClaims Json))
      → (Token → Result (Dict Json))
      → String
      → String
      → Result UserClaims
  validate verify decode decode_all user_id_claim raw_token = elim (verify raw_token) [
    | err e ↦ err (wrapped "token verification failed" e)
    | ok token ↦ elim (decode token) [
      | err e ↦ err (wrapped "extracting claims" e)
      | ok raw ↦ elim (group_claims raw.groups) [
        | err e ↦ err (wrapped "extracting claims" e)
        | ok names ↦ elim (decode_all token) [
          | err e ↦ err (wrapped "extracting claims" e)
          | ok all ↦ ok (user_claims user_id_claim raw names all)
        ]
      ]
    ]
  ]
