-- ===== src/Oidc/Groups.antt =====
-- The groups of a validated token.
use Prim.Native.String.{[], ◌∷◌}
use fusion_bff.Base.{
  code, String, List, [], ◌∷◌, map, All, Dict, Result, ok, eqb, trim_left, ◌≡◌, ◌≢◌, subst, inl,
  inr, arith, Bool-cases, Result-cases,
}
use fusion_bff.Oidc.{ClaimDecoder, RawClaims, UserClaims, group_claims, user_claims, validate}

-- The name does not begin with a slash.
abbrev pub IsBare : String → Type 0
IsBare [] = Unit
IsBare (c ∷ s) = code c ≢ b'/'

pub trim_left-IsBare : (s : String) → IsBare (trim_left b'/' s)
unfolding trim_left
trim_left-IsBare [] = tt
trim_left-IsBare (c ∷ s) = elim (Bool-cases (eqb (code c) b'/')) [
  | inl slash ↦ rw slash (trim_left-IsBare s)
  | inr other ↦ rw other (λ e. ground arith)
]

map-IsBare : (groups : List String) → All IsBare (map (trim_left b'/') groups)
map-IsBare [] = tt
map-IsBare (g ∷ gs) = (trim_left-IsBare g, map-IsBare gs)

module _ {Json Token : Type 0} (decoder : ClaimDecoder Json) (verify : String → Result Token)
    (decode : Token → Result (RawClaims Json)) (decode_all : Token → Result (Dict Json)) where
  -- Accepted claims are those of a token that the verifier accepts, decoded in both ways.
  abbrev pub IsDecoded : String → String → UserClaims → Type 0
  IsDecoded user_id_claim raw_token claims =
      (token : Token) × (raw : RawClaims Json) × (names : List String) × (all : Dict Json) × (verify
          raw_token
        ≡ ok token)
      × (decode token ≡ ok raw)
      × (group_claims decoder raw.groups ≡ ok names)
      × (decode_all token ≡ ok all)
      × (user_claims decoder user_id_claim raw names all ≡ claims)

  pub validate-IsDecoded :
      (user_id_claim raw_token : String) (claims : UserClaims)
      → validate decoder verify decode decode_all user_id_claim raw_token ≡ ok claims
      → IsDecoded user_id_claim raw_token claims
  unfolding validate
  validate-IsDecoded user_id_claim raw_token claims h = elim (Result-cases (verify raw_token)) [
    | inr (e, refused) ↦ (let clash = rw (refused, validate) at h in cc)
    | inl (token, verified) ↦ elim (Result-cases (decode token)) [
      | inr (e, broken) ↦ (let clash = rw (verified, broken, validate) at h in cc)
      | inl (raw, decoded) ↦ elim (Result-cases (group_claims decoder raw.groups)) [
        | inr (e, broken) ↦ (let clash = rw (verified, decoded, broken, validate) at h in cc)
        | inl (names, named) ↦ elim (Result-cases (decode_all token)) [
          | inr (e, broken) ↦
              (let clash = rw (verified, decoded, named, broken, validate) at h in cc)
          | inl (all, complete) ↦
              let here : ok (user_claims decoder user_id_claim raw names all) ≡ ok claims =
                rw (verified, decoded, named, complete, validate) at h in
              (token, raw, names, all, verified, decoded, named, complete, cc)
        ]
      ]
    ]
  ]

  -- No group of accepted claims begins with a slash.
  pub validate-IsBare :
      (user_id_claim raw_token : String) (claims : UserClaims)
      → validate decoder verify decode decode_all user_id_claim raw_token ≡ ok claims
      → All IsBare claims.groups
  unfolding user_claims
  validate-IsBare user_id_claim raw_token claims h =
      let (token, raw, names, all, _, _, _, _, same) =
        validate-IsDecoded user_id_claim raw_token claims h in
      subst (λ c. All IsBare c.groups) same (map-IsBare names)
