-- ===== src/Oidc/Accepted.antt =====
-- Which tokens the validator of internal/oidc/validator.go accepts, and with which claims.
use Prim.Native.String
use Prim.Native.String.{[], ◌∷◌}
use text.Mathlib.TextLemmas.{cons-append, nil-append}
use fusion_bff.Base.{
  code, String, true, none, some, List, [], ◌∷◌, map, Dict, Result, ok, ◌≡◌, ◌⊎◌, ◌↔◌, refl, ap,
  sym, subst, inl, inr, ◌∙◌, arith, eqb, trim_left, Bool-cases, Option-cases, Result-cases,
}
use fusion_bff.Oidc.{
  ClaimDecoder, RawClaims, UserClaims, extract_user_id, group_claim, group_claims, user_claims,
  validate,
}
use fusion_bff.Oidc.Groups.{IsBare, validate-IsDecoded}

abbrev OnlySlashes : String → Type 0
OnlySlashes [] = Unit
OnlySlashes (c ∷ s) = (code c ≡ b'/') × OnlySlashes s

-- The name is the text without the slashes in front.
abbrev pub IsBareNameOf : String → String → Type 0
IsBareNameOf s g = IsBare g × (slashes : String) × OnlySlashes slashes × (String.◌++◌ slashes g ≡ s)

trim_left-IsBareNameOf : (s : String) → IsBareNameOf s (trim_left b'/' s)
unfolding trim_left
trim_left-IsBareNameOf [] = (tt, [], tt, nil-append "")
trim_left-IsBareNameOf (c ∷ s) = elim (Bool-cases (eqb (code c) b'/')) [
  | inl slash ↦
      let (bare, slashes, only, same) = trim_left-IsBareNameOf s in
      rw slash
        (bare, c ∷ slashes, (ground arith, only), cons-append c slashes _ ∙ ap (λ r. c ∷ r) same)
  | inr other ↦ rw other ((λ e. ground arith), [], tt, nil-append (c ∷ s))
]

trim_left-bare : (g : String) → IsBare g → trim_left b'/' g ≡ g
unfolding trim_left
trim_left-bare [] bare = refl
trim_left-bare (c ∷ g) bare = elim (Bool-cases (eqb (code c) b'/')) [
  | inl slash ↦ absurd (bare (ground arith))
  | inr other ↦ rw other refl
]

trim_left-slashes :
    (slashes g : String)
    → OnlySlashes slashes
    → IsBare g
    → trim_left b'/' (String.◌++◌ slashes g) ≡ g
unfolding trim_left
trim_left-slashes [] g only bare = rw (nil-append g) (trim_left-bare g bare)
trim_left-slashes (c ∷ slashes) g (slash, only) bare =
    let here : eqb (code c) b'/' ≡ true = ground arith in
    rw (cons-append c slashes g, here, trim_left) (trim_left-slashes slashes g only bare)

module _ {Json : Type 0} (decoder : ClaimDecoder Json) where
  -- The group is the text, or an object with the text as its name.
  abbrev pub IsNamed : Json → String → Type 0
  IsNamed json s =
      (decoder.as_string json ≡ some s)
      ⊎ ((decoder.as_string json ≡ none) × (decoder.object_name json ≡ ok s))

  -- The groups have these names, one by one, without their leading slashes.
  abbrev pub AreNamed : List Json → List String → Type 0
  AreNamed [] [] = Unit
  AreNamed (json ∷ more) (g ∷ groups) =
      ((s : String) × IsNamed json s × IsBareNameOf s g) × AreNamed more groups
  AreNamed _ _ = ⊥

  group_claim_iff : (json : Json) (s : String) → (group_claim decoder json ≡ ok s) ↔ IsNamed json s
  unfolding group_claim
  group_claim_iff json s = elim (Option-cases (decoder.as_string json)) [
    | inl absent ↦
        rw (absent, group_claim)
          (
            λ h. inr (refl, h),
            λ n. elim n [ inl text ↦ (let clash = text in cc) | inr (_, object) ↦ object ],
          )
    | inr (name, text) ↦
        rw (text, group_claim) (λ h. inl (cc), λ n. elim n [ inl same ↦ cc | inr (clash, _) ↦ cc ])
  ]

  -- The names that the decoding gives, without their slashes, are those of the groups.
  group_claims-AreNamed :
      (jsons : List Json) (names : List String)
      → group_claims decoder jsons ≡ ok names
      → AreNamed jsons (map (trim_left b'/') names)
  unfolding group_claims
  group_claims-AreNamed [] names h = let same : names ≡ [] = cc in rw same tt
  group_claims-AreNamed (json ∷ more) names h = elim (Result-cases (group_claim decoder json)) [
    | inr (e, broken) ↦ (let clash = rw (broken, group_claims) at h in cc)
    | inl (name, named) ↦ elim (Result-cases (group_claims decoder more)) [
      | inr (e, broken) ↦ (let clash = rw (named, broken, group_claims) at h in cc)
      | inl (rest, all) ↦
          let here : ok (name ∷ rest) ≡ ok names = rw (named, all, group_claims) at h in
          let same : names ≡ name ∷ rest = cc in
          rw same (
            (name, (group_claim_iff json name).0 named, trim_left-IsBareNameOf name),
            group_claims-AreNamed more rest all,
          )
    ]
  ]

  AreNamed-group_claims :
      (jsons : List Json) (groups : List String)
      → AreNamed jsons groups
      → (names : List String) × (group_claims decoder jsons ≡ ok names)
        × (map (trim_left b'/') names ≡ groups)
  unfolding group_claims
  AreNamed-group_claims [] [] n = ([], refl, refl)
  AreNamed-group_claims [] (g ∷ groups) n = absurd n
  AreNamed-group_claims (json ∷ more) [] n = absurd n
  AreNamed-group_claims (json ∷ more) (g ∷ groups) ((s, named, (bare, slashes, only, same)), rest) =
      let (names, all, trimmed) = AreNamed-group_claims more groups rest in
      let decoded = (group_claim_iff json s).1 named in
      let bared : trim_left b'/' s ≡ g =
        subst (λ t. trim_left b'/' t ≡ g) same (trim_left-slashes slashes g only bare) in
      (s ∷ names, rw (decoded, all, group_claims) refl, rw (bared, trimmed) refl)

module _ {Json Token : Type 0} (decoder : ClaimDecoder Json) (verify : String → Result Token)
    (decode : Token → Result (RawClaims Json)) (decode_all : Token → Result (Dict Json)) where
  -- The verifier accepts the token, both decodings of its claims work, and the answer holds what
  -- they give, with the names of the groups bare of leading slashes.
  abbrev pub IsAccepted : String → String → UserClaims → Type 0
  IsAccepted user_id_claim raw_token claims =
      (token : Token) × (raw : RawClaims Json) × (groups : List String) × (all : Dict Json)
      × (verify raw_token ≡ ok token)
      × (decode token ≡ ok raw)
      × AreNamed decoder raw.groups groups
      × (decode_all token ≡ ok all)
      × (claims ≡ record {
        subject = raw.sub;
        user_id = extract_user_id decoder all user_id_claim;
        email = raw.email;
        name = raw.name;
        groups = groups;
      })

  -- The validator answers with claims exactly if the verifier accepts the token, its claims can be
  -- decoded by name and as a whole, and each of its groups is a text or an object with a name. The
  -- claims then hold the subject, the email and the name of the token, the user id of the configured
  -- claim, and the names of the groups, in order, without their leading slashes.
  pub validate_iff :
      (user_id_claim raw_token : String) (claims : UserClaims)
      → (validate decoder verify decode decode_all user_id_claim raw_token ≡ ok claims)
        ↔ IsAccepted user_id_claim raw_token claims
  unfolding validate user_claims
  validate_iff user_id_claim raw_token claims = (
    λ h.
        let (token, raw, names, all, verified, decoded, named, complete, same) =
          validate-IsDecoded decoder verify decode decode_all user_id_claim raw_token claims h in
        (
          token,
          raw,
          map (trim_left b'/') names,
          all,
          verified,
          decoded,
          group_claims-AreNamed decoder raw.groups names named,
          complete,
          sym same,
        ),
    λ a.
        let (token, raw, groups, all, verified, decoded, are_named, complete, same) = a in
        let (names, named, trimmed) = AreNamed-group_claims decoder raw.groups groups are_named in
        rw (verified, decoded, named, complete, validate, same, sym trimmed) refl,
  )
