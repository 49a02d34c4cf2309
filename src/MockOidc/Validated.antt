-- ===== src/MockOidc/Validated.antt =====
-- What the validator of the embedded provider makes of the tokens that the provider mints.
use Prim.Native.String.{[], ◌∷◌}
use text.Mathlib.TextLemmas.{append_assoc, nil-append, cons-append}
use fusion_bff.Base.{
  ℕ, String, [], ◌∷◌, ltb, if◌then◌else◌, split, split-free, split-append, IsFreeOf, ok, err, plain,
  ◌≡◌, ◌≢◌, refl, ap, ◌∙◌, Result-cases, inl, inr, sym,
}
use fusion_bff.Oidc.{UserClaims}
use fusion_bff.Config.{◌<>◌}
use fusion_bff.MockOidc.{
  Identity, Crypto, IsSound, MockServer, unix, token_end, dotted, payload_of, mint_jwt, claims_of,
  read_payload, check_parts, validate_mock,
}

-- A token of three parts without points is split into them.
split-dotted :
    (a b c : String)
    → IsFreeOf b'.' a
    → IsFreeOf b'.' b
    → IsFreeOf b'.' c
    → split b'.' (dotted (dotted a b) c) ≡ a ∷ b ∷ c ∷ []
split-dotted a b c fa fb fc =
    let flat =
      append_assoc a ("." <> b) ("." <> c) ∙ ap (λ t. a <> t) (append_assoc "." b ("." <> c)) in
    let cut_a = split-append "." a (b <> "." <> c) fa in
    let cut_b = split-append "." b c fb in
    let last = split-free b'.' c fc in
    ap (split b'.') flat ∙ (cut_a ∙ ap (λ l. a ∷ l) (cut_b ∙ ap (λ l. b ∷ l) last))

ok_inj {ℓ} : {A : Type ℓ} {x y : A} → ok x ≡ ok y → x ≡ y
ok_inj e = cc

-- The claims that the validator finds in a token for the identity.
abbrev pub claims_for : Identity → UserClaims
claims_for id = record {
  subject = id.sub;
  user_id = id.sub;
  email = id.email;
  name = id.name;
  groups = id.groups;
}

module _ {Key : Type 0} (crypto : Crypto Key) (sound : IsSound crypto) (s : MockServer Key) where
  -- What is signed in a token.
  abbrev signed : String → String
  signed payload = dotted (crypto.encode (crypto.header s.key_id)) (crypto.encode payload)

  -- A token that the provider mints for an identity is accepted by the validator up to the second in
  -- which it ends, with the claims of that identity, and is refused as expired after it. The packages
  -- for signatures, base64 and JSON must invert what they produce.
  pub validate_mock-mint_jwt :
      (id : Identity) (now later : ℕ) (tok : String)
      → mint_jwt crypto s id now ≡ ok tok
      → validate_mock crypto s.private_key later tok ≡ (
          if ltb (token_end now) (unix later)
          then err (plain "token expired")
          else ok (claims_for id))
  unfolding mint_jwt validate_mock check_parts read_payload claims_of payload_of
  validate_mock-mint_jwt id now later tok minted =
      elim (Result-cases (crypto.marshal (payload_of crypto s id now))) [
        | inr (e, bad) ↦ let failed = rw (bad, mint_jwt) at minted in cc
        | inl (payload, marshalled) ↦
            elim (Result-cases (crypto.sign s.private_key (signed payload))) [
              | inr (e, bad) ↦ let failed = rw (marshalled, bad, mint_jwt) at minted in cc
              | inl (sig, signature) ↦
                  let whole : dotted (signed payload) (crypto.encode sig) ≡ tok =
                    ok_inj (rw (marshalled, signature, mint_jwt) at minted) in
                  let free = sound.encode-IsFreeOf in
                  let parts =
                    split-dotted (crypto.encode (crypto.header s.key_id)) (crypto.encode payload)
                      (crypto.encode sig) (free _) (free _) (free _) in
                  let verified = sound.verify-sign s.private_key (signed payload) sig signature in
                  let read = sound.unmarshal-marshal _ payload marshalled in
                  rw
                    (
                      sym whole,
                      validate_mock,
                      parts,
                      check_parts,
                      sound.decode-encode sig,
                      verified,
                      read_payload,
                      sound.decode-encode payload,
                      read,
                    )
                    refl
            ]
      ]

dotted-set : (a b : String) → dotted a b ≢ ""
dotted-set [] b e = let point = nil-append ("." <> b) in let first = cons-append "." "" b in cc
dotted-set (c ∷ a) b e = let first = cons-append c a ("." <> b) in cc

-- A minted token is not empty.
pub mint_jwt-set :
    {Key : Type 0} (crypto : Crypto Key) (s : MockServer Key) (id : Identity) (now : ℕ)
    (tok : String)
    → mint_jwt crypto s id now ≡ ok tok
    → tok ≢ ""
unfolding mint_jwt
mint_jwt-set crypto s id now tok minted =
    elim (Result-cases (crypto.marshal (payload_of crypto s id now))) [
      | inr (e, bad) ↦ let failed = rw (bad, mint_jwt) at minted in cc
      | inl (payload, marshalled) ↦
          let text = dotted (crypto.encode (crypto.header s.key_id)) (crypto.encode payload) in
          elim (Result-cases (crypto.sign s.private_key text)) [
            | inr (e, bad) ↦ let failed = rw (marshalled, bad, mint_jwt) at minted in cc
            | inl (sig, signature) ↦
                let whole : dotted text (crypto.encode sig) ≡ tok =
                  ok_inj (rw (marshalled, signature, mint_jwt) at minted) in
                λ none. dotted-set text (crypto.encode sig) (whole ∙ none)
          ]
    ]
