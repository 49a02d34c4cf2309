-- ===== src/MockOidc.antt =====
-- internal/mockoidc/server.go and validator.go: the embedded provider of the bypass. Signing,
-- base64, JSON, `url.QueryEscape` and random numbers are parameters; the HTML page is left out.
pub mod Endpoints
pub mod Validated
pub mod Grants
pub mod Login
pub mod Bypass
mod Tests
use Prim.Native.String
use fusion_bff.Base.{
  ℕ, ◌+◌, ◌*◌, ◌/◌, String, Bool, true, false, List, [], ◌∷◌, ltb, if◌then◌else◌, split, Result, ok,
  err, ◌>>=◌, Error, plain, wrapped, Dict, ◌≡◌, IsFreeOf,
}
use fusion_bff.Session.{second}
use fusion_bff.Config.{Config, ◌<>◌}
use fusion_bff.Config.Load.{hour, mock_issuer}
use fusion_bff.Oidc.{UserClaims}

-- `identity`
pub record Identity : Type 0 where
  pub sub : String
  pub email : String
  pub name : String
  pub groups : List String

-- `codeEntry`
pub record CodeEntry : Type 0 where
  pub ident : Identity
  pub expires_at : ℕ

-- The claims that `mintJWT` puts into a token.
pub record Payload : Type 0 where
  pub iss : String
  pub aud : List String
  pub sub : String
  pub email : String
  pub name : String
  pub groups : List String
  pub iat : ℕ
  pub exp : ℕ

-- The claims that `Validate` reads.
pub record MockClaims : Type 0 where
  pub sub : String
  pub email : String
  pub name : String
  pub groups : List String
  pub exp : ℕ

-- Packages rsa and sha256, RawURLEncoding of base64, and json. Byte strings are texts.
pub record Crypto (Key : Type 0) : Type 0 where
  pub sign : Key → String → Result String
  pub verify : Key → String → String → Result (Unit {0})
  pub encode : String → String
  pub decode : String → Result String
  pub header : String → String
  pub marshal : Payload → Result String
  pub unmarshal : String → Result MockClaims

-- `Server`: the key pair is one value, which signs and verifies; the JWKS document is left out.
pub record MockServer (Key : Type 0) : Type 0 where
  pub private_key : Key
  pub key_id : String
  pub issuer : String
  pub client_id : String
  pub default_sub : String
  pub default_email : String
  pub default_name : String
  pub default_groups : List String
  pub available_groups : List String
  pub codes : Dict CodeEntry
  pub refreshes : Dict Identity

-- `New`, with the generated key.
unfoldable pub new_server :
    {Key Duration : Type 0} → Key → Config Duration → List String → MockServer Key
new_server key cfg available_groups = record {
  private_key = key;
  key_id = "mock-1";
  issuer = mock_issuer cfg.http_port;
  client_id = cfg.oidc_client_id;
  default_sub = cfg.oidc_bypass_sub;
  default_email = cfg.oidc_bypass_email;
  default_name = cfg.oidc_bypass_name;
  default_groups = cfg.oidc_bypass_groups;
  available_groups = available_groups;
  codes = [];
  refreshes = [];
}

-- `Time.Unix`
abbrev pub unix : ℕ → ℕ
unix now = now / second

-- The end of a token minted now.
abbrev pub token_end : ℕ → ℕ
token_end now = unix (now + 24 * hour)

-- Two parts of a token with the point between them.
abbrev pub dotted : String → String → String
dotted s t = s <> "." <> t

module _ {Key : Type 0} (crypto : Crypto Key) where
  unfoldable pub payload_of : MockServer Key → Identity → ℕ → Payload
  payload_of s id now = record {
    iss = s.issuer;
    aud = s.client_id ∷ [];
    sub = id.sub;
    email = id.email;
    name = id.name;
    groups = id.groups;
    iat = unix now;
    exp = token_end now;
  }

  -- `mintJWT`
  unfoldable pub mint_jwt : MockServer Key → Identity → ℕ → Result String
  mint_jwt s id now = elim (crypto.marshal (payload_of s id now)) [
    | err e ↦ err (wrapped "marshal claims" e)
    | ok payload ↦
        let sig_input = dotted (crypto.encode (crypto.header s.key_id)) (crypto.encode payload) in
        elim (crypto.sign s.private_key sig_input) [
          | err e ↦ err (wrapped "sign JWT" e)
          | ok sig ↦ ok (dotted sig_input (crypto.encode sig))
        ]
  ]

  unfoldable pub claims_of : MockClaims → UserClaims
  claims_of claims = record {
    subject = claims.sub;
    user_id = claims.sub;
    email = claims.email;
    name = claims.name;
    groups = claims.groups;
  }

  -- `Validate` after the signature has been verified.
  unfoldable pub read_payload : ℕ → String → Result UserClaims
  read_payload now part = elim (crypto.decode part) [
    | err e ↦ err (wrapped "decode payload" e)
    | ok payload ↦ elim (crypto.unmarshal payload) [
      | err e ↦ err (wrapped "unmarshal claims" e)
      | ok claims ↦
          if ltb claims.exp (unix now) then err (plain "token expired") else ok (claims_of claims)
    ]
  ]

  -- `Validate` for a token of three parts.
  unfoldable pub check_parts : Key → ℕ → String → String → String → Result UserClaims
  check_parts key now head payload signature = elim (crypto.decode signature) [
    | err e ↦ err (wrapped "decode signature" e)
    | ok sig ↦ elim (crypto.verify key (dotted head payload) sig) [
      | err e ↦ err (wrapped "invalid token signature" e)
      | ok _ ↦ read_payload now payload
    ]
  ]

  abbrev of_parts : Key → ℕ → List String → Result UserClaims
  of_parts key now (head ∷ payload ∷ signature ∷ []) = check_parts key now head payload signature
  of_parts key now _ = err (plain "invalid JWT format")

  -- `Validate`
  unfoldable pub validate_mock : Key → ℕ → String → Result UserClaims
  validate_mock key now raw_token = of_parts key now (split b'.' raw_token)

  -- What the program relies on: the documented behaviour of the packages.
  pub record IsSound : Type 0 where
    pub decode-encode : (s : String) → crypto.decode (crypto.encode s) ≡ ok s
    pub encode-IsFreeOf : (s : String) → IsFreeOf b'.' (crypto.encode s)
    pub verify-sign :
        (key : Key) (text sig : String)
        → crypto.sign key text ≡ ok sig
        → crypto.verify key text sig ≡ ok tt
    pub unmarshal-marshal :
        (p : Payload) (text : String)
        → crypto.marshal p ≡ ok text
        → crypto.unmarshal text
          ≡ ok (record {
            sub = p.sub;
            email = p.email;
            name = p.name;
            groups = p.groups;
            exp = p.exp;
          })
