-- ===== src/MockOidc/Tests/Packages.antt =====
-- The packages for signing, base64 and JSON, in a form that can be evaluated.
use Prim.Native.Char.{code}
use Prim.Native.String.{[], ◌∷◌}
use text.Mathlib.TextEquality.{Char-path}
use fusion_bff.Base.{
  String, Bool, true, false, ◌&&◌, List, [], ◌∷◌, ◌==◌, eqb, if◌then◌else◌, Result, ok, err, plain,
  ◌≡◌, refl, sym, ap, eq_refl, eq_iff, string_eq, inl, inr, arith, is_empty, is_empty_iff, IsFreeOf,
  has_char, Bool-cases,
}
use fusion_bff.Config.{◌<>◌}
use fusion_bff.MockOidc.{Payload, MockClaims, Crypto, IsSound}

-- An encoding without points: a mark before each character, which stands for a point after "1".
unfoldable pub encode : String → String
encode [] = []
encode (c ∷ s) =
    let rest = encode s in if eqb (code c) b'.' then "1" ∷ "x" ∷ rest else "0" ∷ c ∷ rest

unfoldable pub decode : String → Result String
decode [] = ok []
decode (_ ∷ []) = err (plain "corrupt")
decode (mark ∷ c ∷ s) = elim (decode s) [
  | err e ↦ err e
  | ok rest ↦ ok ((if eqb (code mark) b'1' then "." else c) ∷ rest)
]

decode-encode : (s : String) → decode (encode s) ≡ ok s
unfolding encode decode
decode-encode [] = refl
decode-encode (c ∷ s) =
    let later = decode-encode s in
    elim (Bool-cases (eqb (code c) b'.')) [
      | inl point ↦
          let same : c ≡ "." = Char-path c "." (ground arith) in
          rw (point, later) (ap (λ d. ok (d ∷ s)) (sym same))
      | inr other ↦ rw (other, later) refl
    ]

encode-IsFreeOf : (s : String) → IsFreeOf b'.' (encode s)
unfolding encode has_char
encode-IsFreeOf [] = refl
encode-IsFreeOf (c ∷ s) = ground (arith, encode-IsFreeOf s)

-- The payload of the test.
abbrev payload : Payload
payload = record {
  iss = "iss";
  aud = "bff" ∷ [];
  sub = "ann";
  email = "ann@x";
  name = "";
  groups = [];
  iat = 0;
  exp = 86400;
}

abbrev is_nil : List String → Bool
is_nil [] = true
is_nil (_ ∷ _) = false

is_nil_lem : (xs : List String) → is_nil xs ≡ true → xs ≡ []
is_nil_lem [] h = refl
is_nil_lem (_ ∷ _) h = cc

abbrev is_test : Payload → Bool
is_test p =
    p.sub == "ann" && p.email == "ann@x" && is_empty p.name && is_nil p.groups && eqb p.exp 86400

-- Packages that write only payloads like the one of the test.
unfoldable pub marshal : Payload → Result String
marshal p = if is_test p then ok "p" else err (plain "json")

abbrev written : MockClaims
written = record { sub = "ann"; email = "ann@x"; name = ""; groups = []; exp = 86400 }

abbrev sign : String → String → Result String
sign key text = ok (key <> text)

abbrev verify : String → String → String → Result (Unit {0})
verify key text sig = if sig == (key <> text) then ok tt else err (plain "crypto/rsa")

abbrev pub crypto : Crypto String
crypto = record {
  sign = sign;
  verify = verify;
  encode = encode;
  decode = decode;
  header = λ kid. kid;
  marshal = marshal;
  unmarshal = λ text. ok written;
}

unmarshal-marshal :
    (p : Payload) (text : String)
    → marshal p ≡ ok text
    → ok written
      ≡ ok (record { sub = p.sub; email = p.email; name = p.name; groups = p.groups; exp = p.exp })
unfolding marshal is_empty
unmarshal-marshal p text h =
    let matches : is_test p ≡ true = ground arith in
    let sub : p.sub ≡ "ann" = ground (arith, eq_iff p.sub "ann") in
    let email : p.email ≡ "ann@x" = ground (arith, eq_iff p.email "ann@x") in
    let name : p.name ≡ "" = ground (arith, is_empty_iff p.name) in
    let groups : p.groups ≡ [] = is_nil_lem p.groups (ground arith) in
    let exp : p.exp ≡ 86400 = ground arith in rw (sub, email, name, groups, exp) refl

verify-sign : (key text sig : String) → sign key text ≡ ok sig → verify key text sig ≡ ok tt
verify-sign key text sig h =
    let same : sig ≡ (key <> text) = cc in rw (same, eq_refl (key <> text)) refl

pub crypto-IsSound : IsSound crypto
crypto-IsSound = record {
  decode-encode = decode-encode;
  encode-IsFreeOf = encode-IsFreeOf;
  verify-sign = verify-sign;
  unmarshal-marshal = unmarshal-marshal;
}
