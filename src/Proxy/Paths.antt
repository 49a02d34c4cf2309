-- ===== src/Proxy/Paths.antt =====
-- The paths that an upstream service sees.
use Prim.Native.String
use Prim.Native.String.{[], ◌∷◌}
use fusion_bff.Base.{
  Char, code, String, some, ◌≡◌, refl, ap, ◌⊎◌, inl, inr, arith, eqb, Bool-cases, is_empty,
  cut_prefix, trim_prefix,
}
use text.Mathlib.TextLemmas.{cons-append, nil-append}
use fusion_bff.Proxy.{ProxyContext, Header, with_slash, strip_path, strip_raw_path, rewrite}

-- The text begins with a slash.
abbrev pub IsRooted : String → Type 0
IsRooted [] = ⊥
IsRooted (c ∷ s) = code c ≡ b'/'

with_slash-IsRooted : (s : String) → IsRooted (with_slash s)
unfolding with_slash
with_slash-IsRooted [] = refl
with_slash-IsRooted (c ∷ s) = elim (Bool-cases (eqb (code c) b'/')) [
  | inl slash ↦ rw slash (ground arith)
  | inr other ↦ rw other refl
]

cut_prefix-append : (p s : String) → cut_prefix p (String.◌++◌ p s) ≡ some s
unfolding cut_prefix
cut_prefix-append [] s = ap some (nil-append s)
cut_prefix-append (c ∷ p) s = rw (cons-append c p s) (ground (arith, cut_prefix-append p s))

strip_path-append :
    (prefix : String) (c : Char) (rest : String)
    → code c ≡ b'/'
    → strip_path prefix (String.◌++◌ prefix (c ∷ rest)) ≡ c ∷ rest
unfolding strip_path trim_prefix with_slash
strip_path-append prefix c rest slash =
    rw (cut_prefix-append prefix (c ∷ rest), trim_prefix) (ground arith)

-- The path sent upstream begins with a slash, whatever the request's path; the raw path is empty
-- or begins with one.
pub rewrite-IsRooted :
    (prefix : String) (ctx : ProxyContext) (path raw_path : String) (h : Header)
    → IsRooted (rewrite prefix ctx path raw_path h).path
      × (((rewrite prefix ctx path raw_path h).raw_path ≡ "")
          ⊎ IsRooted (rewrite prefix ctx path raw_path h).raw_path)
unfolding rewrite strip_raw_path strip_path
rewrite-IsRooted prefix ctx path raw_path h = (
  rooted path,
  elim (Bool-cases (is_empty raw_path)) [
    | inl e ↦ inl (rw e refl)
    | inr n ↦ inr (rw n (rooted raw_path))
  ],
)
  where
    rooted : (s : String) → IsRooted (strip_path prefix s)
    rooted s = with_slash-IsRooted (trim_prefix s prefix)

-- A request path that is the prefix and then a rest that begins with a slash is sent upstream as that
-- rest.
pub rewrite-path :
    (prefix : String) (ctx : ProxyContext) (raw_path : String) (h : Header) (c : Char)
    (rest : String)
    → code c ≡ b'/'
    → (rewrite prefix ctx (String.◌++◌ prefix (c ∷ rest)) raw_path h).path ≡ c ∷ rest
unfolding rewrite
rewrite-path prefix ctx raw_path h c rest slash = strip_path-append prefix c rest slash
