-- ===== src/Session/Cookie.antt =====
-- The cookie domain that is derived from the request's host.
use Prim.Native.String.{[], ◌∷◌}
use fusion_bff.Base.{
  ℕ, Char, code, String, true, false, ◌==◌, ◌≡◌, refl, inl, inr, ap, ◌∙◌, sym, arith, eq_iff,
  Bool-cases, joined, has_char, after_first, before_last,
}
use fusion_bff.Session.{cookie_domain}
use text.Mathlib.TextLemmas.{cons-append, nil-append}

module _ (sep : Char) where
  has_char-joined : (s t : String) → has_char (code sep) (joined s sep t) ≡ true
  unfolding has_char
  has_char-joined [] t = ground arith
  has_char-joined (c ∷ s) t = ground (arith, has_char-joined s t)

  after_first-joined :
      (s t : String) → has_char (code sep) s ≡ false → after_first (code sep) (joined s sep t) ≡ t
  unfolding after_first has_char
  after_first-joined [] t h = ground arith
  after_first-joined (c ∷ s) t h = ground (arith, has_char-joined s t, after_first-joined s t)

  before_last-joined :
      (s t : String) → has_char (code sep) t ≡ false → before_last (code sep) (joined s sep t) ≡ s
  unfolding before_last has_char
  before_last-joined [] t h = ground arith
  before_last-joined (c ∷ s) t h = ground (arith, has_char-joined s t, before_last-joined s t)

before_last-free : (sep : ℕ) (s : String) → has_char sep s ≡ false → before_last sep s ≡ s
unfolding before_last has_char
before_last-free sep [] h = refl
before_last-free sep (c ∷ s) h = ground (arith, before_last-free sep s)

abbrev pub dot : Char
dot = "."

abbrev pub colon : Char
colon = ":"

-- `label.parent`
abbrev pub host_of : String → String → String
host_of label parent = joined label dot parent

host_of-ne : (label parent : String) → (host_of label parent == "localhost") ≡ false
unfolding has_char
host_of-ne label parent = elim (Bool-cases (host_of label parent == "localhost")) [
  | inr other ↦ other
  | inl same ↦
      let e = (eq_iff (host_of label parent) "localhost").0 same in
      cc (sym (has_char-joined dot label parent) ∙ ap (has_char b'.') e)
]

derived :
    (label parent host : String)
    → has_char b'.' label ≡ false
    → before_last b':' host ≡ host_of label parent
    → cookie_domain "auto" host ≡ dot ∷ parent
unfolding cookie_domain
derived label parent host l h = rw h (
    rw
      (
        host_of-ne label parent,
        has_char-joined dot label parent,
        after_first-joined dot label parent l,
      )
      (cons-append dot [] parent ∙ ap (◌∷◌ dot) (nil-append parent)))

-- With "auto", every host `label.parent`, with a port or without, gets the domain `.parent`, so
-- that all subdomains of the parent share the cookie. The label has no dot, and the host has no
-- colon but that of the port.
pub cookie_domain_auto :
    (label parent port : String)
    → has_char b'.' label ≡ false
    → has_char b':' (host_of label parent) ≡ false
    → has_char b':' port ≡ false
    → (cookie_domain "auto" (host_of label parent) ≡ dot ∷ parent)
      × (cookie_domain "auto" (joined (host_of label parent) colon port) ≡ dot ∷ parent)
cookie_domain_auto label parent port l h p = (
  derived label parent _ l (before_last-free b':' (host_of label parent) h),
  derived label parent _ l (before_last-joined colon (host_of label parent) port p),
)
