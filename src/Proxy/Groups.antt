-- ===== src/Proxy/Groups.antt =====
-- The owner groups that an upstream service reads from the X-User-Groups header.
use Prim.Native.String.{[], ◌∷◌}
use fusion_bff.Base.{
  Char, String, false, Option, some, List, [], ◌∷◌, ◌≡◌, refl, ap, ◌∙◌, is_empty, has_char, split,
  split-free, split-append, join, lookup, All,
}
use text.Mathlib.TextLemmas.{cons-append}
use fusion_bff.Proxy.{ProxyContext, Header, set_user_context, rewrite_header}
use fusion_bff.Proxy.Headers.{lookup-rewrite_header}

abbrev comma : Char
comma = ","

-- A name that can stand in the list: not empty, and without a comma.
abbrev pub IsListable : String → Type 0
IsListable name = (is_empty name ≡ false) × (has_char b',' name ≡ false)

split-join :
    (w : String) (ws : List String)
    → All IsListable (w ∷ ws)
    → split b',' (join "," (w ∷ ws)) ≡ w ∷ ws
unfolding join
split-join w [] (ok_w, _) = split-free b',' w ok_w.1
split-join w (v ∷ ws) (ok_w, rest) =
    split-append comma w (join "," (v ∷ ws)) ok_w.1 ∙ ap (◌∷◌ w) (split-join v ws rest)

join-not_empty :
    (w : String) (ws : List String) → is_empty w ≡ false → is_empty (join "," (w ∷ ws)) ≡ false
unfolding join is_empty
join-not_empty [] ws h = cc
join-not_empty (c ∷ w) [] h = refl
join-not_empty (c ∷ w) (v ∷ ws) h = rw (cons-append c w _) refl

-- The groups read from the header's values: none where the header is absent.
abbrev pub groups_in : Option (List String) → List String
groups_in (some (v ∷ _)) = split b',' v
groups_in _ = []

-- The upstream service reads from the header exactly the owner groups that the middleware stored,
-- in order, if no name is empty or has a comma; with no group the header is absent.
pub groups_in-rewrite_header :
    (ctx : ProxyContext) (user_id email : String) (groups : List String) (h : Header)
    → All IsListable groups
    → groups_in
        (lookup "X-User-Groups" (rewrite_header (set_user_context ctx user_id email groups) h))
      ≡ groups
unfolding set_user_context join is_empty
groups_in-rewrite_header ctx user_id email [] h a =
    rw (lookup-rewrite_header (set_user_context ctx user_id email []) h "X-User-Groups") refl
groups_in-rewrite_header ctx user_id email (w ∷ ws) h a =
    rw
      (
        lookup-rewrite_header (set_user_context ctx user_id email (w ∷ ws)) h "X-User-Groups",
        join-not_empty w ws a.0.0,
      )
      (split-join w ws a)
