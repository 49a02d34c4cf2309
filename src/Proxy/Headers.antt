-- ===== src/Proxy/Headers.antt =====
-- The identity headers that an upstream service sees.
use Prim.Native.String.{[], ◌∷◌}
use fusion_bff.Base.{
  String, Bool, true, false, Option, none, some, List, [], ◌∷◌, ◌==◌, ◌≡◌, refl, ◌≢◌, subst, arith,
  eq_iff, if◌then◌else◌, lookup, delete, lookup-insert, lookup-delete, is_empty,
}
use fusion_bff.Proxy.{ProxyContext, Header, plain, bearer, set_from, strip_identity, rewrite_header}

-- The values of a header that is set from a context value, where it is present and not empty.
abbrev pub sent : (String → String) → Option String → Option (List String)
sent shape none = none
sent shape (some v) = if is_empty v then none else some (shape v ∷ [])

-- The first value, or else the second.
abbrev or_else : Option (List String) → Option (List String) → Option (List String)
or_else none o = o
or_else (some v) o = some v

lookup-set_from :
    (name j : String) (shape : String → String) (o : Option String) (h : Header)
    → lookup j (set_from name shape o h)
      ≡ (if name == j then or_else (sent shape o) (lookup j h) else lookup j h)
unfolding set_from
lookup-set_from name j shape none h = ground arith
lookup-set_from name j shape (some v) h = ground (arith, lookup-insert name j (shape v ∷ []) h)

lookup-strip_identity :
    (j : String) (h : Header)
    → lookup j (strip_identity h) ≡ (
        if "Authorization" == j
        then none
        else if "X-User-Groups" == j
        then none
        else if "X-User-Email" == j
        then none
        else if "X-User-Id" == j
        then none
        else lookup j h)
unfolding strip_identity
lookup-strip_identity j h =
    let h1 = delete "X-User-Id" h in
    let h2 = delete "X-User-Email" h1 in
    let h3 = delete "X-User-Groups" h2 in
    ground (
      arith,
      lookup-delete "X-User-Id" j h,
      lookup-delete "X-User-Email" j h1,
      lookup-delete "X-User-Groups" j h2,
      lookup-delete "Authorization" j h3,
    )

or_else-none : (o : Option (List String)) → or_else o none ≡ o
or_else-none none = refl
or_else-none (some v) = refl

distinct : (a b j : String) → (b == a) ≡ false → (a == j) ≡ true → (b == j) ≡ false
distinct a b j n h = subst (λ x. (b == x) ≡ false) ((eq_iff a j).0 h) n

-- Four names that are set one after the other, after all four were deleted: the last one counts.
last_wins :
    (g e u a : Bool) (sg se su sa o : Option (List String))
    → (g ≡ true → (e ≡ false) × (u ≡ false) × (a ≡ false))
    → (e ≡ true → (u ≡ false) × (a ≡ false))
    → (u ≡ true → a ≡ false)
    → (let none4 =
          if a then none else if g then none else if e then none else if u then none else o in
        let x1 = if a then or_else sa none4 else none4 in
        let x2 = if u then or_else su x1 else x1 in
        let x3 = if e then or_else se x2 else x2 in
        (if g then or_else sg x3 else x3)
        ≡ (if g then sg else if e then se else if u then su else if a then sa else o))
last_wins true e u a sg se su sa o p q r =
    let (pe, pu, pa) = p refl in rw pe (rw pu (rw pa (or_else-none sg)))
last_wins false true u a sg se su sa o p q r =
    let (qu, qa) = q refl in rw qu (rw qa (or_else-none se))
last_wins false false true a sg se su sa o p q r = rw (r refl) (or_else-none su)
last_wins false false false true sg se su sa o p q r = or_else-none sa
last_wins false false false false sg se su sa o p q r = refl

module _ (ctx : ProxyContext) (h : Header) where
  pub lookup-rewrite_header :
      (j : String)
      → lookup j (rewrite_header ctx h) ≡ (
          if "X-User-Groups" == j
          then sent plain ctx.user_groups
          else if "X-User-Email" == j
          then sent plain ctx.user_email
          else if "X-User-Id" == j
          then sent plain ctx.user_id
          else if "Authorization" == j
          then sent bearer ctx.sa_token
          else lookup j h)
  unfolding rewrite_header
  lookup-rewrite_header j =
      let h1 = set_from "Authorization" bearer ctx.sa_token (strip_identity h) in
      let h2 = set_from "X-User-Id" plain ctx.user_id h1 in
      let h3 = set_from "X-User-Email" plain ctx.user_email h2 in
      let user = "X-User-Id" == j in
      let auth = "Authorization" == j in
      rw
        (
          lookup-set_from "X-User-Groups" j plain ctx.user_groups h3,
          lookup-set_from "X-User-Email" j plain ctx.user_email h2,
          lookup-set_from "X-User-Id" j plain ctx.user_id h1,
          lookup-set_from "Authorization" j bearer ctx.sa_token (strip_identity h),
          lookup-strip_identity j h,
        )
        (last_wins ("X-User-Groups" == j) ("X-User-Email" == j) user auth
          (sent plain ctx.user_groups) (sent plain ctx.user_email) (sent plain ctx.user_id)
          (sent bearer ctx.sa_token) (lookup j h)
          (λ g. (
            distinct "X-User-Groups" "X-User-Email" j refl g,
            distinct "X-User-Groups" "X-User-Id" j refl g,
            distinct "X-User-Groups" "Authorization" j refl g,
          ))
          (λ e. (
            distinct "X-User-Email" "X-User-Id" j refl e,
            distinct "X-User-Email" "Authorization" j refl e,
          ))
          (λ u. distinct "X-User-Id" "Authorization" j refl u))

  -- Whatever the client's headers, the upstream service sees the identity headers and the
  -- authorization that the request's context tells, and none where the context has no value.
  pub rewrite_header-identity :
      (lookup "X-User-Id" (rewrite_header ctx h) ≡ sent plain ctx.user_id)
      × (lookup "X-User-Email" (rewrite_header ctx h) ≡ sent plain ctx.user_email)
      × (lookup "X-User-Groups" (rewrite_header ctx h) ≡ sent plain ctx.user_groups)
      × (lookup "Authorization" (rewrite_header ctx h) ≡ sent bearer ctx.sa_token)
  rewrite_header-identity = (
    lookup-rewrite_header "X-User-Id",
    lookup-rewrite_header "X-User-Email",
    lookup-rewrite_header "X-User-Groups",
    lookup-rewrite_header "Authorization",
  )

  -- A header that is none of these four reaches the upstream service as the client sent it.
  pub rewrite_header-others :
      (name : String)
      → name ≢ "X-User-Id"
      → name ≢ "X-User-Email"
      → name ≢ "X-User-Groups"
      → name ≢ "Authorization"
      → lookup name (rewrite_header ctx h) ≡ lookup name h
  rewrite_header-others name a b c d = ground (
    arith,
    lookup-rewrite_header name,
    eq_iff "X-User-Id" name,
    eq_iff "X-User-Email" name,
    eq_iff "X-User-Groups" name,
    eq_iff "Authorization" name,
  )
