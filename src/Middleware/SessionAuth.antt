-- ===== src/Middleware/SessionAuth.antt =====
-- Whom `SessionAuth` lets in.
use fusion_bff.Base.{
  String, not, ◌&&◌, some, contains, contains_iff, string_eq, is_empty, is_empty_iff, ◌∈◌, ◌≡◌,
  refl, ap, ◌∙◌, ◌↔◌, ◌⊎◌, inl, inr, arith, Bool-cases, Option-cases, Result-cases, ok,
  if◌then◌else◌,
}
use fusion_bff.Session.{Session, SessionStore, get}
use fusion_bff.Middleware.{Request, denied, passes, session_id, session_auth}

lacking :
    (required : String) (sess sess' : Session)
    → ((if not (is_empty required) && not (contains sess.permissions required)
          then denied 403 "forbidden"
          else passes sess)
        ≡ passes sess')
      ↔ ((sess ≡ sess') × ((required ≡ "") ⊎ (required ∈ sess.permissions)))
lacking required sess sess' =
    let e = is_empty_iff required in
    let c = contains_iff sess.permissions required in
    elim (Bool-cases (is_empty required)) [
      | inl free ↦ rw free (λ h. (cc, inl (e.0 free)), λ (same, _). ap passes same)
      | inr bound ↦ elim (Bool-cases (contains sess.permissions required)) [
        | inl has ↦ rw (bound, has) (λ h. (cc, inr (c.0 has)), λ (same, _). ap passes same)
        | inr no_perm ↦ rw (bound, no_perm) (λ h. cc, λ (_, w). ground arith)
      ]
    ]

-- The session middleware lets a request through with a session exactly when its cookie names that
-- session, the store has it, and the required permission is empty or the session's.
pub session_auth_iff :
    (store : SessionStore) (cookie_name required : String) (req : Request) (sess : Session)
    → (session_auth store cookie_name required req ≡ passes sess) ↔ (
        (sid : String) × (session_id cookie_name req ≡ some sid)
        × (get sid store ≡ ok sess)
        × ((required ≡ "") ⊎ (required ∈ sess.permissions)))
unfolding session_auth
session_auth_iff store cookie_name required req sess =
    elim (Option-cases (session_id cookie_name req)) [
      | inl absent ↦ rw (absent, session_auth) (λ h. cc, λ (sid, a, _, _). cc)
      | inr (sid, named) ↦ elim (Result-cases (get sid store)) [
        | inr (e, gone) ↦
            rw (named, gone, session_auth)
              (
                λ h. cc,
                λ (sid', a, b, _).
                    let same : sid ≡ sid' = cc in
                    let b' : get sid store ≡ ok sess = rw same b in cc,
              )
        | inl (found, lives) ↦
            let step = lacking required found sess in
            rw (named, lives, session_auth)
              (
                λ h. (let (same, w) = step.0 h in (sid, refl, lives ∙ ap ok same, rw⁻¹ same w)),
                λ (sid', a, b, w).
                    let same : sid ≡ sid' = cc in
                    let b' : get sid store ≡ ok sess = rw same b in
                    let same' : found ≡ sess = cc in step.1 (same', rw same' w),
              )
      ]
    ]
