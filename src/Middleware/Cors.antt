-- ===== src/Middleware/Cors.antt =====
-- Which origins `CORS` lets in.
use fusion_bff.Base.{
  String, some, List, ◌==◌, contains, contains_iff, string_eq, lookup, ◌∈◌, ◌≡◌, ◌↔◌, inl, inr,
  Bool-cases,
}
use fusion_bff.Middleware.{Request, cors}

-- The allowed origin in the response is the request's origin, exactly, if it is a configured one,
-- and there is none otherwise: never another origin and no wildcard.
pub cors-origin_iff :
    (origins : List String) (req : Request) (origin : String)
    → (lookup "Access-Control-Allow-Origin" (cors origins req).header ≡ some origin)
      ↔ ((req.origin ∈ origins) × (req.origin ≡ origin))
unfolding cors lookup
cors-origin_iff origins req origin = elim (Bool-cases (contains origins req.origin)) [
  | inr foreign ↦
      rw (foreign, cors) (λ h. cc, λ (m, _). (let m' = (contains_iff origins req.origin).1 m in cc))
  | inl known ↦ elim (Bool-cases (req.method == "OPTIONS")) [
    | inl preflight ↦
        rw (known, preflight, cors)
          (λ h. ((contains_iff origins req.origin).0 known, cc), λ (_, e). cc)
    | inr other ↦
        rw (known, other, cors) (λ h. ((contains_iff origins req.origin).0 known, cc), λ (_, e). cc)
  ]
]
