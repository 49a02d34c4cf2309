-- ===== src/Allowlist/Entries.antt =====
-- Whom the static checker permits.
use fusion_bff.Base.{
  String, true, false, List, [], ◌∷◌, ◌≡◌, refl, ◌↔◌, ◌⊎◌, inl, inr, subst, arith, Bool-cases,
  has_char, ◌∈◌, contains_iff, mem-add_new, string_eq,
}
use fusion_bff.Allowlist.{StaticChecker, add_entry, add_entries, new_checker, permitted}

-- The entry names the user: without "@" by the `sub`, with "@" by the email.
abbrev pub Names : String → String → String → Type 0
Names sub email entry =
    ((has_char b'@' entry ≡ false) × (entry ≡ sub))
    ⊎ ((has_char b'@' entry ≡ true) × (entry ≡ email))

-- What the checker's maps say.
abbrev Listed : StaticChecker → String → String → Type 0
Listed c sub email = (sub ∈ c.subs) ⊎ (email ∈ c.emails)

module _ (sub email : String) where
  add_entry-Listed :
      (c : StaticChecker) (e : String)
      → Listed (add_entry c e) sub email ↔ (Listed c sub email ⊎ Names sub email e)
  unfolding add_entry
  add_entry-Listed c e = elim (Bool-cases (has_char b'@' e)) [
    | inl at ↦ rw at (ground (arith, mem-add_new c.emails e email))
    | inr no_at ↦ rw no_at (ground (arith, mem-add_new c.subs e sub))
  ]

  -- One of the entries names the user.
  abbrev pub NamedBy : List String → Type 0
  NamedBy entries = (e : String) × (e ∈ entries) × Names sub email e

  add_entries-Listed :
      (c : StaticChecker) (entries : List String)
      → Listed (add_entries c entries) sub email ↔ (Listed c sub email ⊎ NamedBy entries)
  unfolding add_entries
  add_entries-Listed c [] = (inl, λ m. elim m [ inl old ↦ old | inr w ↦ absurd w.1 ])
  add_entries-Listed c (e ∷ entries) =
      let ih = add_entries-Listed (add_entry c e) entries in
      let here = add_entry-Listed c e in
      (
        λ m. elim (ih.0 m) [
          | inl now ↦ elim (here.0 now) [ inl old ↦ inl old | inr new ↦ inr (e, inl refl, new) ]
          | inr (x, listed, w) ↦ inr (x, inr listed, w)
        ],
        λ m. elim m [
          | inl old ↦ ih.1 (inl (here.1 (inl old)))
          | inr (x, inl same, w) ↦ ih.1 (inl (here.1 (inr (subst (Names sub email) same w))))
          | inr (x, inr listed, w) ↦ ih.1 (inr (x, listed, w))
        ],
      )

  add_entries-allow_all :
      (c : StaticChecker) (entries : List String) → (add_entries c entries).allow_all ≡ c.allow_all
  unfolding add_entries add_entry
  add_entries-allow_all c [] = refl
  add_entries-allow_all c (e ∷ entries) =
      ground (arith, add_entries-allow_all (add_entry c e) entries)

  permitted-Listed :
      (c : StaticChecker)
      → c.allow_all ≡ false
      → (permitted c sub email ≡ true) ↔ Listed c sub email
  unfolding permitted
  permitted-Listed c h = ground (arith, contains_iff c.subs sub, contains_iff c.emails email)

  -- The checker permits a user exactly when the list of entries is empty or one of them names the
  -- user: an entry with "@" by the email, any other by the `sub`.
  pub permitted_iff :
      (entries : List String)
      → (permitted (new_checker entries) sub email ≡ true) ↔ ((entries ≡ []) ⊎ NamedBy entries)
  unfolding new_checker permitted
  permitted_iff [] = (λ _. inl refl, λ _. refl)
  permitted_iff (e ∷ entries) =
      let start : StaticChecker = record { emails = []; subs = []; allow_all = false } in
      let listed = add_entries-Listed start (e ∷ entries) in
      let asked =
        permitted-Listed (add_entries start (e ∷ entries))
          (add_entries-allow_all start (e ∷ entries)) in
      (
        λ h. elim (listed.0 (asked.0 h)) [
          | inl (inl none) ↦ absurd none
          | inl (inr none) ↦ absurd none
          | inr w ↦ inr w
        ],
        λ m. elim m [ inl empty ↦ cc | inr w ↦ asked.1 (listed.1 (inr w)) ],
      )
