-- ===== src/Session/Updates.antt =====
-- What `Get` finds, and what `Update` does to the sessions.
use fusion_bff.Base.{
  String, none, some, ◌==◌, if◌then◌else◌, ok, err, lookup, lookup-insert, ◌≡◌, refl, inl, inr, ap,
  ◌∙◌, Option-cases,
}
use fusion_bff.Session.{Session, SessionStore, get, update, not_found}
use fusion_bff.Session.Calls.{sessions_of}

pub get-none :
    (sid : String) (store : SessionStore)
    → lookup sid store.sessions ≡ none
    → get sid store ≡ err not_found
unfolding get
get-none sid store h = rw (h, get) refl

pub lookup-get :
    (sid : String) (store : SessionStore) (sess : Session)
    → get sid store ≡ ok sess
    → lookup sid store.sessions ≡ some sess
unfolding get
lookup-get sid store sess h = elim (Option-cases (lookup sid store.sessions)) [
  | inl absent ↦ (let gone = get-none sid store absent in cc)
  | inr (sess', found) ↦
      let here : get sid store ≡ ok sess' = rw (found, get) refl in
      let same : sess' ≡ sess = cc in found ∙ ap some same
]

-- Updating a stored session replaces it, and leaves the others.
pub sessions_of-update :
    (q : String) (store : SessionStore) (sess new : Session)
    → lookup new.id store.sessions ≡ some sess
    → sessions_of (update new store).1 q ≡ (if new.id == q then some new else sessions_of store q)
unfolding update
sessions_of-update q store sess new h = rw (h, update) (lookup-insert new.id q new store.sessions)

-- Updating a stored session changes nothing but the sessions.
pub update-rest :
    (store : SessionStore) (sess new : Session)
    → lookup new.id store.sessions ≡ some sess
    → (update new store).1 ≡ record store { sessions = (update new store).1.sessions }
unfolding update
update-rest store sess new h = rw (h, update) refl
