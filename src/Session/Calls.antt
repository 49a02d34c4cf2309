-- ===== src/Session/Calls.antt =====
-- The session store as a map: what each method does to the sessions and to the pending states, on
-- functions from ids and states, and the theorem that the store's methods do just that.
use fusion_bff.Base.{
  ℕ, String, Option, none, some, List, [], ◌∷◌, ◌==◌, ◌&&◌, ◌≡◌, refl, arith, eq_iff, if◌then◌else◌,
  Result, ok, err, is_some, ltb, ◌+◌, lookup, delete, IsKeyed, unless, lookup-insert, lookup-delete,
  lookup-delete_if,
}
use fusion_bff.Session.{
  Session, PendingEntry, SessionStore, new_store, create, update, delete_session, save_pending,
  take_pending, reap, is_stale, is_expired,
}

-- A call of a method that changes the store, with the time of the call and the id generated.
pub data Call : Type 0 where
  creates : Result String → ℕ → Session → Call
  updates : Session → Call
  deletes : String → Call
  saves : ℕ → String → String → Call
  takes : ℕ → String → Call
  reaps : ℕ → Call

unfoldable pub after_call : Call → SessionStore → SessionStore
after_call (creates id now sess) s = (create id now sess s).1
after_call (updates sess) s = (update sess s).1
after_call (deletes id) s = delete_session id s
after_call (saves now state verifier) s = save_pending now state verifier s
after_call (takes now state) s = (take_pending now state s).1
after_call (reaps now) s = reap now s

unfoldable pub after_calls : List Call → SessionStore → SessionStore
after_calls [] s = s
after_calls (c ∷ calls) s = after_calls calls (after_call c s)

abbrev pub View : Type 0 → Type 0
View V = String → Option V

abbrev pub sessions_of : SessionStore → View Session
sessions_of s id = lookup id s.sessions

abbrev pub pending_of : SessionStore → View PendingEntry
pending_of s state = lookup state s.pending

-- The effect of a call on the sessions, given the maximal age.
abbrev pub spec_sessions : ℕ → Call → View Session → View Session
spec_sessions max_age (creates (ok id) now sess) f q =
    if id == q then some (record sess { id = id; created_at = now }) else f q
spec_sessions max_age (creates (err e) now sess) f q = f q
spec_sessions max_age (updates sess) f q = if sess.id == q && is_some (f q) then some sess else f q
spec_sessions max_age (deletes id) f q = if id == q then none else f q
spec_sessions max_age (saves _ _ _) f q = f q
spec_sessions max_age (takes _ _) f q = f q
spec_sessions max_age (reaps now) f q = unless (λ sess. ltb (sess.created_at + max_age) now) (f q)

-- The effect of a call on the pending states, given their time to live.
abbrev pub spec_pending : ℕ → Call → View PendingEntry → View PendingEntry
spec_pending ttl (saves now state verifier) f q =
    if state == q then some (record { verifier = verifier; expires_at = now + ttl }) else f q
spec_pending ttl (takes now state) f q = if state == q then none else f q
spec_pending ttl (reaps now) f q = unless (λ entry. ltb entry.expires_at now) (f q)
spec_pending ttl (creates _ _ _) f q = f q
spec_pending ttl (updates _) f q = f q
spec_pending ttl (deletes _) f q = f q

-- No key stands twice, and each session stands under its own id.
pub record IsValid (s : SessionStore) : Type 0 where
  pub sessions_keyed : IsKeyed s.sessions
  pub pending_keyed : IsKeyed s.pending
  pub own_id : (id : String) (sess : Session) → sessions_of s id ≡ some sess → sess.id ≡ id

pub new_store-IsValid : (max_age : ℕ) → IsValid (new_store max_age)
unfolding new_store lookup
new_store-IsValid max_age = record {
  sessions_keyed = tt;
  pending_keyed = tt;
  own_id = λ id sess h. cc;
}

update-sessions :
    (sess : Session) (s : SessionStore) (q : String)
    → sessions_of (update sess s).1 q ≡ spec_sessions s.max_age (updates sess) (sessions_of s) q
unfolding update
update-sessions sess s q = ground (arith, eq_iff sess.id q, lookup-insert sess.id q sess s.sessions)

pub take_pending-state :
    (now : ℕ) (state : String) (s : SessionStore)
    → (take_pending now state s).1 ≡ record s { pending = delete state s.pending }
unfolding take_pending
take_pending-state now state s = ground arith

-- Each call does to the sessions what the specification says.
pub after_call-sessions :
    (c : Call) (s : SessionStore) (q : String)
    → IsKeyed s.sessions
    → sessions_of (after_call c s) q ≡ spec_sessions s.max_age c (sessions_of s) q
unfolding after_call create delete_session save_pending reap
after_call-sessions (creates (ok id) now sess) s q k = lookup-insert id q _ s.sessions
after_call-sessions (creates (err e) now sess) s q k = refl
after_call-sessions (updates sess) s q k = update-sessions sess s q
after_call-sessions (deletes id) s q k = lookup-delete id q s.sessions
after_call-sessions (saves now state verifier) s q k = refl
after_call-sessions (takes now state) s q k = rw (take_pending-state now state s) refl
after_call-sessions (reaps now) s q k = lookup-delete_if (is_stale s.max_age now) q s.sessions k

update-pending : (sess : Session) (s : SessionStore) → (update sess s).1.pending ≡ s.pending
unfolding update
update-pending sess s = ground arith

-- And to the pending states.
pub after_call-pending :
    (c : Call) (s : SessionStore) (q : String)
    → IsKeyed s.pending
    → pending_of (after_call c s) q ≡ spec_pending s.state_ttl c (pending_of s) q
unfolding after_call create delete_session save_pending reap
after_call-pending (creates (ok id) now sess) s q k = refl
after_call-pending (creates (err e) now sess) s q k = refl
after_call-pending (updates sess) s q k = rw (update-pending sess s) refl
after_call-pending (deletes id) s q k = refl
after_call-pending (saves now state verifier) s q k = lookup-insert state q _ s.pending
after_call-pending (takes now state) s q k =
    rw (take_pending-state now state s) (lookup-delete state q s.pending)
after_call-pending (reaps now) s q k = lookup-delete_if (is_expired now) q s.pending k
