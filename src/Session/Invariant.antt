-- ===== src/Session/Invariant.antt =====
-- The store stays valid and does what the specification says, whatever the calls.
use fusion_bff.Base.{
  ℕ, String, some, List, [], ◌∷◌, ◌≡◌, ◌∙◌, sym, arith, eq_iff, ok, err, IsKeyed, insert-IsKeyed,
  delete-IsKeyed, delete_if-IsKeyed,
}
use fusion_bff.Session.{
  Session, SessionStore, create, update, delete_session, save_pending, reap, is_stale, is_expired,
}
use fusion_bff.Session.Calls.{
  Call, creates, updates, deletes, saves, takes, reaps, after_call, after_calls, View, sessions_of,
  pending_of, spec_sessions, spec_pending, IsValid, after_call-sessions, after_call-pending,
  take_pending-state,
}

update-IsKeyed :
    (sess : Session) (s : SessionStore) → IsKeyed s.sessions → IsKeyed (update sess s).1.sessions
unfolding update
update-IsKeyed sess s k = ground (arith, insert-IsKeyed sess.id sess s.sessions)

update-pending-IsKeyed :
    (sess : Session) (s : SessionStore) → IsKeyed s.pending → IsKeyed (update sess s).1.pending
unfolding update
update-pending-IsKeyed sess s k = ground arith

sessions-IsKeyed :
    (c : Call) (s : SessionStore) → IsKeyed s.sessions → IsKeyed (after_call c s).sessions
unfolding after_call create delete_session save_pending reap
sessions-IsKeyed (creates (ok id) now sess) s k = insert-IsKeyed id _ s.sessions k
sessions-IsKeyed (creates (err e) now sess) s k = k
sessions-IsKeyed (updates sess) s k = update-IsKeyed sess s k
sessions-IsKeyed (deletes id) s k = delete-IsKeyed id s.sessions k
sessions-IsKeyed (saves now state verifier) s k = k
sessions-IsKeyed (takes now state) s k = rw (take_pending-state now state s) k
sessions-IsKeyed (reaps now) s k = delete_if-IsKeyed (is_stale s.max_age now) s.sessions k

pending-IsKeyed :
    (c : Call) (s : SessionStore) → IsKeyed s.pending → IsKeyed (after_call c s).pending
unfolding after_call create delete_session save_pending reap
pending-IsKeyed (creates (ok id) now sess) s k = k
pending-IsKeyed (creates (err e) now sess) s k = k
pending-IsKeyed (updates sess) s k = update-pending-IsKeyed sess s k
pending-IsKeyed (deletes id) s k = k
pending-IsKeyed (saves now state verifier) s k = insert-IsKeyed state _ s.pending k
pending-IsKeyed (takes now state) s k =
    rw (take_pending-state now state s) (delete-IsKeyed state s.pending k)
pending-IsKeyed (reaps now) s k = delete_if-IsKeyed (is_expired now) s.pending k

-- In the specification a session stands under its own id if it did before.
spec_sessions-own_id :
    (max_age : ℕ) (c : Call) (f : View Session) (q : String) (sess : Session)
    → ((x : Session) → f q ≡ some x → x.id ≡ q)
    → spec_sessions max_age c f q ≡ some sess
    → sess.id ≡ q
spec_sessions-own_id max_age (creates (ok id) now x) f q sess own h =
    ground (arith, eq_iff id q, own sess)
spec_sessions-own_id max_age (creates (err e) now x) f q sess own h = own sess h
spec_sessions-own_id max_age (updates x) f q sess own h = ground (arith, eq_iff x.id q, own sess)
spec_sessions-own_id max_age (deletes id) f q sess own h = ground (arith, eq_iff id q, own sess)
spec_sessions-own_id max_age (saves _ _ _) f q sess own h = own sess h
spec_sessions-own_id max_age (takes _ _) f q sess own h = own sess h
spec_sessions-own_id max_age (reaps now) f q sess own h = ground (arith, own sess)

pub after_call-IsValid : (c : Call) (s : SessionStore) → IsValid s → IsValid (after_call c s)
after_call-IsValid c s v = record {
  sessions_keyed = sessions-IsKeyed c s v.sessions_keyed;
  pending_keyed = pending-IsKeyed c s v.pending_keyed;
  own_id = λ q sess h.
      spec_sessions-own_id s.max_age c (sessions_of s) q sess (v.own_id q)
        (sym (after_call-sessions c s q v.sessions_keyed) ∙ h);
}

-- On a valid store every method keeps the store valid (no key twice, each session under its own
-- id), and changes sessions and pending states exactly as the specification on maps says.
pub after_call-spec_sessions :
    (c : Call) (s : SessionStore)
    → IsValid s
    → IsValid (after_call c s)
      × ((q : String)
          → sessions_of (after_call c s) q ≡ spec_sessions s.max_age c (sessions_of s) q)
      × ((q : String) → pending_of (after_call c s) q ≡ spec_pending s.state_ttl c (pending_of s) q)
after_call-spec_sessions c s v = (
  after_call-IsValid c s v,
  λ q. after_call-sessions c s q v.sessions_keyed,
  λ q. after_call-pending c s q v.pending_keyed,
)

pub after_calls-IsValid :
    (calls : List Call) (s : SessionStore) → IsValid s → IsValid (after_calls calls s)
unfolding after_calls
after_calls-IsValid [] s v = v
after_calls-IsValid (c ∷ calls) s v =
    after_calls-IsValid calls (after_call c s) (after_call-IsValid c s v)
