-- ===== src/Session/Pending.antt =====
-- Pending login states: how long they can be taken, and that they are taken once.
use fusion_bff.Base.{
  ℕ, ◌+◌, ◌≤◌, String, Option, none, some, List, [], ◌∷◌, ◌≡◌, refl, ◌≢◌, ◌↔◌, ◌∙◌, arith, eq_iff,
  eq_refl, All, lookup-insert,
}
use fusion_bff.Session.{PendingEntry, SessionStore, save_pending, take_pending}
use fusion_bff.Session.Calls.{
  Call, creates, updates, deletes, saves, takes, reaps, after_call, after_calls, pending_of,
  spec_pending, IsValid, after_call-pending,
}
use fusion_bff.Session.Invariant.{after_call-IsValid}

-- The call does not save the state.
abbrev pub SavesNot : String → Call → Type 0
SavesNot state (saves _ other _) = other ≢ state
SavesNot state _ = Unit

spec_pending-none :
    (ttl : ℕ) (c : Call) (f : String → Option PendingEntry) (state : String)
    → SavesNot state c
    → f state ≡ none
    → spec_pending ttl c f state ≡ none
spec_pending-none ttl (saves now other v) f state n h = ground (arith, eq_iff other state)
spec_pending-none ttl (takes now other) f state n h = ground arith
spec_pending-none ttl (reaps now) f state n h = rw h refl
spec_pending-none ttl (creates _ _ _) f state n h = h
spec_pending-none ttl (updates _) f state n h = h
spec_pending-none ttl (deletes _) f state n h = h

after_calls-none :
    (calls : List Call) (s : SessionStore) (state : String)
    → IsValid s
    → All (SavesNot state) calls
    → pending_of s state ≡ none
    → pending_of (after_calls calls s) state ≡ none
unfolding after_calls
after_calls-none [] s state v a h = h
after_calls-none (c ∷ calls) s state v a h =
    after_calls-none calls (after_call c s) state (after_call-IsValid c s v) a.1 (
      after_call-pending c s state v.pending_keyed
      ∙ spec_pending-none s.state_ttl c (pending_of s) state a.0 h)

pub take_pending-none :
    (now : ℕ) (state : String) (s : SessionStore)
    → pending_of s state ≡ none
    → (take_pending now state s).0 ≡ none
unfolding take_pending
take_pending-none now state s h = rw (h, take_pending) refl

-- A state is taken at most once: after it has been taken, whatever calls follow that do not save
-- it again, taking it gives nothing.
pub take_pending_once :
    (s : SessionStore) (state : String) (now now' : ℕ) (calls : List Call)
    → IsValid s
    → All (SavesNot state) calls
    → (take_pending now' state (after_calls calls (after_call (takes now state) s))).0 ≡ none
take_pending_once s state now now' calls v a = take_pending-none now' state _ (
    after_calls-none calls (after_call (takes now state) s) state
      (after_call-IsValid (takes now state) s v) a
      (after_call-pending (takes now state) s state v.pending_keyed ∙ rw (eq_refl state) refl))

-- A state that was saved can be taken, with its verifier, up to the end of its time to live and
-- not after it.
pub take_pending-save_pending_iff :
    (s : SessionStore) (state verifier : String) (saved now : ℕ)
    → ((take_pending now state (save_pending saved state verifier s)).0 ≡ some verifier)
      ↔ (now ≤ saved + s.state_ttl)
unfolding take_pending save_pending
take_pending-save_pending_iff s state verifier saved now = ground (
  arith,
  eq_refl state,
  lookup-insert state state (record { verifier = verifier; expires_at = saved + s.state_ttl })
      s.pending,
)
