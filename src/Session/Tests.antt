-- ===== src/Session/Tests.antt =====
-- Instances of the theorems about the session store.
use fusion_bff.Base.{
  ◌+◌, ◌≤◌, String, some, [], ◌≡◌, refl, ◌↔◌, has_char, after_first, before_last, lookup, insert,
  delete, delete_if, ok, err,
}
use fusion_bff.Session.{
  Session, SessionStore, not_found, new_store, create, get, update, delete_session, save_pending,
  take_pending, reap, cookie_domain,
}
use fusion_bff.Session.Calls.{
  creates, after_call, after_calls, sessions_of, pending_of, spec_sessions, spec_pending, IsValid,
  new_store-IsValid,
}
use fusion_bff.Session.Invariant.{after_call-spec_sessions}
use fusion_bff.Session.Pending.{take_pending-save_pending_iff}

program : Unit {0}
unfolding has_char after_first before_last lookup insert delete delete_if new_store create get
    update delete_session save_pending take_pending reap cookie_domain after_call after_calls
program = tt

abbrev blank : Session
blank = record {
  id = "";
  sub = "u1";
  user_id = "u1";
  email = "";
  name = "";
  groups = [];
  roles = [];
  permissions = [];
  resource_permissions = [];
  owner_groups = [];
  preferred_owner_group = "";
  access_token = "";
  refresh_token = "";
  id_token = "";
  expires_at = 100;
  created_at = 0;
}

abbrev empty : SessionStore
empty = new_store 1000

abbrev logged_in : SessionStore
logged_in = (create (ok "s1") 50 blank empty).1

runs :
    (get "s1" logged_in ≡ ok (record blank { id = "s1"; created_at = 50 }))
    × (get "s2" logged_in ≡ err not_found)
    × (get "s1" (reap 1050 logged_in) ≡ ok (record blank { id = "s1"; created_at = 50 }))
    × (get "s1" (reap 1051 logged_in) ≡ err not_found)
    × ((update blank logged_in).0 ≡ err not_found)
    × ((take_pending 9 "st" (save_pending 1 "st" "v" empty)).0 ≡ some "v")
    × (cookie_domain "auto" "bff.fusion.local:8080" ≡ ".fusion.local")
    × (cookie_domain "auto" "localhost:8080" ≡ "")
    × (cookie_domain "auto" "fusion" ≡ "")
unfolding program
runs = (refl, refl, refl, refl, refl, refl, refl, refl, refl)

after_call-spec_sessions_example :
    IsValid (after_call (creates (ok "s1") 50 blank) empty)
    × ((q : String)
        → sessions_of (after_call (creates (ok "s1") 50 blank) empty) q
          ≡ spec_sessions empty.max_age (creates (ok "s1") 50 blank) (sessions_of empty) q)
    × ((q : String)
        → pending_of (after_call (creates (ok "s1") 50 blank) empty) q
          ≡ spec_pending empty.state_ttl (creates (ok "s1") 50 blank) (pending_of empty) q)
after_call-spec_sessions_example =
    after_call-spec_sessions (creates (ok "s1") 50 blank) empty (new_store-IsValid 1000)

take_pending-save_pending_iff_example :
    ((take_pending 9 "st" (save_pending 1 "st" "v" empty)).0 ≡ some "v") ↔ (9 ≤ 1 + empty.state_ttl)
take_pending-save_pending_iff_example = take_pending-save_pending_iff empty "st" "v" 1 9
