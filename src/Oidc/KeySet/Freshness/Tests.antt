-- ===== src/Oidc/KeySet/Freshness/Tests.antt =====
-- A call that finds the key set expired, while another caller renews it.
use fusion_bff.Base.{ℕ, ◌+◌, ◌≤◌, String, ◌≡◌, refl, arith}
use fusion_bff.Oidc.KeySet.{CachingKeySet, new_caching_key_set, renew, key_set}
use fusion_bff.Oidc.KeySet.Freshness.{key_set-IsFresh}
use fusion_bff.Oidc.KeySet.Freshness.Reaches.{here, passes, locks}

program : Unit {0}
unfolding new_caching_key_set renew key_set
program = tt

-- A remote key set is told by the time when it was made.
abbrev remote : String → ℕ → ℕ
remote url at = at

abbrev fresh : CachingKeySet ℕ
fresh = new_caching_key_set remote "u" 10 0

-- The other caller makes its set at 13, between the two locks of this call.
abbrev renewed : CachingKeySet ℕ
renewed = renew remote 12 13 fresh

used : (key_set remote 11 fresh 14 15 renewed).0 ≡ 13
unfolding program
used = refl

key_set-IsFresh_example :
    (at : ℕ) × ((key_set remote 11 fresh 14 15 renewed).0 ≡ at) × (at ≤ 15) × (11 ≤ at + 10)
key_set-IsFresh_example =
    key_set-IsFresh remote "u" 10 0 11 14 15 fresh renewed (passes here (omega arith))
      (passes (locks 13 (passes here (omega arith)) (omega arith)) (omega arith)) (omega arith)
