-- ===== src/Token/Tests.antt =====
-- The cache of the token on concrete reads.
use fusion_bff.Base.{
  [], ◌∷◌, ok, ◌≡◌, refl, ◌⊎◌, List, ◌++◌, trim_left, trim_right, is_space, trim_space,
}
use fusion_bff.Token.{new_file_provider, cached_token, refresh_token, token}
use fusion_bff.Token.Freshness.{Passage, after, new, IsGenuine, token-IsGenuine}

program : Unit {0}
unfolding trim_left trim_right is_space trim_space new_file_provider cached_token refresh_token
    token after
program = tt

-- One caller has read the token; another one looks while it lives, a third one after that.
abbrev read_once : List Passage
read_once = record { now = 5; read_at = 6; file = ok " abc " } ∷ []

abbrev third : Passage
third = record { now = 17; read_at = 18; file = ok "def" }

rotates :
    (token 17 (after read_once (new "/sa" 10)) 17 18 (ok "def") (after read_once (new "/sa" 10))).0
    ≡ ok "def"
unfolding program
rotates = refl

token-IsGenuine_example :
    IsGenuine (read_once ++ third ∷ []) (new "/sa" 10) 12 19 20 (ok "ghi") "abc"
    × (((token 12
            (after read_once (new "/sa" 10))
            19
            20
            (ok "ghi")
            (after (read_once ++ third ∷ []) (new "/sa" 10))).1
          ≡ after (read_once ++ third ∷ []) (new "/sa" 10))
        ⊎ ((token 12
              (after read_once (new "/sa" 10))
              19
              20
              (ok "ghi")
              (after (read_once ++ third ∷ []) (new "/sa" 10))).1
            ≡ after
                (read_once ++ third ∷ [] ++ record { now = 19; read_at = 20; file = ok "ghi" } ∷ [])
                (new "/sa" 10)))
unfolding program
token-IsGenuine_example =
    token-IsGenuine "/sa" 10 read_once (third ∷ []) 12 19 20 (ok "ghi") "abc" refl
