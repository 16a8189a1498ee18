-- ===== src/Users/Tests.antt =====
-- The theorems about users at concrete inputs.
use ppaass_ai.Base.{ℕ, ◌≡◌, refl, Bool, false, Option, none, some, List, [], ◌∷◌}
use ppaass_ai.Base.Assoc.{lookup}
use ppaass_ai.Base.Result.{ok, err}
use ppaass_ai.Users.{
  Texts, UserConfig, UsersConfig, validate_users, validate_user, normalize_username,
  expires_at_unix_timestamp, get_user, is_expired_at,
}
use ppaass_ai.Users.Valid.{IsUsable, get_user-IsUsable}

-- Texts that need no trimming, and times that are single digits.
abbrev pub one_digit : List ℕ → Option ℕ
one_digit (d ∷ []) = some d
one_digit _ = none

abbrev pub texts : Texts
texts = record {
  trim = λ t. t;
  parse_i64 = one_digit;
  parse_rfc3339 = λ t. err "no time";
  has_control = λ t. false;
}

abbrev pub amy : UserConfig
amy = record { username = 97 ∷ 109 ∷ []; public_key_pem = 1 ∷ []; expires_at = some (9 ∷ []) }

abbrev pub users : UsersConfig
users = (97 ∷ 109 ∷ [], amy) ∷ []

users_valid : validate_users texts users ≡ ok tt
unfolding validate_users validate_user normalize_username expires_at_unix_timestamp
users_valid = refl

pub amy_known : get_user (97 ∷ 109 ∷ []) users ≡ some amy
unfolding get_user lookup
amy_known = refl

get_user-IsUsable_example :
    IsUsable texts (97 ∷ 109 ∷ []) amy
    × ((now : ℕ) → (expired : Bool) × (is_expired_at texts amy now ≡ ok expired))
get_user-IsUsable_example =
    get_user-IsUsable texts users tt (97 ∷ 109 ∷ []) amy users_valid amy_known
