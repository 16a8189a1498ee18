-- ===== src/Users.antt =====
-- The users of the proxy: proxy/src/config/user_config.rs and proxy/src/user_manager.rs. A text
-- stands for its UTF-8 bytes, an `i64` for its word of 64 bits.
pub mod Tests
pub mod Valid
pub mod Expiry
use ppaass_ai.Base.{
  ℕ, ◌+◌, ◌-◌, ◌%◌, ◌^◌, Bool, true, false, ◌&&◌, ◌||◌, not, Option, none, some, List, [], ◌∷◌,
  String, ltb, leb, ◌==◌, if◌then◌else◌, contains, bytes_eq,
}
use ppaass_ai.Base.Assoc.{lookup, text_eq}
use ppaass_ai.Base.Result.{Result, ok, err, ◌>>=◌, ◌>>◌, fail_if, ok_or, map_err}

-- The errors of `ProxyError` that these files and the handshake make; their texts are told by cause.
pub data ConfigFailure : Type 0 where
  empty_expiry : List ℕ → ConfigFailure
  bad_expiry : List ℕ → List ℕ → String → ConfigFailure
  empty_username : ConfigFailure
  illegal_username : List ℕ → ConfigFailure
  mismatched_key : List ℕ → List ℕ → ConfigFailure

-- The library functions on texts: trimming, the two parsers of times, and whether a character is a
-- control character.
pub record Texts : Type 0 where
  pub trim : List ℕ → List ℕ
  pub parse_i64 : List ℕ → Option ℕ
  pub parse_rfc3339 : List ℕ → Result String ℕ
  pub has_control : List ℕ → Bool

pub record UserConfig : Type 0 where
  pub username : List ℕ
  pub public_key_pem : List ℕ
  pub expires_at : Option (List ℕ)

abbrev pub UsersConfig : Type 0
UsersConfig = List (List ℕ × UserConfig)

-- The order of `i64` on words.
abbrev pub biased : ℕ → ℕ
biased word = (word + 2 ^ 63) % 2 ^ 64

-- `i64::abs_diff`
abbrev pub abs_diff : ℕ → ℕ → ℕ
abs_diff a b = if leb (biased b) (biased a) then biased a - biased b else biased b - biased a

abbrev pub is_empty : List ℕ → Bool
is_empty [] = true
is_empty (x ∷ xs) = false

-- `username.contains("..")`
unfoldable pub has_two_dots : List ℕ → Bool
has_two_dots [] = false
has_two_dots (x ∷ []) = false
has_two_dots (x ∷ (y ∷ xs)) = (x == b'.' && y == b'.') || has_two_dots (y ∷ xs)

unfoldable pub has_path_character : List ℕ → Bool
has_path_character username =
    contains b'/' username
    || contains b'\\' username
    || contains b':' username
    || contains b'*' username
    || contains b'?' username
    || contains 34 username
    || contains b'<' username
    || contains b'>' username
    || contains b'|' username

module _ (texts : Texts) where
  unfoldable pub parse_time : List ℕ → List ℕ → Option ℕ → Result ConfigFailure ℕ
  parse_time username expires_at (some timestamp) = ok timestamp
  parse_time username expires_at none =
      map_err (bad_expiry username expires_at) (texts.parse_rfc3339 expires_at)

  unfoldable pub parse_expires_at : List ℕ → List ℕ → Result ConfigFailure ℕ
  unfolding parse_time
  parse_expires_at username expires_at =
      let trimmed = texts.trim expires_at in
      if is_empty trimmed
      then err (empty_expiry username)
      else parse_time username trimmed (texts.parse_i64 trimmed)

  unfoldable pub expiry_of : List ℕ → Option (List ℕ) → Result ConfigFailure (Option ℕ)
  unfolding parse_expires_at
  expiry_of username none = ok none
  expiry_of username (some expires_at) = do
    timestamp ← parse_expires_at username expires_at
    ok (some timestamp)

  unfoldable pub expires_at_unix_timestamp : UserConfig → Result ConfigFailure (Option ℕ)
  unfolding expiry_of
  expires_at_unix_timestamp user = expiry_of user.username user.expires_at

  abbrev pub reached : ℕ → Option ℕ → Bool
  reached current_timestamp none = false
  reached current_timestamp (some expires_at) = leb (biased expires_at) (biased current_timestamp)

  unfoldable pub is_expired_at : UserConfig → ℕ → Result ConfigFailure Bool
  unfolding expires_at_unix_timestamp
  is_expired_at user current_timestamp = do
    expires_at ← expires_at_unix_timestamp user
    ok (reached current_timestamp expires_at)

  unfoldable pub normalize_username : List ℕ → Result ConfigFailure (List ℕ)
  unfolding has_path_character has_two_dots
  normalize_username username = do
    let trimmed = texts.trim username
    fail_if (is_empty trimmed) empty_username
    fail_if (has_path_character trimmed || has_two_dots trimmed || texts.has_control trimmed)
        (illegal_username trimmed)
    ok trimmed

  unfoldable pub validate_user : List ℕ → UserConfig → Result ConfigFailure (Unit {0})
  unfolding normalize_username expires_at_unix_timestamp
  validate_user key user = do
    normalized_username ← normalize_username user.username
    fail_if (not (bytes_eq key normalized_username)) (mismatched_key key user.username)
    expires_at ← expires_at_unix_timestamp user
    ok tt

  unfoldable pub validate_users : UsersConfig → Result ConfigFailure (Unit {0})
  unfolding validate_user
  validate_users [] = ok tt
  validate_users ((key, user) ∷ users) = validate_user key user >> validate_users users

-- `UserManager::get_user`
unfoldable pub get_user : List ℕ → UsersConfig → Option UserConfig
get_user username users = lookup username users
