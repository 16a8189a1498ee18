-- ===== src/Users/Valid.antt =====
-- A configuration of users that was loaded: proxy/src/user_manager.rs.
use ppaass_ai.Base.{
  ℕ, ◌≡◌, refl, ◌∙◌, sym, ap, Bool, true, false, not, ◌||◌, Option, some, List, [], ◌∷◌, arith,
  bytes_eq, bytes_eq_iff, inl, inr, Bool-cases,
}
use ppaass_ai.Base.Assoc.{lookup, text_eq}
use ppaass_ai.Base.Result.{ok, fail_if, >>=-eq-ok, fail_if-eq-ok}
use ppaass_ai.Users.{
  Texts, UserConfig, UsersConfig, is_empty, has_path_character, has_two_dots, normalize_username,
  expires_at_unix_timestamp, is_expired_at, validate_user, validate_users, get_user, reached,
}

-- The key is the trimmed name, which is not empty, holds nothing that a path treats specially and no
-- control character, and the time of expiry can be read.
pub record IsUsable (texts : Texts) (key : List ℕ) (user : UserConfig) : Type 0 where
  pub name : texts.trim user.username ≡ key
  pub nonempty : is_empty key ≡ false
  pub no_path : has_path_character key ≡ false
  pub no_dots : has_two_dots key ≡ false
  pub no_control : texts.has_control key ≡ false
  pub expiry : (at : Option ℕ) × (expires_at_unix_timestamp texts user ≡ ok at)

or_false : (a b : Bool) → (a || b) ≡ false → (a ≡ false) × (b ≡ false)
or_false a b h = ground arith

some-inj : (a b : UserConfig) → some a ≡ some b → a ≡ b
some-inj a b e = cc

module _ (texts : Texts) where
  validate_user-IsUsable :
      (key : List ℕ) (user : UserConfig) (u : Unit {0})
      → validate_user texts key user ≡ ok u
      → IsUsable texts key user
  unfolding validate_user normalize_username
  validate_user-IsUsable key user u e =
      let (name, normal, e1) = >>=-eq-ok (normalize_username texts user.username) _ e in
      let (u1, same, e2) = >>=-eq-ok (fail_if (not (bytes_eq key name)) _) _ e1 in
      let (at, time, e3) = >>=-eq-ok (expires_at_unix_timestamp texts user) _ e2 in
      let trimmed = texts.trim user.username in
      let (u2, filled, n1) = >>=-eq-ok (fail_if (is_empty trimmed) _) _ normal in
      let (u3, legal, n2) =
        >>=-eq-ok
          (fail_if (has_path_character trimmed || has_two_dots trimmed || texts.has_control trimmed)
            _)
          _ n1 in
      let named : trimmed ≡ name = cc n2 in
      let keyed : key ≡ name =
        (bytes_eq_iff key name).0 (equal (bytes_eq key name) (fail_if-eq-ok _ _ same)) in
      let back : trimmed ≡ key = named ∙ sym keyed in
      let (bad_two, no_control) =
        or_false (has_path_character trimmed || has_two_dots trimmed) (texts.has_control trimmed)
          (fail_if-eq-ok _ _ legal) in
      let (no_path, no_dots) =
        or_false (has_path_character trimmed) (has_two_dots trimmed) bad_two in
      record {
        name = back;
        nonempty = sym (ap is_empty back) ∙ fail_if-eq-ok _ _ filled;
        no_path = sym (ap has_path_character back) ∙ no_path;
        no_dots = sym (ap has_two_dots back) ∙ no_dots;
        no_control = sym (ap texts.has_control back) ∙ no_control;
        expiry = (at, time);
      }
    where
      equal : (b : Bool) → not b ≡ false → b ≡ true
      equal true h = refl
      equal false h = absurd (cc)

  is_expired_at-total :
      (username : List ℕ) (user : UserConfig)
      → IsUsable texts username user
      → (now : ℕ) → (expired : Bool) × (is_expired_at texts user now ≡ ok expired)
  unfolding is_expired_at
  is_expired_at-total username user usable now =
      let (at, read) = usable.expiry in (reached texts now at, rw read refl)

  -- After the validation every user that can be looked up is usable, under the name it is looked up by,
  -- and whether it is expired is answered without an error at every time.
  pub get_user-IsUsable :
      (users : UsersConfig) (u : Unit {0}) (username : List ℕ) (user : UserConfig)
      → validate_users texts users ≡ ok u
      → get_user username users ≡ some user
      → IsUsable texts username user
        × ((now : ℕ) → (expired : Bool) × (is_expired_at texts user now ≡ ok expired))
  unfolding validate_users get_user lookup
  get_user-IsUsable [] u username user valid found = absurd (cc)
  get_user-IsUsable ((key, first) ∷ users) u username user valid found =
      let (u1, here, rest) = >>=-eq-ok (validate_user texts key first) _ valid in
      elim (Bool-cases (bytes_eq key username)) [
        | inl same ↦
            let named : key ≡ username = (bytes_eq_iff key username).0 same in
            let which : first ≡ user = some-inj first user (rw same at found) in
            let usable : IsUsable texts username user =
              rw (← named, ← which) (validate_user-IsUsable key first u1 here) in
            (usable, is_expired_at-total username user usable)
        | inr other ↦ get_user-IsUsable users tt username user rest (rw other at found)
      ]
