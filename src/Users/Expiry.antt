-- ===== src/Users/Expiry.antt =====
-- When a user of proxy/src/config/user_config.rs is expired, on the line of times.
use ppaass_ai.Base.{
  ℕ, ◌+◌, ◌-◌, ◌%◌, ◌^◌, ◌<◌, ◌≡◌, ◌≢◌, ◌↔◌, ◌⊎◌, inl, inr, refl, ap, ◌∙◌, Bool, false, Option,
  none, some, List, [], ◌∷◌, arith, ltb, leb, if◌then◌else◌,
}
use ppaass_ai.Base.Result.{Result, ok, err, map_err-eq-ok, ◌>>=◌}
use ppaass_ai.Users.{
  ConfigFailure, empty_expiry, Texts, UserConfig, biased, is_empty, parse_time, parse_expires_at,
  expiry_of, expires_at_unix_timestamp, reached, is_expired_at,
}

-- How far the `i64` of a word is above the least one.
abbrev pub above_minimum : ℕ → ℕ
above_minimum word = let w = word % 2 ^ 64 in if ltb w (2 ^ 63) then w + 2 ^ 63 else w - 2 ^ 63

pub biased-above_minimum : (word : ℕ) → biased word ≡ above_minimum word
biased-above_minimum word = ground arith

-- The text is a number, or else a time as RFC 3339 writes it.
abbrev pub IsTime : Texts → List ℕ → ℕ → Type 0
IsTime texts text at =
    (texts.parse_i64 text ≡ some at)
    ⊎ ((texts.parse_i64 text ≡ none) × (texts.parse_rfc3339 text ≡ ok at))

-- The user has no time of expiry, or one that can be read and is still to come.
abbrev pub IsUnexpired : Texts → Option (List ℕ) → ℕ → Type 0
IsUnexpired texts none now = Unit
IsUnexpired texts (some text) now =
    (at : ℕ) × (texts.trim text ≢ [])
    × IsTime texts (texts.trim text) at
    × (above_minimum now < above_minimum at)

parse_time_iff :
    (texts : Texts) (username text : List ℕ) (at : ℕ)
    → (parse_time texts username text (texts.parse_i64 text) ≡ ok at) ↔ IsTime texts text at
unfolding parse_time
parse_time_iff texts username text at = (forth (texts.parse_i64 text) refl, back)
  where
    inj : (m n : ℕ) → ◌≡◌ {A = Result ConfigFailure ℕ} (ok m) (ok n) → m ≡ n
    inj m n h = cc

    forth :
        (o : Option ℕ)
        → texts.parse_i64 text ≡ o
        → parse_time texts username text o ≡ ok at
        → IsTime texts text at
    forth none e h = inr (e, map_err-eq-ok _ _ h)
    forth (some n) e h = inl (e ∙ ap some (inj n at h))

    back : IsTime texts text at → parse_time texts username text (texts.parse_i64 text) ≡ ok at
    back (inl e) = rw e refl
    back (inr (e, f)) = rw (e, f) refl

before_iff :
    (now at : ℕ) → (leb (biased at) (biased now) ≡ false) ↔ (above_minimum now < above_minimum at)
before_iff now at = rw (biased-above_minimum at, biased-above_minimum now) (ground arith)

read_iff :
    (texts : Texts) (username text : List ℕ) (at : ℕ)
    → (parse_expires_at texts username text ≡ ok at)
      ↔ ((texts.trim text ≢ []) × IsTime texts (texts.trim text) at)
unfolding parse_expires_at
read_iff texts username text at = by_trimmed (texts.trim text)
  where
    by_trimmed :
        (trimmed : List ℕ)
        → ((if is_empty trimmed
              then err (empty_expiry username)
              else parse_time texts username trimmed (texts.parse_i64 trimmed))
            ≡ ok at)
          ↔ ((trimmed ≢ []) × IsTime texts trimmed at)
    by_trimmed [] = (λ e. absurd cc, λ h. absurd (h.0 refl))
    by_trimmed (x ∷ xs) =
        let (forth, back) = parse_time_iff texts username (x ∷ xs) at in
        (λ e. (λ h. cc, forth e), λ h. back h.1)

-- A user is reported as not expired exactly in these cases.
pub is_expired_at_iff :
    (texts : Texts) (user : UserConfig) (now : ℕ)
    → (is_expired_at texts user now ≡ ok false) ↔ IsUnexpired texts user.expires_at now
unfolding is_expired_at expires_at_unix_timestamp expiry_of
is_expired_at_iff texts user now = by_expiry user.expires_at
  where
    after : Result ConfigFailure ℕ → Result ConfigFailure Bool
    after read = (read >>= λ at. ok (some at)) >>= λ at. ok (reached texts now at)

    forth :
        (text : List ℕ) (read : Result ConfigFailure ℕ)
        → parse_expires_at texts user.username text ≡ read
        → after read ≡ ok false
        → IsUnexpired texts (some text) now
    forth text (err x) e h = absurd cc
    forth text (ok at) e h =
        let (filled, time) = (read_iff texts user.username text at).0 e in
        (at, filled, time, (before_iff now at).0 (inj h))
      where
        inj : {b : Bool} → ◌≡◌ {A = Result ConfigFailure Bool} (ok b) (ok false) → b ≡ false
        inj e = cc

    by_expiry :
        (expiry : Option (List ℕ))
        → ((expiry_of texts user.username expiry >>= λ at. ok (reached texts now at)) ≡ ok false)
          ↔ IsUnexpired texts expiry now
    by_expiry none = (λ e. tt, λ e. refl)
    by_expiry (some text) = (
      λ e. forth text (parse_expires_at texts user.username text) refl e,
      λ (at, filled, time, later).
          rw ((read_iff texts user.username text at).1 (filled, time), (before_iff now at).1 later)
            refl,
    )
