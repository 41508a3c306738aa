-- ===== src/Service/Creds/Profile.antt =====
-- backend/internal/service/creds.go: SessionUsername against ParseProfileFromUsername.
use go_react_fihos.Common.{
  ℕ, suc, ◌+◌, ◌/◌, ◌%◌, ◌^◌, ◌<◌, ◌≡◌, ◌≢◌, refl, true, some, [], ◌∷◌, ◌++◌, arith, All, lt→ltb,
}
use go_react_fihos.Common.Text.{Text, to_lower, is_digit, format_int, format_rounds, parse_digits}
use go_react_fihos.Common.Text.Decimal.{parse_digits-format_int, format_int-digits}
use go_react_fihos.Service.Creds.{
  remove_dashes, session_username, before_dash, parse_int, parse_profile_from_username,
}

before_dash-digits :
    (s t : Text) → All (λ c. is_digit c ≡ true) s → before_dash (s ++ (b'-' ∷ t)) ≡ some s
unfolding before_dash
before_dash-digits [] t h = refl
before_dash-digits (c ∷ s) t h = ground (arith, before_dash-digits s t h.1)

parse_int-digits :
    (s : Text) (n : ℕ)
    → All (λ c. is_digit c ≡ true) s
    → s ≢ []
    → parse_digits 0 s ≡ some n
    → n < 2 ^ 63
    → parse_int s ≡ some n
parse_int-digits [] n h k e b = absurd (k refl)
parse_int-digits (c ∷ s) n h k e b = ground (arith, lt→ltb n (2 ^ 63) b)

append-nonempty : (s : Text) (c : ℕ) → s ++ (c ∷ []) ≢ []
append-nonempty [] c e = ground arith
append-nonempty (x ∷ s) c e = ground arith

format_rounds-nonempty : (f n : ℕ) → format_rounds (suc f) n ≢ []
unfolding format_rounds
format_rounds-nonempty f n =
    ground (arith, append-nonempty (format_rounds f (n / 10)) (b'0' + n % 10))

format_int-nonempty : (n : ℕ) → format_int n ≢ []
unfolding format_int
format_int-nonempty n = format_rounds-nonempty n n

-- The profile id that a user name was made with is read back, whatever the code of the voucher
-- is, for every id that int64 holds.
pub parse-session_username :
    (profile_id : ℕ) (code : Text)
    → profile_id < 2 ^ 63
    → parse_profile_from_username (session_username profile_id code) ≡ some profile_id
unfolding parse_profile_from_username session_username
parse-session_username profile_id code b =
    rw
      (before_dash-digits (format_int profile_id) (to_lower (remove_dashes code))
        (format_int-digits profile_id))
      (parse_int-digits (format_int profile_id) profile_id (format_int-digits profile_id)
        (format_int-nonempty profile_id) (parse_digits-format_int profile_id) b)
