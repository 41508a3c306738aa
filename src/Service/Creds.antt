-- ===== src/Service/Creds.antt =====
-- backend/internal/service/creds.go: router user names that carry the profile, and passwords.
pub mod Profile
use go_react_fihos.Common.{
  ℕ, zero, suc, ◌+◌, ◌^◌, ◌==◌, ◌<◌, Bool, true, false, Option, none, some, List, [], ◌∷◌, ◌++◌,
  if◌then◌else◌, ltb, get_elem?,
}
use go_react_fihos.Common.Text.{Text, codes, to_lower, format_int, parse_digits}
use go_react_fihos.Service.VoucherCode.{Outcome, ok, err, random_source, ◌>>=◌, draw_char}

-- strings.ReplaceAll(s, "-", "")
abbrev pub remove_dashes : Text → Text
remove_dashes [] = []
remove_dashes (c ∷ s) = if c == b'-' then remove_dashes s else c ∷ remove_dashes s

unfoldable pub session_username : ℕ → Text → Text
session_username profile_id voucher_code =
    format_int profile_id ++ (b'-' ∷ to_lower (remove_dashes voucher_code))

-- username[:idx] for idx = strings.IndexByte(username, '-'), if there is a dash
unfoldable pub before_dash : Text → Option Text
before_dash [] = none
before_dash (c ∷ s) =
    let rest = before_dash s in
    if c == b'-' then some [] else elim rest [ none ↦ none | some t ↦ some (c ∷ t) ]

abbrev pub in_int64 : Option ℕ → Option ℕ
in_int64 none = none
in_int64 (some n) = if ltb n (2 ^ 63) then some n else none

abbrev pub unsigned : Text → Option ℕ
unsigned [] = none
unsigned (c ∷ s) = in_int64 (parse_digits 0 (c ∷ s))

-- strconv.ParseInt(s, 10, 64) of a text that holds no dash: a plus sign is allowed.
abbrev pub parse_int : Text → Option ℕ
parse_int [] = none
parse_int (c ∷ s) = if c == b'+' then unsigned s else unsigned (c ∷ s)

-- Where the dash stands first, or nowhere, there is no profile.
abbrev pub parse_prefix : Option Text → Option ℕ
parse_prefix none = none
parse_prefix (some s) = parse_int s

unfoldable pub parse_profile_from_username : Text → Option ℕ
unfolding before_dash
parse_profile_from_username username = parse_prefix (before_dash username)

abbrev pub pw_alphabet : Text
pw_alphabet = codes "abcdefghjkmnpqrstuvwxyz23456789"

abbrev pub hex_digits : Text
hex_digits = codes "0123456789abcdef"

-- n characters of an alphabet, by random numbers
unfoldable pub draw_text : Text → ℕ → List ℕ → Outcome Text
draw_text chars zero ns = ok []
draw_text chars (suc k) [] = err random_source
draw_text chars (suc k) (n ∷ ns) = do
  c ← draw_char (get_elem? chars n)
  s ← draw_text chars k ns
  ok (c ∷ s)

unfoldable pub generate_session_password : List ℕ → Outcome Text
unfolding draw_text
generate_session_password = draw_text pw_alphabet 12

unfoldable pub random_hex : ℕ → List ℕ → Outcome Text
unfolding draw_text
random_hex = draw_text hex_digits
