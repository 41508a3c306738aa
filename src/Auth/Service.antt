-- ===== src/Auth/Service.antt =====
-- backend/internal/auth/service.go: access and refresh tokens. The JWT library is a parameter.
use go_react_fihos.Common.{
  ℕ, ◌+◌, ◌||◌, Bool, true, false, not, Option, none, some, List, [], ◌∷◌, ltb,
}
use go_react_fihos.Common.Text.{Text, codes, text_eq}
use go_react_fihos.Common.Dict.{lookup}

pub data Value : Type 0 where
  number : ℕ → Value
  text : Text → Value

abbrev pub MapClaims : Type 0
MapClaims = List (Text × Value)

-- SignedString with HS256, and ParseWithClaims for HMAC methods at a time: `none` where the
-- library returns an error or the token is not valid.
pub record Jwt : Type 0 where
  pub sign : Text → MapClaims → Option Text
  pub parse : Text → ℕ → Text → Option MapClaims

-- `nil_time` is the panic of exp.Before on a token without "exp", which is never issued.
pub data AuthError : Type 0 where
  invalid_token expired nil_time not_signed : AuthError

pub data Checked (A : Type 0) : Type 0 where
  ok : A → Checked A
  err : AuthError → Checked A

infixl 5 ◌>>=◌
abbrev pub ◌>>=◌ : {A B : Type 0} → Checked A → (A → Checked B) → Checked B
ok a >>= f = f a
err e >>= f = err e

abbrev pub or_err : {A : Type 0} → Option A → AuthError → Checked A
or_err none e = err e
or_err (some a) e = ok a

abbrev pub ok_if : Bool → AuthError → Checked Unit
ok_if true e = ok tt
ok_if false e = err e

pub record Service : Type 0 where
  pub secret : Text
  pub token_ttl : ℕ
  pub refresh_ttl : ℕ

pub record UserAccess : Type 0 where
  pub id : ℕ
  pub email : Text
  pub full_name : Text
  pub role : Text
  pub tenant_id : Option ℕ

pub record TokenPair : Type 0 where
  pub access_token : Text
  pub refresh_token : Text
  pub expires_at : ℕ
  pub user : UserAccess

pub record Claims : Type 0 where
  pub user_id : ℕ
  pub tenant_id : Option ℕ
  pub role : Text
  pub exp : ℕ

abbrev pub tenant_claim : Option ℕ → MapClaims
tenant_claim none = []
tenant_claim (some t) = (codes "tenant_id", number t) ∷ []

-- The claims of a token of a type, with the id `jti`.
abbrev pub token_claims : UserAccess → Text → Text → ℕ → ℕ → MapClaims
token_claims user typ jti issued_at expires_at =
    (codes "uid", number user.id)
    ∷ (codes "role", text user.role)
    ∷ (codes "typ", text typ)
    ∷ (codes "jti", text jti)
    ∷ (codes "iat", number issued_at)
    ∷ (codes "exp", number expires_at)
    ∷ tenant_claim user.tenant_id

-- Issue: the pair, and the id of the refresh token. Both ids are random.
unfoldable pub issue : Jwt → Service → ℕ → Text → Text → UserAccess → Checked (TokenPair × Text)
issue jwt s now access_jti refresh_jti user = do
  access ←
      or_err
        (jwt.sign s.secret (token_claims user (codes "access") access_jti now (now + s.token_ttl)))
        not_signed
  refresh ←
      or_err
        (jwt.sign s.secret
          (token_claims user (codes "refresh") refresh_jti now (now + s.refresh_ttl)))
        not_signed
  ok (
    record {
      access_token = access;
      refresh_token = refresh;
      expires_at = now + s.token_ttl;
      user = user;
    },
    refresh_jti,
  )

abbrev pub claim : Text → MapClaims → Option Value
claim k mc = lookup text_eq k mc

abbrev pub is_text : Text → Option Value → Bool
is_text t (some (text u)) = text_eq u t
is_text t _ = false

-- v.(string), or "" where it is none
abbrev pub text_or_empty : Option Value → Text
text_or_empty (some (text u)) = u
text_or_empty _ = []

abbrev pub as_number : Option Value → Option ℕ
as_number (some (number n)) = some n
as_number _ = none

-- What both verifications do after the test of the type.
unfoldable pub read_claims : ℕ → MapClaims → Checked Claims
read_claims now mc = do
  exp ← or_err (as_number (claim (codes "exp") mc)) nil_time
  ok_if (not (ltb exp now)) expired >>= λ _. do
    uid ← or_err (as_number (claim (codes "uid") mc)) invalid_token
    ok (record {
      user_id = uid;
      tenant_id = as_number (claim (codes "tenant_id") mc);
      role = text_or_empty (claim (codes "role") mc);
      exp = exp;
    })

unfoldable pub verify : Jwt → Service → ℕ → Text → Checked Claims
unfolding read_claims
verify jwt s now token = do
  mc ← or_err (jwt.parse s.secret now token) invalid_token
  ok_if (is_text (codes "access") (claim (codes "typ") mc)) invalid_token >>= λ _.
      read_claims now mc

abbrev pub is_role_authorized : Text → Bool
is_role_authorized role =
    text_eq role (codes "admin") || text_eq role (codes "owner") || text_eq role (codes "staff")

pub record RefreshInfo : Type 0 where
  pub claims : Claims
  pub jti : Text

unfoldable pub verify_refresh : Jwt → Service → ℕ → Text → Checked RefreshInfo
unfolding read_claims
verify_refresh jwt s now token = do
  mc ← or_err (jwt.parse s.secret now token) invalid_token
  ok_if (is_text (codes "refresh") (claim (codes "typ") mc)) invalid_token >>= λ _.
      ok_if (not (text_eq (text_or_empty (claim (codes "jti") mc)) [])) invalid_token >>= λ _. do
        claims ← read_claims now mc
        ok (record { claims = claims; jti = text_or_empty (claim (codes "jti") mc) })
