-- ===== src/Auth/Tests.antt =====
-- Runs of backend/internal/auth and middleware, and the theorems at concrete inputs.
use go_react_fihos.Common.{
  ◌+◌, ◌≡◌, ◌≤◌, ◌==◌, ◌&&◌, refl, Bool, true, false, none, some, [], ◌∷◌, arith, if◌then◌else◌,
  ltb, drop, Bool-cases, inl, inr,
}
use go_react_fihos.Common.Text.{Text, codes, text_eq, text_eq_iff}
use go_react_fihos.Auth.Service.{
  Value, number, text, MapClaims, Jwt, Service, UserAccess, token_claims, issue, verify,
  read_claims,
}
use go_react_fihos.Common.Dict.{lookup}
use go_react_fihos.Store.Db.{fails, later}
use go_react_fihos.Auth.RateLimit.{allowed, bound_after, rate_allow, script, allowed-bounded}
use go_react_fihos.Auth.Refresh.Rotation.{rotations, uses, rotate, rotations-once}
use go_react_fihos.Auth.Tokens.{Faithful, Works, issue-Works}
use go_react_fihos.Auth.Middleware.{next, auth, require_tenant}
use go_react_fihos.Auth.Tenant.{tenant_route, Entitled, tenant_route-Entitled}

abbrev value_eq : Value → Value → Bool
value_eq (number m) (number n) = m == n
value_eq (text s) (text t) = text_eq s t
value_eq _ _ = false

abbrev claims_eq : MapClaims → MapClaims → Bool
claims_eq [] [] = true
claims_eq ((k, v) ∷ c) ((j, w) ∷ d) = text_eq k j && value_eq v w && claims_eq c d
claims_eq _ _ = false

value_eq_eq : (v w : Value) → value_eq v w ≡ true → v ≡ w
value_eq_eq (number m) (number n) e = ground arith
value_eq_eq (text s) (text t) e = ground (arith, text_eq_iff s t)
value_eq_eq (number m) (text t) e = ground arith
value_eq_eq (text s) (number n) e = ground arith

claims_eq_eq : (c d : MapClaims) → claims_eq c d ≡ true → c ≡ d
claims_eq_eq [] [] e = refl
claims_eq_eq ((k, v) ∷ c) ((j, w) ∷ d) e =
    ground (arith, text_eq_iff k j, value_eq_eq v w, claims_eq_eq c d)
claims_eq_eq [] ((j, w) ∷ d) e = ground arith
claims_eq_eq ((k, v) ∷ c) [] e = ground arith

abbrev staff : UserAccess
staff = record {
  id = 4;
  email = codes "s@x";
  full_name = [];
  role = codes "staff";
  tenant_id = some 7;
}

abbrev access_claims : MapClaims
access_claims = token_claims staff (codes "access") (codes "01") 100 (100 + 15)

abbrev refresh_claims : MapClaims
refresh_claims = token_claims staff (codes "refresh") (codes "02") 100 (100 + 60)

-- A library for these two tokens only.
abbrev small_jwt : Jwt
small_jwt = record {
  sign = λ secret mc.
      if claims_eq mc access_claims
      then some (codes "a")
      else if claims_eq mc refresh_claims
      then some (codes "r")
      else none;
  parse = λ secret now token.
      if text_eq token (codes "a")
      then if ltb now 115 then some access_claims else none
      else if text_eq token (codes "r")
      then (if ltb now 160 then some refresh_claims else none)
      else none;
}

small_jwt-Faithful : Faithful small_jwt
small_jwt-Faithful secret token mc exp now e ex h = elim (Bool-cases (claims_eq mc access_claims)) [
  | inl t ↦ ground (arith, t, e, ex, claims_eq_eq mc access_claims)
  | inr f ↦ elim (Bool-cases (claims_eq mc refresh_claims)) [
    | inl t ↦ ground (arith, f, t, e, ex, claims_eq_eq mc refresh_claims)
    | inr g ↦ ground (arith, f, g, e)
  ]
]

abbrev minutes : Service
minutes = record { secret = codes "k"; token_ttl = 15; refresh_ttl = 60 }

issue-Works_example :
    Works small_jwt minutes 100 110 staff
      (issue small_jwt minutes 100 (codes "01") (codes "02") staff)
issue-Works_example =
    issue-Works small_jwt small_jwt-Faithful minutes staff 100 (codes "01") (codes "02") 110
      (omega arith, (λ t e. ground arith), omega arith, omega arith) (λ e. ground arith)

-- The staff of tenant 7 asks for tenant 8.
own_tenant :
    tenant_route (λ token. verify small_jwt minutes 110 token) (codes "Bearer a") (codes "8")
    ≡ next (record { user_id = 4; tenant_id = some 7; role = codes "staff"; is_admin = false })
unfolding auth require_tenant verify read_claims
own_tenant = refl

tenant_route-Entitled_example :
    Entitled
      (verify small_jwt minutes 110 (drop 7 (codes "Bearer a")))
      (tenant_route (λ token. verify small_jwt minutes 110 token) (codes "Bearer a") (codes "8"))
tenant_route-Entitled_example =
    tenant_route-Entitled (λ token. verify small_jwt minutes 110 token) (codes "Bearer a")
      (codes "8")

-- Three requests against a limit of two within a minute.
allowed-bounded_example :
    allowed 2 60 (codes "rl:auth:ip:1") (100000 ∷ 101000 ∷ 159000 ∷ []) [] []
    ≤ bound_after 2 (lookup text_eq (codes "rl:auth:ip:1") [])
allowed-bounded_example =
    allowed-bounded 2 60 100000 159500 (codes "rl:auth:ip:1") (100000 ∷ 101000 ∷ 159000 ∷ []) [] []
      (omega arith)
      ((omega arith, omega arith), ((omega arith, omega arith), ((omega arith, omega arith), tt)))

third_refused : allowed 2 60 (codes "rl") (100000 ∷ 101000 ∷ 159000 ∷ []) [] [] ≡ 2
unfolding allowed rate_allow script fails later
third_refused = refl

-- In the last half second of the window the counter starts again.
third_allowed : allowed 2 60 (codes "rl") (100000 ∷ 101000 ∷ 159700 ∷ []) [] [] ≡ 3
unfolding allowed rate_allow script fails later
third_allowed = refl

abbrev old_key : Text
old_key = codes "refresh:3:01"

-- The token is presented twice.
rotations-once_example :
    rotations old_key
      (rotate 1000 3600 old_key (codes "refresh:3:02")
        ∷ rotate 1001 3600 old_key (codes "refresh:3:04")
        ∷ [])
      []
      ((old_key, 4000) ∷ [])
    ≤ uses (lookup text_eq old_key ((old_key, 4000) ∷ []))
rotations-once_example =
    rotations-once old_key
      (rotate 1000 3600 old_key (codes "refresh:3:02")
        ∷ rotate 1001 3600 old_key (codes "refresh:3:04")
        ∷ [])
      [] ((old_key, 4000) ∷ []) (refl, (refl, tt))
