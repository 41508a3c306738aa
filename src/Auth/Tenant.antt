-- ===== src/Auth/Tenant.antt =====
-- Which tenant a request acts for, after the guards of backend/internal/middleware/auth.go.
use go_react_fihos.Common.{
  ℕ, ◌≡◌, refl, true, false, Option, none, some, arith, Bool-cases, Option-cases, inl, inr, drop,
}
use go_react_fihos.Common.Text.{Text}
use go_react_fihos.Service.Creds.{parse_int}
use go_react_fihos.Auth.Service.{Checked, ok, err, Claims, is_role_authorized}
use go_react_fihos.Auth.Middleware.{
  Guarded, next, unauthorized, forbidden, context_of, authorize, has_bearer, auth, nonzero,
  positive, overlay, require_tenant, guarded,
}

-- The guards of a tenant's route, as the server composes them.
abbrev pub tenant_route : (Text → Checked Claims) → Text → Text → Guarded
tenant_route verify header tenant_header =
    guarded (auth verify header) (require_tenant tenant_header)

-- What a request that goes on is entitled to, by the claims of its token.
abbrev pub Entitled : Checked Claims → Guarded → Type 0
Entitled (err e) (next c) = ⊥
Entitled (ok claims) (next c) =
    (c.user_id ≡ claims.user_id)
    × (c.role ≡ claims.role)
    × (is_role_authorized claims.role ≡ true)
    × (nonzero claims.tenant_id ≡ true → c.tenant_id ≡ claims.tenant_id)
    × (nonzero c.tenant_id ≡ true)
Entitled v unauthorized = Unit
Entitled v forbidden = Unit

positive-nonzero : (o : Option ℕ) (id : ℕ) → positive o ≡ some id → nonzero (some id) ≡ true
positive-nonzero none id e = ground arith
positive-nonzero (some n) id e = ground arith

overlaid-Entitled :
    (claims : Claims) (o : Option ℕ)
    → is_role_authorized claims.role ≡ true
    → nonzero claims.tenant_id ≡ false
    → Entitled (ok claims) (overlay (positive o) (context_of claims))
overlaid-Entitled claims o role zero = elim (Option-cases (positive o)) [
  | inl e ↦ rw e tt
  | inr (id, e) ↦ rw e (refl, refl, role, (λ t. ground (arith, t, zero)), positive-nonzero o id e)
]

authorized-Entitled :
    (v : Checked Claims) (tenant_header : Text)
    → Entitled v (guarded (authorize v) (require_tenant tenant_header))
unfolding require_tenant
authorized-Entitled (err e) tenant_header = tt
authorized-Entitled (ok claims) tenant_header = elim (Bool-cases (is_role_authorized claims.role)) [
  | inr denied ↦ rw denied tt
  | inl role ↦ elim (Bool-cases (nonzero claims.tenant_id)) [
    | inl own ↦ rw role (rw own (refl, refl, role, (λ t. refl), own))
    | inr zero ↦ rw role (rw zero (overlaid-Entitled claims (parse_int tenant_header) role zero))
  ]
]

-- A request that passes the guards of a tenant's route has a token that is verified, of an
-- authorised role; it acts as the user of the token and for a tenant that is not 0, and where the
-- token names such a tenant, for that one, whatever the header X-Tenant-Id says.
pub tenant_route-Entitled :
    (verify : Text → Checked Claims) (header tenant_header : Text)
    → Entitled (verify (drop 7 header)) (tenant_route verify header tenant_header)
unfolding auth
tenant_route-Entitled verify header tenant_header = elim (Bool-cases (has_bearer header)) [
  | inl t ↦ rw t (authorized-Entitled (verify (drop 7 header)) tenant_header)
  | inr t ↦ rw t tt
]
