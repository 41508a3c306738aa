-- ===== src/Auth/Tokens.antt =====
-- The tokens that backend/internal/auth/service.go issues, against its two verifications.
use go_react_fihos.Common.{
  ℕ, ◌+◌, ◌^◌, ◌<◌, ◌≡◌, ◌≢◌, refl, ap, ◌∙◌, not, Option, none, some, [], ◌∷◌, arith, All,
  Option-cases, Bool-cases, inl, inr, ltb, if◌then◌else◌,
}
use go_react_fihos.Common.Text.{Text, codes, text_eq}
use go_react_fihos.Auth.Service.{
  Value, number, text, MapClaims, Jwt, invalid_token, Checked, ok, err, Service, UserAccess,
  TokenPair, Claims, token_claims, tenant_claim, issue, claim, as_number, read_claims, verify,
  verify_refresh, ok_if, is_text, text_or_empty, ◌>>=◌,
}

-- A float64, which a JSON number becomes, is exact below 2^53.
abbrev pub Exact : Text × Value → Type 0
Exact (k, number n) = n < 2 ^ 53
Exact (k, text t) = Unit

-- A signed token is parsed to the claims that were signed until it expires, and refused after.
abbrev pub Faithful : Jwt → Type 0
Faithful jwt =
    (secret token : Text) (mc : MapClaims) (exp now : ℕ)
    → jwt.sign secret mc ≡ some token
    → claim (codes "exp") mc ≡ some (number exp)
    → All Exact mc
    → jwt.parse secret now token ≡ (if ltb now exp then some mc else none)

abbrev pub claims_of : UserAccess → ℕ → Claims
claims_of user exp = record {
  user_id = user.id;
  tenant_id = user.tenant_id;
  role = user.role;
  exp = exp;
}

module _ (jwt : Jwt) (s : Service) (user : UserAccess) (typ jti : Text)
    (issued_at exp later_on : ℕ) where
  as_number-tenant_claim :
      (o : Option ℕ) → as_number (claim (codes "tenant_id") (tenant_claim o)) ≡ o
  as_number-tenant_claim none = refl
  as_number-tenant_claim (some t) = refl

  read_back :
      later_on < exp
      → read_claims later_on (token_claims user typ jti issued_at exp) ≡ ok (claims_of user exp)
  unfolding read_claims
  read_back live = ground (arith, live, as_number-tenant_claim user.tenant_id)

  claims_fit :
      user.id < 2 ^ 53
      → ((t : ℕ) → user.tenant_id ≡ some t → t < 2 ^ 53)
      → issued_at < 2 ^ 53
      → exp < 2 ^ 53
      → All Exact (token_claims user typ jti issued_at exp)
  claims_fit id tenant iat ex =
      (id, (tt, (tt, (tt, (iat, (ex, tenant_fit user.tenant_id tenant))))))
    where
      tenant_fit : (o : Option ℕ) → ((t : ℕ) → o ≡ some t → t < 2 ^ 53) → All Exact (tenant_claim o)
      tenant_fit none h = tt
      tenant_fit (some t) h = (h t refl, tt)

module _ (jwt : Jwt) (s : Service) (now later_on : ℕ) (token : Text) (mc : MapClaims)
    (e : jwt.parse s.secret later_on token ≡ some mc) where
  verify_parsed : verify jwt s later_on token ≡ (
      ok_if (is_text (codes "access") (claim (codes "typ") mc)) invalid_token >>= λ _.
      read_claims later_on mc)
  unfolding verify
  verify_parsed = rw e refl

  verify_refresh_parsed : verify_refresh jwt s later_on token ≡ (
      ok_if (is_text (codes "refresh") (claim (codes "typ") mc)) invalid_token >>= λ _.
      ok_if (not (text_eq (text_or_empty (claim (codes "jti") mc)) [])) invalid_token >>= λ _.
      read_claims later_on mc >>= λ claims.
      ok (record { claims = claims; jti = text_or_empty (claim (codes "jti") mc) }))
  unfolding verify_refresh
  verify_refresh_parsed = rw e refl

module _ (jwt : Jwt) (s : Service) (later_on : ℕ) (token : Text)
    (e : jwt.parse s.secret later_on token ≡ none) where
  verify_refused : verify jwt s later_on token ≡ err invalid_token
  unfolding verify
  verify_refused = rw e refl

  verify_refresh_refused : verify_refresh jwt s later_on token ≡ err invalid_token
  unfolding verify_refresh
  verify_refresh_refused = rw e refl

-- What a pair is good for at a time: each token for its own verification until it expires, and
-- at no time for the other.
abbrev pub Works : Jwt → Service → ℕ → ℕ → UserAccess → Checked (TokenPair × Text) → Type 0
Works jwt s now later_on user (err e) = Unit
Works jwt s now later_on user (ok (pair, jti)) =
    (verify jwt s later_on pair.access_token ≡ (
      if ltb later_on (now + s.token_ttl)
      then ok (claims_of user (now + s.token_ttl))
      else err invalid_token))
    × (verify_refresh jwt s later_on pair.access_token ≡ err invalid_token)
    × (verify_refresh jwt s later_on pair.refresh_token ≡ (
        if ltb later_on (now + s.refresh_ttl)
        then ok (record { claims = claims_of user (now + s.refresh_ttl); jti = jti })
        else err invalid_token))
    × (verify jwt s later_on pair.refresh_token ≡ err invalid_token)

module _ (jwt : Jwt) (law : Faithful jwt) (s : Service) (user : UserAccess) (now : ℕ) where
  abbrev pub FitsFloats : Type 0
  FitsFloats =
      (user.id < 2 ^ 53)
      × ((t : ℕ) → user.tenant_id ≡ some t → t < 2 ^ 53)
      × (now + s.token_ttl < 2 ^ 53)
      × (now + s.refresh_ttl < 2 ^ 53)

  signed :
      (typ jti token : Text) (ttl later_on : ℕ)
      → FitsFloats
      → now + ttl < 2 ^ 53
      → jwt.sign s.secret (token_claims user typ jti now (now + ttl)) ≡ some token
      → jwt.parse s.secret later_on token ≡ (
          if ltb later_on (now + ttl)
          then some (token_claims user typ jti now (now + ttl))
          else none)
  signed typ jti token ttl later_on (id, tenant, _, _) fits e =
      law s.secret token (token_claims user typ jti now (now + ttl)) (now + ttl) later_on e refl (
        claims_fit jwt s user typ jti now (now + ttl) later_on id tenant (omega (arith, fits)) fits)

  as_access :
      (jti token : Text) (ttl later_on : ℕ)
      → jwt.parse s.secret later_on token ≡ (
          if ltb later_on (now + ttl)
          then some (token_claims user (codes "access") jti now (now + ttl))
          else none)
      → (verify jwt s later_on token ≡ (
          if ltb later_on (now + ttl) then ok (claims_of user (now + ttl)) else err invalid_token))
        × (verify_refresh jwt s later_on token ≡ err invalid_token)
  as_access jti token ttl later_on e = elim (Bool-cases (ltb later_on (now + ttl))) [
    | inl live ↦ rw live (
      verify_parsed jwt s now later_on token _ (rw live at e)
          ∙ read_back jwt s user (codes "access") jti now (now + ttl) later_on
              (ground (arith, live)),
      verify_refresh_parsed jwt s now later_on token _ (rw live at e),
    )
    | inr over ↦ rw over (
      verify_refused jwt s later_on token (rw over at e),
      verify_refresh_refused jwt s later_on token (rw over at e),
    )
  ]

  as_refresh :
      (jti token : Text) (ttl later_on : ℕ)
      → jti ≢ []
      → jwt.parse s.secret later_on token ≡ (
          if ltb later_on (now + ttl)
          then some (token_claims user (codes "refresh") jti now (now + ttl))
          else none)
      → (verify_refresh jwt s later_on token ≡ (
          if ltb later_on (now + ttl)
          then ok (record { claims = claims_of user (now + ttl); jti = jti })
          else err invalid_token))
        × (verify jwt s later_on token ≡ err invalid_token)
  as_refresh [] token ttl later_on given e = absurd (given refl)
  as_refresh (c ∷ jti) token ttl later_on given e = elim (Bool-cases (ltb later_on (now + ttl))) [
    | inl live ↦ rw live (
      verify_refresh_parsed jwt s now later_on token _ (rw live at e)
          ∙ ap {A = Checked Claims}
              (λ claims. claims >>= λ q. ok (record { claims = q; jti = c ∷ jti }))
              (read_back jwt s user (codes "refresh") (c ∷ jti) now (now + ttl) later_on
                (ground (arith, live))),
      verify_parsed jwt s now later_on token _ (rw live at e),
    )
    | inr over ↦ rw over (
      verify_refresh_refused jwt s later_on token (rw over at e),
      verify_refused jwt s later_on token (rw over at e),
    )
  ]

  Works-signed :
      (access_jti refresh_jti access refresh : Text) (later_on : ℕ)
      → FitsFloats
      → refresh_jti ≢ []
      → jwt.sign s.secret (token_claims user (codes "access") access_jti now (now + s.token_ttl))
        ≡ some access
      → jwt.sign s.secret
          (token_claims user (codes "refresh") refresh_jti now (now + s.refresh_ttl))
        ≡ some refresh
      → Works jwt s now later_on user (
          ok (
            record {
              access_token = access;
              refresh_token = refresh;
              expires_at = now + s.token_ttl;
              user = user;
            },
            refresh_jti,
          ))
  Works-signed access_jti refresh_jti access refresh later_on fits given ea er =
      let (own, other) =
        as_access access_jti access s.token_ttl later_on
          (signed (codes "access") access_jti access s.token_ttl later_on fits fits.2 ea) in
      let (own', other') =
        as_refresh refresh_jti refresh s.refresh_ttl later_on given
          (signed (codes "refresh") refresh_jti refresh s.refresh_ttl later_on fits fits.3 er) in
      (own, other, own', other')

  -- With ids and times that a float64 holds, and a library that parses what it signed until it
  -- expires and refuses it after: at any time, the access token that is issued is verified to its
  -- user if it has not expired and is refused otherwise, and is refused as a refresh token; the
  -- refresh token, of an id that is not empty, is verified to its user and its id if it has not
  -- expired and is refused otherwise, and is refused as an access token.
  pub issue-Works :
      (access_jti refresh_jti : Text) (later_on : ℕ)
      → FitsFloats
      → refresh_jti ≢ []
      → Works jwt s now later_on user (issue jwt s now access_jti refresh_jti user)
  unfolding issue
  issue-Works access_jti refresh_jti later_on fits given =
      elim (Option-cases (
        jwt.sign s.secret
          (token_claims user (codes "access") access_jti now (now + s.token_ttl)))) [
            | inl none_a ↦ rw none_a tt
            | inr (access, ea) ↦
                elim (Option-cases (
                  jwt.sign s.secret
                    (token_claims user (codes "refresh") refresh_jti now (now + s.refresh_ttl)))) [
                      | inl none_r ↦ rw ea (rw none_r tt)
                      | inr (refresh, er) ↦ rw ea (
                          rw er (
                            Works-signed access_jti refresh_jti access refresh later_on fits given
                              ea er))
                    ]
          ]
