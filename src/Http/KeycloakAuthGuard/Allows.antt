-- ===== src/Http/KeycloakAuthGuard/Allows.antt =====
-- src/shared/http/keycloak-auth.guard.ts: exactly which requests pass.
use mathlib.Core.Option.{some-injective}
use distributed_wagering_pro.Http.KeycloakAuthGuard.{
  VerifyOptions, JwtPayload, RouteContext, allowed, can_activate, check_token, check_role,
  strip_prefix, includes, roles_of, required_role, extract_bearer_token, is_public_route,
}
use distributed_wagering_pro.Prelude.{
  Text, List, ◌≡◌, ◌++◌, Option, some, true, Bool, codes, ◌↔◌, ◌∷◌, Occurs, is_empty, ◌⊎◌, ap,
  arith, text_eq_iff, false, Bool-cases, [], none, text_eq, refl, inl, inr, ◌∙◌,
}

strip_prefix-some :
    (prefix text rest : Text) → strip_prefix prefix text ≡ some rest → text ≡ prefix ++ rest
unfolding strip_prefix
strip_prefix-some [] text rest h = some-injective text rest h
strip_prefix-some (c ∷ cs) [] rest h = absurd (cc)
strip_prefix-some (c ∷ cs) (d ∷ ds) rest h = ground (arith, strip_prefix-some cs ds rest)

strip_prefix-append : (prefix rest : Text) → strip_prefix prefix (prefix ++ rest) ≡ some rest
unfolding strip_prefix
strip_prefix-append [] rest = refl
strip_prefix-append (c ∷ cs) rest = ground (arith, strip_prefix-append cs rest)

includes_iff : (roles : List Text) (role : Text) → (includes roles role ≡ true) ↔ Occurs role roles
unfolding includes
includes_iff [] role = (λ h. absurd (cc), λ o. absurd o)
includes_iff (r ∷ roles) role =
    let same = text_eq_iff r role in
    let rest = includes_iff roles role in
    (
      λ h. elim (Bool-cases (text_eq r role)) [
        | inl e ↦ inl (same.0 e)
        | inr e ↦ inr (rest.0 (rw e at h))
      ],
      λ o. elim o [ inl e ↦ rw (same.1 e) refl | inr o' ↦ rw (rest.1 o') (ground arith) ],
    )

module _ (jwt_verify : Text → VerifyOptions → Option JwtPayload) (options : VerifyOptions) where
  -- A bearer token that the library accepts, whose payload has the role.
  pub record HasToken (context : RouteContext) : Type 0 where
    pub token : Text
    pub payload : JwtPayload
    pub header : context.authorization ≡ some (codes "Bearer " ++ token)
    pub full : is_empty token ≡ false
    pub verified : jwt_verify token options ≡ some payload
    pub role : Occurs required_role (roles_of payload)

  abbrev pub MayPass : RouteContext → Type 0
  MayPass context = (context.is_public ≡ some true) ⊎ HasToken context

  check_role-allowed :
      (found : Option JwtPayload)
      → check_role found ≡ allowed
      → (payload : JwtPayload) × (found ≡ some payload) × Occurs required_role (roles_of payload)
  unfolding check_role
  check_role-allowed none h = absurd (ground arith)
  check_role-allowed (some payload) h =
      elim (Bool-cases (includes (roles_of payload) required_role)) [
        | inl e ↦ (payload, refl, (includes_iff (roles_of payload) required_role).0 e)
        | inr e ↦ absurd (ground arith)
      ]

  check_token-allowed :
      (found : Option Text)
      → check_token jwt_verify options found ≡ allowed
      → (token : Text) × (payload : JwtPayload) × (found ≡ some token)
        × (is_empty token ≡ false)
        × (jwt_verify token options ≡ some payload)
        × Occurs required_role (roles_of payload)
  unfolding check_token
  check_token-allowed none h = absurd (ground arith)
  check_token-allowed (some token) h = elim (Bool-cases (is_empty token)) [
    | inl e ↦ absurd (ground arith)
    | inr e ↦
        let (payload, verified, role) = check_role-allowed (jwt_verify token options) (rw e at h) in
        (token, payload, refl, e, verified, role)
  ]

  allowed-token :
      (authorization : Option Text) (is_public : Option Bool)
      → check_token jwt_verify options (extract_bearer_token authorization) ≡ allowed
      → HasToken (record { is_public = is_public; authorization = authorization })
  unfolding extract_bearer_token check_token
  allowed-token none is_public h = absurd (no_token h)
    where
      no_token : check_token jwt_verify options none ≡ allowed → ⊥
      no_token k = ground arith
  allowed-token (some header) is_public h =
      let (token, payload, stripped, full, verified, role) =
        check_token-allowed (strip_prefix (codes "Bearer ") header) h in
      record {
        token = token;
        payload = payload;
        header = ap some (strip_prefix-some (codes "Bearer ") header token stripped);
        full = full;
        verified = verified;
        role = role;
      }

  checked_token :
      (token : Text) (payload : JwtPayload)
      → is_empty token ≡ false
      → jwt_verify token options ≡ some payload
      → Occurs required_role (roles_of payload)
      → check_token jwt_verify options (some token) ≡ allowed
  unfolding check_token check_role
  checked_token token payload full verified role =
      rw (full, verified, (includes_iff (roles_of payload) required_role).1 role) refl

  token-allowed :
      (context : RouteContext)
      → HasToken context
      → check_token jwt_verify options (extract_bearer_token context.authorization) ≡ allowed
  unfolding extract_bearer_token
  token-allowed context t =
      ap (λ a. check_token jwt_verify options (extract_bearer_token a)) t.header
      ∙ ap (check_token jwt_verify options) (strip_prefix-append (codes "Bearer ") t.token)
      ∙ checked_token t.token t.payload t.full t.verified t.role

  is_public_route_iff : (b : Option Bool) → (is_public_route b ≡ true) ↔ (b ≡ some true)
  unfolding is_public_route
  is_public_route_iff none = (λ h. absurd (cc), λ h. absurd (cc))
  is_public_route_iff (some b) = (λ h. ap some h, λ h. some-injective b true h)

  -- A request passes the guard exactly when its route is public, or its header is Bearer with a
  -- token that is not empty, that the library accepts for the issuer and the audience, and whose
  -- roles have the role provider.
  pub can_activate_iff :
      (context : RouteContext)
      → (can_activate jwt_verify options context ≡ allowed) ↔ MayPass context
  unfolding can_activate
  can_activate_iff context =
      let public_iff = is_public_route_iff context.is_public in
      elim (Bool-cases (is_public_route context.is_public)) [
        | inl e ↦ (λ h. inl (public_iff.0 e), λ p. rw e refl)
        | inr e ↦ (
          λ h. inr (allowed-token context.authorization context.is_public (rw e at h)),
          λ p. rw e (elim p [
            | inl q ↦ absurd (cc (e, public_iff.1 q))
            | inr t ↦ token-allowed context t
          ]),
        )
      ]
