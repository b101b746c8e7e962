-- ===== src/Http/KeycloakAuthGuard.antt =====
-- src/shared/http/keycloak-auth.guard.ts: who may call a route. `jwt_verify` is that of the library
-- jose, with the key set of the issuer; it gives `none` where it throws.
pub mod Allows
use distributed_wagering_pro.Prelude.{
  Text, Option, List, codes, Bool, some, if◌then◌else◌, none, ◌∷◌, false, [], is_empty, ◌==◌,
  text_eq, ◌||◌,
}

abbrev pub required_role : Text
required_role = codes "provider"

pub record VerifyOptions : Type 0 where
  pub issuer : Text
  pub audience : Text

-- `payload.realm_access`, whose `roles` may be missing.
pub record RealmAccess : Type 0 where
  pub roles : Option (List Text)

pub record JwtPayload : Type 0 where
  pub realm_access : Option RealmAccess

-- What the guard reads of the context: the metadata of the route, and the header.
pub record RouteContext : Type 0 where
  pub is_public : Option Bool
  pub authorization : Option Text

-- The `UnauthorizedException`s, in the order of the code.
pub data Unauthorized : Type 0 where
  missing_token invalid_token missing_role : Unauthorized

pub data Access : Type 0 where
  allowed : Access
  refused : Unauthorized → Access

-- `text.startsWith(prefix)`, with what follows the prefix.
unfoldable pub strip_prefix : Text → Text → Option Text
strip_prefix [] text = some text
strip_prefix (c ∷ cs) [] = none
strip_prefix (c ∷ cs) (d ∷ ds) = let rest = strip_prefix cs ds in if c == d then rest else none

unfoldable pub extract_bearer_token : Option Text → Option Text
unfolding strip_prefix
extract_bearer_token none = none
extract_bearer_token (some header) = strip_prefix (codes "Bearer ") header

-- `roles.includes(role)`
unfoldable pub includes : List Text → Text → Bool
includes [] role = false
includes (r ∷ roles) role = text_eq r role || includes roles role

-- `realmAccess?.roles ?? []`
unfoldable pub roles_of : JwtPayload → List Text
roles_of payload = elim payload.realm_access [
  | none ↦ []
  | some access ↦ elim access.roles [ none ↦ [] | some roles ↦ roles ]
]

unfoldable pub check_role : Option JwtPayload → Access
unfolding includes roles_of
check_role none = refused invalid_token
check_role (some payload) =
    if includes (roles_of payload) required_role then allowed else refused missing_role

unfoldable pub is_public_route : Option Bool → Bool
is_public_route none = false
is_public_route (some b) = b

module _ (jwt_verify : Text → VerifyOptions → Option JwtPayload) (options : VerifyOptions) where
  -- An empty token is falsy.
  unfoldable pub check_token : Option Text → Access
  unfolding check_role
  check_token none = refused missing_token
  check_token (some token) =
      if is_empty token then refused missing_token else check_role (jwt_verify token options)

  unfoldable pub can_activate : RouteContext → Access
  unfolding is_public_route extract_bearer_token check_token
  can_activate context =
      if is_public_route context.is_public
      then allowed
      else check_token (extract_bearer_token context.authorization)
