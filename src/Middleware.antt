-- ===== src/Middleware.antt =====
-- What a request passes before its handler: TenantMiddleware and ContentSizeLimitMiddleware of
-- backend/app/middleware, with the helpers of backend/app/dependencies.py that read its results.
-- The validation of a token is a parameter.
pub mod Identity
use Prim.Native.Char.{code}
use kaats_v.Base.{
  ℕ, Bool, true, false, ◌&&◌, ◌||◌, Option, none, some, List, [], ◌∷◌, String, ltb, ◌==◌,
  if◌then◌else◌, is_none, or_else, Result, ok, err, Error, other_exception, http, missing_company,
  missing_user,
}
use kaats_v.Schema.{RoleCode}
use kaats_v.Memory.{starts_with, is_part, elem_text}

-- A claim that should be a UUID: what `UUID` reads, or a text or value that it refuses.
pub data IdClaim : Type 0 where
  id_of : ℕ → IdClaim
  malformed : String → IdClaim

-- A claim that is missing or empty is `none`.
pub record Claims : Type 0 where
  pub oid : Option IdClaim
  pub sub : Option IdClaim
  pub preferred_username : Option String
  pub email : Option String
  pub upn : Option String
  pub kaats_company_id : Option IdClaim
  pub kaats_enterprise_id : Option IdClaim
  pub kaats_roles : List RoleCode

-- The header `Content-Length`: missing or empty, a text that `int` reads as a number below 0, one
-- from 0 on, or a text that it refuses.
pub data ContentLength : Type 0 where
  no_length negative_length invalid_length : ContentLength
  length_of : ℕ → ContentLength

-- `correlation` is the header `X-Correlation-ID`, if it is not empty, and `fresh` what `uuid4`
-- returns.
pub record HttpRequest : Type 0 where
  pub path : String
  pub correlation : Option String
  pub fresh : String
  pub authorization : Option String
  pub content_length : ContentLength

-- `request.state`; a public path leaves all but the correlation id unset.
pub record RequestState : Type 0 where
  pub correlation_id : String
  pub azure_oid : Option IdClaim
  pub email : Option String
  pub user_id : Option ℕ
  pub company_id : Option ℕ
  pub enterprise_id : Option ℕ
  pub roles : List RoleCode

pub data Body : Type 0 where
  unauthenticated too_large bad_length : Body
  other_body : String → Body

pub record Response : Type 0 where
  pub status : ℕ
  pub body : Body
  pub correlation_header : Option String

-- The rest of the stack, that may raise.
abbrev pub Endpoint : Type 0
Endpoint = HttpRequest → RequestState → Result Response

-- `_UNAUTHENTICATED_PATHS`
abbrev pub unauthenticated_paths : List String
unauthenticated_paths =
    "/health" ∷ "/health/live" ∷ "/health/ready" ∷ "/api/v1/auth/login" ∷ "/api/v1/auth/callback"
    ∷ "/api/v1/auth/token" ∷ []

unfoldable pub is_public : String → Bool
is_public path =
    elem_text path unauthenticated_paths
    || (starts_with "/docs" path || starts_with "/openapi" path)

-- `text[len(prefix):] if text.startswith(prefix)`
unfoldable pub after_prefix : String → String → Option String
after_prefix String.[] t = some t
after_prefix (String.◌∷◌ c s) String.[] = none
after_prefix (String.◌∷◌ c s) (String.◌∷◌ d t) =
    let rest = after_prefix s t in if code c == code d then rest else none

-- `_extract_token`
abbrev pub extract_token : Option String → Option String
extract_token none = none
extract_token (some header) = after_prefix "Bearer " header

abbrev pub correlation_of : HttpRequest → String
correlation_of req = or_else req.correlation req.fresh

-- `_unauthorized`
abbrev pub unauthorized : String → Response
unauthorized correlation_id = record {
  status = 401;
  body = unauthenticated;
  correlation_header = some correlation_id;
}

abbrev pub anonymous : String → RequestState
anonymous correlation_id = record {
  correlation_id = correlation_id;
  azure_oid = none;
  email = none;
  user_id = none;
  company_id = none;
  enterprise_id = none;
  roles = [];
}

-- `UUID(text) if text else None`; `none` means that it raises.
abbrev pub parsed : Option IdClaim → Option (Option ℕ)
parsed none = some none
parsed (some (id_of n)) = some (some n)
parsed (some (malformed s)) = none

abbrev pub first_of : {A : Type 0} → Option A → Option A → Option A
first_of none b = b
first_of (some a) b = some a

abbrev pub state_with : String → Claims → Option ℕ → Option ℕ → Option ℕ → RequestState
state_with correlation_id claims user company enterprise = record {
  correlation_id = correlation_id;
  azure_oid = first_of claims.oid claims.sub;
  email = first_of claims.preferred_username (first_of claims.email claims.upn);
  user_id = user;
  company_id = company;
  enterprise_id = enterprise;
  roles = claims.kaats_roles;
}

abbrev pub all_parsed :
    String
    → Claims
    → Option (Option ℕ)
    → Option (Option ℕ)
    → Option (Option ℕ)
    → Option RequestState
all_parsed correlation_id claims (some u) (some c) (some e) =
    some (state_with correlation_id claims u c e)
all_parsed correlation_id claims (some u) (some c) none = none
all_parsed correlation_id claims (some u) none e = none
all_parsed correlation_id claims none c e = none

-- The identity and the tenant that the claims name.
unfoldable pub populate : String → Claims → Option RequestState
populate correlation_id claims =
    all_parsed correlation_id claims (parsed (first_of claims.oid claims.sub))
      (parsed claims.kaats_company_id) (parsed claims.kaats_enterprise_id)

-- How `validate` ends: with claims, an HTTPException, or another exception.
pub data Validation : Type 0 where
  accepted : Claims → Validation
  refused validator_raises : Validation

abbrev pub tag : String → Result Response → Result Response
tag correlation_id (ok r) = ok (record r { correlation_header = some correlation_id })
tag correlation_id (err e) = err e

module _ (validate : String → Validation) (next : Endpoint) where
  abbrev pub pass_populated : HttpRequest → Option RequestState → Result Response
  pass_populated req none = ok (unauthorized (correlation_of req))
  pass_populated req (some st) = tag (correlation_of req) (next req st)

  abbrev pub pass_validated : HttpRequest → Validation → Result Response
  pass_validated req (accepted claims) = pass_populated req (populate (correlation_of req) claims)
  pass_validated req refused = ok (unauthorized (correlation_of req))
  pass_validated req validator_raises = err other_exception

  abbrev pub pass_token : HttpRequest → Option String → Result Response
  pass_token req none = ok (unauthorized (correlation_of req))
  pass_token req (some token) = pass_validated req (validate token)

  -- `TenantMiddleware.dispatch`
  unfoldable pub tenant_dispatch : HttpRequest → Result Response
  tenant_dispatch req =
      if is_public req.path
      then tag (correlation_of req) (next req (anonymous (correlation_of req)))
      else pass_token req (extract_token req.authorization)

abbrev pub default_max : ℕ
default_max = 1048576

abbrev pub evidence_max : ℕ
evidence_max = 52428800

abbrev pub size_limit : String → ℕ
size_limit path = if is_part "/evidence" path then evidence_max else default_max

abbrev pub answer : ℕ → Body → Result Response
answer status body = ok (record { status = status; body = body; correlation_header = none })

-- `ContentSizeLimitMiddleware.dispatch`
unfoldable pub limit_dispatch : Endpoint → Endpoint
limit_dispatch next req st = elim req.content_length [
  | no_length ↦ next req st
  | negative_length ↦ next req st
  | invalid_length ↦ answer 400 bad_length
  | length_of n ↦ if ltb (size_limit req.path) n then answer 413 too_large else next req st
]

-- `get_current_company_id` and `get_current_user_id`
unfoldable pub get_current_company_id : RequestState → Result ℕ
get_current_company_id st = elim st.company_id [
  | none ↦ err (http 400 missing_company)
  | some i ↦ ok i
]

unfoldable pub get_current_user_id : RequestState → Result ℕ
get_current_user_id st = elim st.user_id [ none ↦ err (http 400 missing_user) | some i ↦ ok i ]
