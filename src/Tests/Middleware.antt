-- ===== src/Tests/Middleware.antt =====
-- A request with a token, and a validator that knows one token.
use kaats_v.Base.{◌≡◌, some, none, [], false, String, if◌then◌else◌, ok, err, other_exception, ◌⊎◌}
use kaats_v.Middleware.{
  Claims, is_public, extract_token, validator_raises, Response, id_of, HttpRequest, RequestState,
  Endpoint, Validation, accepted, refused, no_length, correlation_of, tag, tenant_dispatch,
  other_body, limit_dispatch,
}
use kaats_v.Middleware.Identity.{Identified, Refused, tenant_dispatch-Identified}
use text.Mathlib.Text.{◌==◌ as str_eq}

abbrev ann_claims : Claims
ann_claims = record {
  oid = some (id_of 7);
  sub = none;
  preferred_username = some "ann@example.com";
  email = none;
  upn = none;
  kaats_company_id = some (id_of 20);
  kaats_enterprise_id = none;
  kaats_roles = [];
}

abbrev validate : String → Validation
validate token = if str_eq token "t" then accepted ann_claims else refused

abbrev hello : Endpoint
hello req st = ok (record { status = 200; body = other_body "hello"; correlation_header = none })

abbrev list_systems : HttpRequest
list_systems = record {
  path = "/api/v1/systems";
  correlation = some "c";
  fresh = "f";
  authorization = some "Bearer t";
  content_length = no_length;
}

tenant_dispatch-Identified_example :
    let answered = tenant_dispatch validate (limit_dispatch hello) list_systems in
    ((st : RequestState) × Identified validate list_systems st
      × (answered ≡ tag (correlation_of list_systems) (limit_dispatch hello list_systems st)))
    ⊎ ((Refused validate list_systems
          × ((r : Response) × (answered ≡ ok r)
              × (r.status ≡ 401)
              × (r.correlation_header ≡ some (correlation_of list_systems))))
        ⊎ ((token : String) × (is_public list_systems.path ≡ false)
            × (extract_token list_systems.authorization ≡ some token)
            × (validate token ≡ validator_raises)
            × (answered ≡ err other_exception)))
tenant_dispatch-Identified_example =
    tenant_dispatch-Identified validate (limit_dispatch hello) list_systems
