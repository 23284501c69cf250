-- ===== src/Middleware/Identity.antt =====
-- Who the handlers see.
use kaats_v.Memory.{elem_text, starts_with}
use kaats_v.Base.{
  ℕ, ◌≡◌, refl, true, false, Option, none, some, [], String, ok, err, other_exception, Bool-cases,
  Option-cases, inl, inr, ◌⊎◌,
}
use kaats_v.Middleware.{
  Claims, IdClaim, id_of, malformed, state_with, Response, HttpRequest, RequestState, Endpoint,
  is_public, extract_token, correlation_of, unauthorized, anonymous, populate, parsed, first_of,
  Validation, accepted, refused, validator_raises, tag, tenant_dispatch,
}

-- The first of two values that is there.
pub data Chosen {A : Type 0} : Option A → Option A → Option A → Type 0 where
  primary : {a : A} → {other : Option A} → Chosen (some a) other (some a)
  fallback : {other : Option A} → Chosen none other other

-- A claim gives the id that is written in it, and a claim that is not there gives none.
pub data Reads : Option IdClaim → Option ℕ → Type 0 where
  absent : Reads none none
  written : {n : ℕ} → Reads (some (id_of n)) (some n)

pub data IsMalformed : Option IdClaim → Type 0 where
  unreadable : {s : String} → IsMalformed (some (malformed s))

-- The state that a handler may see for a request: nobody's on a public path, and elsewhere the one
-- that the claims of the request's token name, each of its columns.
pub data Identified (validate : String → Validation) (req : HttpRequest) (st : RequestState)
    : Type 0 where
  nobody :
      is_public req.path ≡ true
      → st.correlation_id ≡ correlation_of req
      → st.azure_oid ≡ none
      → st.email ≡ none
      → st.user_id ≡ none
      → st.company_id ≡ none
      → st.enterprise_id ≡ none
      → st.roles ≡ []
      → Identified validate req st
  claimed :
      (token : String) (claims : Claims) (email : Option String)
      → is_public req.path ≡ false
      → extract_token req.authorization ≡ some token
      → validate token ≡ accepted claims
      → st.correlation_id ≡ correlation_of req
      → Chosen claims.oid claims.sub st.azure_oid
      → Reads st.azure_oid st.user_id
      → Reads claims.kaats_company_id st.company_id
      → Reads claims.kaats_enterprise_id st.enterprise_id
      → Chosen claims.email claims.upn email
      → Chosen claims.preferred_username email st.email
      → st.roles ≡ claims.kaats_roles
      → Identified validate req st

-- Why a request is refused: its path is not public, and it has no token, or one that the validator
-- refuses, or one that is accepted and has a malformed id among its claims.
pub data Refused (validate : String → Validation) (req : HttpRequest) : Type 0 where
  no_token :
      is_public req.path ≡ false → extract_token req.authorization ≡ none → Refused validate req
  bad_token :
      (token : String)
      → is_public req.path ≡ false
      → extract_token req.authorization ≡ some token
      → validate token ≡ refused
      → Refused validate req
  bad_claims :
      (token : String) (claims : Claims) (user : Option IdClaim)
      → is_public req.path ≡ false
      → extract_token req.authorization ≡ some token
      → validate token ≡ accepted claims
      → Chosen claims.oid claims.sub user
      → IsMalformed user
        ⊎ (IsMalformed claims.kaats_company_id ⊎ IsMalformed claims.kaats_enterprise_id)
      → Refused validate req

chosen : {A : Type 0} (a b : Option A) → Chosen a b (first_of a b)
chosen none b = fallback
chosen (some a) b = primary

Reads-or_IsMalformed :
    (c : Option IdClaim)
    → ((i : Option ℕ) × (parsed c ≡ some i) × Reads c i) ⊎ ((parsed c ≡ none) × IsMalformed c)
Reads-or_IsMalformed none = inl (none, refl, absent)
Reads-or_IsMalformed (some (id_of n)) = inl (some n, refl, written)
Reads-or_IsMalformed (some (malformed s)) = inr (refl, unreadable)

-- The claims are read into a state, or one of them is malformed.
populated :
    (c : String) (claims : Claims)
    → ((user company enterprise : Option ℕ) × (populate c claims
          ≡ some (state_with c claims user company enterprise))
        × Reads (first_of claims.oid claims.sub) user
        × Reads claims.kaats_company_id company
        × Reads claims.kaats_enterprise_id enterprise)
      ⊎ ((populate c claims ≡ none)
          × (IsMalformed (first_of claims.oid claims.sub)
              ⊎ (IsMalformed claims.kaats_company_id ⊎ IsMalformed claims.kaats_enterprise_id)))
unfolding populate
populated c claims = elim (Reads-or_IsMalformed (first_of claims.oid claims.sub)) [
  | inr (e, bad) ↦ inr (rw e refl, inl bad)
  | inl (u, e, user) ↦ elim (Reads-or_IsMalformed claims.kaats_company_id) [
    | inr (f, bad) ↦ inr (rw (e, f) refl, inr (inl bad))
    | inl (k, f, company) ↦ elim (Reads-or_IsMalformed claims.kaats_enterprise_id) [
      | inr (g, bad) ↦ inr (rw (e, f, g) refl, inr (inr bad))
      | inl (n, g, enterprise) ↦ inl (u, k, n, rw (e, f, g) refl, user, company, enterprise)
    ]
  ]
]

validation_cases :
    (v : Validation)
    → ((claims : Claims) × (v ≡ accepted claims)) ⊎ ((v ≡ refused) ⊎ (v ≡ validator_raises))
validation_cases (accepted claims) = inl (claims, refl)
validation_cases refused = inr (inl refl)
validation_cases validator_raises = inr (inr refl)

-- Whatever stands behind it, the middleware of tenants answers a request in one of three ways: with
-- what the rest of the stack answers for a state that the request is entitled to, tagged with the
-- correlation id; with 401, where the path is not public and the request has no token, or one that
-- is refused, or an accepted one with a malformed id; or with an exception, where the path is not
-- public and the validator raises one on the token.
pub tenant_dispatch-Identified :
    (validate : String → Validation) (next : Endpoint) (req : HttpRequest)
    → ((st : RequestState) × Identified validate req st
        × (tenant_dispatch validate next req ≡ tag (correlation_of req) (next req st)))
      ⊎ ((Refused validate req
            × ((r : Response) × (tenant_dispatch validate next req ≡ ok r)
                × (r.status ≡ 401)
                × (r.correlation_header ≡ some (correlation_of req))))
          ⊎ ((token : String) × (is_public req.path ≡ false)
              × (extract_token req.authorization ≡ some token)
              × (validate token ≡ validator_raises)
              × (tenant_dispatch validate next req ≡ err other_exception)))
unfolding tenant_dispatch
tenant_dispatch-Identified validate next req =
    let c = correlation_of req in
    let no : Response = unauthorized c in
    elim (Bool-cases (is_public req.path)) [
      | inl p ↦ inl (anonymous c, nobody p refl refl refl refl refl refl refl, rw p refl)
      | inr p ↦ elim (Option-cases (extract_token req.authorization)) [
        | inl e ↦ inr (inl (no_token p e, (no, rw (p, e) refl, refl, refl)))
        | inr (token, e) ↦ elim (validation_cases (validate token)) [
          | inl (claims, v) ↦
              let who = chosen claims.oid claims.sub in
              let mail = chosen claims.email claims.upn in
              let name = chosen claims.preferred_username (first_of claims.email claims.upn) in
              elim (populated c claims) [
                | inl (u, k, n, q, user, company, enterprise) ↦
                    let address = first_of claims.email claims.upn in
                    let seen =
                      claimed token claims address p e v refl who user company enterprise mail name
                        refl in
                    inl (state_with c claims u k n, seen, rw (p, e, v, q) refl)
                | inr (q, bad) ↦
                    let user = first_of claims.oid claims.sub in
                    let why = bad_claims token claims user p e v who bad in
                    inr (inl (why, (no, rw (p, e, v, q) refl, refl, refl)))
              ]
          | inr (inl v) ↦ inr (inl (bad_token token p e v, (no, rw (p, e, v) refl, refl, refl)))
          | inr (inr v) ↦ inr (inr (token, p, e, v, rw (p, e, v) refl))
        ]
      ]
    ]

-- Without a bearer token every path that is not public is answered by 401, whatever its router
-- says of authentication.
pub tenant_dispatch-no_token :
    (validate : String → Validation) (next : Endpoint) (req : HttpRequest)
    → is_public req.path ≡ false
    → extract_token req.authorization ≡ none
    → tenant_dispatch validate next req ≡ ok (unauthorized (correlation_of req))
unfolding tenant_dispatch
tenant_dispatch-no_token validate next req p e = rw (p, e) refl

-- The paths of an invitation, on which its recipient has no account yet, are not public.
invitation_private : is_public "/api/v1/onboarding/invitations/abc/accept" ≡ false
unfolding is_public elem_text starts_with
invitation_private = refl
