-- ===== src/Webhooks.antt =====
-- Webhooks: WebhookService of backend/app/services/webhook_service.py. What a registered server
-- answers is a parameter.
pub mod Events
pub mod Delivery
use Prim.Native.Char.{code}
use kaats_v.Base.{
  ℕ, ◌+◌, Bool, true, false, ◌&&◌, ◌||◌, not, Option, none, some, List, [], ◌∷◌, String, ltb, leb,
  ◌==◌, if◌then◌else◌, is_none, or_else, or_keep, select, get, replace, delete,
}
use kaats_v.Memory.{elem_text}
use text.Mathlib.Text.{◌==◌ as str_eq}

-- `event_types` is a text column, the names joined by commas.
pub record WebhookEndpoint : Type 0 where
  pub id : ℕ
  pub company_id : ℕ
  pub url : String
  pub event_types : Option String
  pub secret : Option String
  pub description : Option String
  pub is_active : Bool

pub data DeliveryStatus : Type 0 where
  pending success failed : DeliveryStatus

pub record WebhookDelivery : Type 0 where
  pub id : ℕ
  pub endpoint_id : ℕ
  pub company_id : ℕ
  pub event_type : String
  pub status : DeliveryStatus
  pub response_status : Option ℕ
  pub delivered_at : Option ℕ

pub record State : Type 0 where
  pub endpoints : List WebhookEndpoint
  pub deliveries : List WebhookDelivery
  pub next_id : ℕ

abbrev pub append : String → String → String
append String.[] t = t
append (String.◌∷◌ c s) t = String.◌∷◌ c (append s t)

-- `",".join(names)`
unfoldable pub join : List String → String
join [] = String.[]
join (x ∷ []) = x
join (x ∷ y ∷ xs) = append x (append "," (join (y ∷ xs)))

abbrev pub is_comma : ℕ → Bool
is_comma c = c == b','

abbrev pub onto_first : (c : String → String) → List String → List String
onto_first c [] = c String.[] ∷ []
onto_first c (x ∷ xs) = c x ∷ xs

-- `text.split(",")`
unfoldable pub split : String → List String
split String.[] = String.[] ∷ []
split (String.◌∷◌ c s) =
    if is_comma (code c) then String.[] ∷ split s else onto_first (λ x. String.◌∷◌ c x) (split s)

-- What `str.strip` drops: the white space of Unicode and the separators of files, groups, records
-- and units.
abbrev pub is_space : ℕ → Bool
is_space c =
    c == 32
    || ((leb 9 c && leb c 13)
        || ((leb 28 c && leb c 31)
            || (c == 133
                || (c == 160
                    || (c == 5760
                        || ((leb 8192 c && leb c 8202)
                            || ((leb 8232 c && leb c 8233)
                                || (c == 8239 || (c == 8287 || c == 12288)))))))))

unfoldable pub strip_left : String → String
strip_left String.[] = String.[]
strip_left (String.◌∷◌ c s) = if is_space (code c) then strip_left s else String.◌∷◌ c s

abbrev pub is_empty : String → Bool
is_empty String.[] = true
is_empty (String.◌∷◌ c s) = false

-- White space is dropped at the end only: in front of what is left it stays.
unfoldable pub strip_right : String → String
strip_right String.[] = String.[]
strip_right (String.◌∷◌ c s) =
    let rest = strip_right s in
    if is_space (code c) && is_empty rest then String.[] else String.◌∷◌ c rest

-- `text.strip()`
unfoldable pub strip : String → String
strip s = strip_right (strip_left s)

unfoldable pub strip_all : List String → List String
strip_all [] = []
strip_all (x ∷ xs) = strip x ∷ strip_all xs

-- `",".join(event_types) if event_types else None`
abbrev pub joined : List String → Option String
joined [] = none
joined (x ∷ xs) = some (join (x ∷ xs))

abbrev pub joined_option : Option (List String) → Option String
joined_option none = none
joined_option (some xs) = joined xs

pub record EndpointCreate : Type 0 where
  pub url : String
  pub event_types : Option (List String)
  pub secret : Option String
  pub description : Option String

abbrev pub new_endpoint : ℕ → ℕ → EndpointCreate → WebhookEndpoint
new_endpoint id company_id body = record {
  id = id;
  company_id = company_id;
  url = body.url;
  event_types = joined_option body.event_types;
  secret = body.secret;
  description = body.description;
  is_active = true;
}

unfoldable pub create_endpoint : ℕ → EndpointCreate → State → WebhookEndpoint × State
create_endpoint company_id body s =
    let ep = new_endpoint s.next_id company_id body in
    (ep, record s { endpoints = ep ∷ s.endpoints; next_id = s.next_id + 1 })

abbrev pub of_company : ℕ → Option WebhookEndpoint → Option WebhookEndpoint
of_company company_id none = none
of_company company_id (some ep) = if ep.company_id == company_id then some ep else none

unfoldable pub get_endpoint : ℕ → ℕ → State → Option WebhookEndpoint
get_endpoint endpoint_id company_id s =
    of_company company_id (get WebhookEndpoint.id endpoint_id s.endpoints)

pub record EndpointUpdate : Type 0 where
  pub url : Option String
  pub event_types : Option (List String)
  pub secret : Option String
  pub description : Option String
  pub is_active : Option Bool

abbrev pub new_types : Option (List String) → Option String → Option String
new_types none old = old
new_types (some xs) old = joined xs

abbrev pub updated : EndpointUpdate → WebhookEndpoint → WebhookEndpoint
updated body ep = record ep {
  url = or_else body.url ep.url;
  event_types = new_types body.event_types ep.event_types;
  secret = or_keep body.secret ep.secret;
  description = or_keep body.description ep.description;
  is_active = or_else body.is_active ep.is_active;
}

abbrev pub update_found :
    EndpointUpdate → Option WebhookEndpoint → State → Option WebhookEndpoint × State
update_found body none s = (none, s)
update_found body (some ep) s = (
  some (updated body ep),
  record s { endpoints = replace WebhookEndpoint.id (updated body ep) s.endpoints },
)

unfoldable pub update_endpoint : ℕ → ℕ → EndpointUpdate → State → Option WebhookEndpoint × State
update_endpoint endpoint_id company_id body s =
    update_found body (get_endpoint endpoint_id company_id s) s

abbrev pub delete_found : ℕ → Option WebhookEndpoint → State → Bool × State
delete_found endpoint_id none s = (false, s)
delete_found endpoint_id (some ep) s =
    (true, record s { endpoints = delete WebhookEndpoint.id endpoint_id s.endpoints })

unfoldable pub delete_endpoint : ℕ → ℕ → State → Bool × State
delete_endpoint endpoint_id company_id s =
    delete_found endpoint_id (get_endpoint endpoint_id company_id s) s

-- What the POST to an endpoint comes to: a status code, or an exception.
pub data Response : Type 0 where
  answered : ℕ → Response
  post_raises : Response

-- `if ep.event_types:` the text is not empty.
abbrev pub wants : String → Option String → Bool
wants event none = true
wants event (some s) = is_empty s || elem_text event (strip_all (split s))

-- `resp.is_success`
abbrev pub is_success : ℕ → Bool
is_success n = leb 200 n && leb n 299

abbrev pub delivery_of : ℕ → ℕ → WebhookEndpoint → String → Response → WebhookDelivery
delivery_of now id ep event (answered n) = record {
  id = id;
  endpoint_id = ep.id;
  company_id = ep.company_id;
  event_type = event;
  status = if is_success n then success else failed;
  response_status = some n;
  delivered_at = some now;
}
delivery_of now id ep event post_raises = record {
  id = id;
  endpoint_id = ep.id;
  company_id = ep.company_id;
  event_type = event;
  status = failed;
  response_status = none;
  delivered_at = none;
}

module _ (answer : WebhookEndpoint → Response) (now : ℕ) where
  -- `_deliver`; the flushes that fail are ignored.
  abbrev pub deliver : WebhookEndpoint → String → State → State
  deliver ep event s = record s {
    deliveries = delivery_of now s.next_id ep event (answer ep) ∷ s.deliveries;
    next_id = s.next_id + 1;
  }

  unfoldable pub deliver_each : List WebhookEndpoint → String → State → State
  deliver_each [] event s = s
  deliver_each (ep ∷ eps) event s =
      deliver_each eps event (if wants event ep.event_types then deliver ep event s else s)

  unfoldable pub dispatch : ℕ → String → State → State
  dispatch company_id event s =
      deliver_each
        (select (λ (ep : WebhookEndpoint). (ep.company_id == company_id) && ep.is_active)
          s.endpoints)
        event s

-- The latest fifty of these are shown.
unfoldable pub list_deliveries : ℕ → ℕ → State → List WebhookDelivery
list_deliveries endpoint_id company_id s =
    select (λ (d : WebhookDelivery). (d.endpoint_id == endpoint_id) && (d.company_id == company_id))
      s.deliveries
