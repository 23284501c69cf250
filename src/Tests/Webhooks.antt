-- ===== src/Tests/Webhooks.antt =====
-- Two endpoints of a company, of which one wants runs only.
use kaats_v.Base.{◌+◌, ◌≡◌, refl, if◌then◌else◌, ◌==◌, true, some, none, [], ◌∷◌, count}
use kaats_v.Memory.{elem_text}
use kaats_v.Webhooks.{
  strip_right, strip_left, WebhookEndpoint, State, Response, answered, post_raises, join, joined,
  split, strip, wants, dispatch,
}
use kaats_v.Webhooks.Events.{wants-joined}
use kaats_v.Webhooks.Delivery.{takes, to_endpoint, dispatch-deliveries}

abbrev chat : WebhookEndpoint
chat = record {
  id = 1;
  company_id = 20;
  url = "https://chat/hook";
  event_types = some "run.done,run.failed";
  secret = none;
  description = none;
  is_active = true;
}

abbrev log : WebhookEndpoint
log = record chat { id = 2; event_types = none }

abbrev registered : State
registered = record { endpoints = chat ∷ log ∷ []; deliveries = []; next_id = 3 }

-- The chat is down.
abbrev answer : WebhookEndpoint → Response
answer ep = if ep.id == 1 then post_raises else answered 200

wants-joined_example :
    (split (join ("run.done" ∷ "run.failed" ∷ [])) ≡ "run.done" ∷ "run.failed" ∷ [])
    × (wants "run.failed" (joined ("run.done" ∷ "run.failed" ∷ []))
        ≡ elem_text "run.failed" ("run.done" ∷ "run.failed" ∷ []))
unfolding strip strip_right strip_left
wants-joined_example =
    wants-joined "run.failed" "run.done" ("run.failed" ∷ [])
      ((refl, refl, refl), ((refl, refl, refl), tt))

dispatch-deliveries_example :
    let s' = dispatch answer 60 20 "run.failed" registered in
    (count (to_endpoint 1) s'.deliveries
      ≡ count (takes 1 20 "run.failed") registered.endpoints
        + count (to_endpoint 1) registered.deliveries)
    × (s'.endpoints ≡ registered.endpoints)
dispatch-deliveries_example = dispatch-deliveries answer 60 1 20 "run.failed" registered
