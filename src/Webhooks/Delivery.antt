-- ===== src/Webhooks/Delivery.antt =====
-- To which endpoints an event is delivered.
use kaats_v.Base.{ℕ, ◌+◌, ◌≡◌, refl, Bool, ◌&&◌, List, [], ◌∷◌, String, arith, ◌==◌, select, count}
use kaats_v.Webhooks.{
  WebhookEndpoint, WebhookDelivery, State, Response, wants, deliver, deliver_each, dispatch,
}

-- An endpoint with the id that takes the event of the company.
abbrev pub takes : ℕ → ℕ → String → WebhookEndpoint → Bool
takes i company event ep =
    (ep.id == i) && (((ep.company_id == company) && ep.is_active) && wants event ep.event_types)

abbrev pub to_endpoint : ℕ → WebhookDelivery → Bool
to_endpoint i d = d.endpoint_id == i

module _ (answer : WebhookEndpoint → Response) (now : ℕ) where
  deliver_each-count :
      (i : ℕ) (event : String) (eps : List WebhookEndpoint) (s : State)
      → count (to_endpoint i) (deliver_each answer now eps event s).deliveries
        ≡ count (λ ep. (ep.id == i) && wants event ep.event_types) eps
          + count (to_endpoint i) s.deliveries
  unfolding deliver_each count
  deliver_each-count i event [] s = omega arith
  deliver_each-count i event (ep ∷ eps) s = ground (
    arith,
    deliver_each-count i event eps s,
    deliver_each-count i event eps (deliver answer now ep event s),
  )

count-select :
    (i company : ℕ) (event : String) (eps : List WebhookEndpoint)
    → count
        (λ ep. (ep.id == i) && wants event ep.event_types)
        (select (λ ep. (ep.company_id == company) && ep.is_active) eps)
      ≡ count (takes i company event) eps
unfolding select count
count-select i company event [] = refl
count-select i company event (ep ∷ eps) = ground (arith, count-select i company event eps)

module _ (answer : WebhookEndpoint → Response) (now : ℕ) where
  deliver_each-endpoints :
      (event : String) (eps : List WebhookEndpoint) (s : State)
      → (deliver_each answer now eps event s).endpoints ≡ s.endpoints
  unfolding deliver_each
  deliver_each-endpoints event [] s = refl
  deliver_each-endpoints event (ep ∷ eps) s = ground (
    arith,
    deliver_each-endpoints event eps s,
    deliver_each-endpoints event eps (deliver answer now ep event s),
  )

  -- However the servers answer, an event adds one delivery for each endpoint of the company that is
  -- active and wants it, and none for any other; the endpoints stay as they are.
  pub dispatch-deliveries :
      (i company : ℕ) (event : String) (s : State)
      → let s' = dispatch answer now company event s in
        (count (to_endpoint i) s'.deliveries
          ≡ count (takes i company event) s.endpoints + count (to_endpoint i) s.deliveries)
        × (s'.endpoints ≡ s.endpoints)
  unfolding dispatch
  dispatch-deliveries i company event s =
      let active =
        select (λ (ep : WebhookEndpoint). (ep.company_id == company) && ep.is_active) s.endpoints in
      (
        omega (
          arith,
          deliver_each-count answer now i event active s,
          count-select i company event s.endpoints,
        ),
        deliver_each-endpoints event active s,
      )
