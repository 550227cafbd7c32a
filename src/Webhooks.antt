-- ===== src/Webhooks.antt =====
-- Outbound webhooks: the deliveries, their retries and the circuit breaker of
-- src/webhooks/webhooks.service.ts.
pub mod Url
pub mod Paused
pub mod Retries
mod Tests
use cimp.Prelude.{
  ℕ, zero, suc, ◌+◌, Bool, true, false, not, ◌&&◌, ◌||◌, List, [], ◌∷◌, ◌++◌, Option, none, some,
  ◌==◌, leb, ltb, if◌then◌else◌, or_else, any, map, select, is_some, holds_id,
}
use cimp.Prelude.Text.{Text, same_text}
use cimp.Domain.{Result, ok, err}
use cimp.Webhooks.Url.{ParsedUrl, assert_safe_url}

pub record WebhookEndpoint : Type 0 where
  pub id : ℕ
  pub platform : Option ℕ
  pub url : Text
  pub events : List Text
  pub enabled : Bool

-- RETRY_DELAYS_MS, MUTE_AFTER_FAILURES and MUTE_COOLDOWN_MS.
abbrev pub retry_delays : List ℕ
retry_delays = 2000 ∷ 8000 ∷ 30000 ∷ []

abbrev pub mute_after_failures : ℕ
mute_after_failures = 3

abbrev pub mute_cooldown : ℕ
mute_cooldown = 300000

pub record Health : Type 0 where
  pub failures : ℕ
  pub muted_until : ℕ

-- A delivery under way: the attempt that is sent next, at or after `due`.
pub record Attempt : Type 0 where
  pub endpoint : WebhookEndpoint
  pub event_name : Text
  pub body : Text
  pub try_idx : ℕ
  pub due : ℕ

-- The map of the service, and its attempts whose answer is to come.
pub record State : Type 0 where
  pub health : ℕ → Option Health
  pub attempts : List Attempt

-- The service as it is constructed.
abbrev pub idle : State
idle = record { health = λ id. none; attempts = [] }

-- `Map.set` and `Map.delete`.
pub set_health : ℕ → Option Health → (ℕ → Option Health) → ℕ → Option Health
set_health id h health k = if k == id then h else health k

-- The condition of the query, and the events that the endpoint wants.
pub wants : Text → ℕ → WebhookEndpoint → Bool
wants event platform ep =
    (ep.enabled && elim ep.platform [ none ↦ true | some p ↦ p == platform ])
    && elim ep.events [ [] ↦ true | e ∷ es ↦ any (λ x. same_text x event) (e ∷ es) ]

-- `state && state.mutedUntil > now`.
pub is_muted : ℕ → Option Health → Bool
is_muted now none = false
is_muted now (some h) = ltb now h.muted_until

pub first_attempt : Text → Text → ℕ → WebhookEndpoint → Attempt
first_attempt event body now ep = record {
  endpoint = ep;
  event_name = event;
  body = body;
  try_idx = 0;
  due = now;
}

-- The call of attempt, unless a `continue` came before it.
pub start : Bool → Attempt → State → State
start true a s = record s { attempts = s.attempts ++ a ∷ [] }
start false a s = s

-- The loop of deliver over the endpoints.
pub deliver : List WebhookEndpoint → Text → ℕ → Text → ℕ → State → State
deliver [] event platform body now s = s
deliver (ep ∷ eps) event platform body now s = deliver eps event platform body now (
    start (wants event platform ep && not (is_muted now (s.health ep.id)))
      (first_attempt event body now ep) s)

-- onDelivered.
pub on_delivered : WebhookEndpoint → State → State
on_delivered ep s = record s { health = set_health ep.id none s.health }

-- The entry of the map after one more exhausted delivery.
pub one_more_failure : ℕ → Option Health → Health
one_more_failure now old =
    let h = or_else old (record { failures = 0; muted_until = 0 }) in
    if leb mute_after_failures (h.failures + 1)
    then record { failures = h.failures + 1; muted_until = now + mute_cooldown }
    else record h { failures = h.failures + 1 }

-- onExhausted.
pub on_exhausted : ℕ → WebhookEndpoint → State → State
on_exhausted now ep s = record s {
  health = set_health ep.id (some (one_more_failure now (s.health ep.id))) s.health;
}

-- The delay before the try after the one with the index, if there is one.
pub delay_after : ℕ → List ℕ → Option ℕ
delay_after i [] = none
delay_after zero (d ∷ ds) = some d
delay_after (suc i) (d ∷ ds) = delay_after i ds

-- send: whether it succeeds. `status` is the answer of the receiver, if one came in time.
pub send : (Text → Option ParsedUrl) → (Text → Text) → WebhookEndpoint → Option ℕ → Bool
send parse lower ep status = elim (assert_safe_url parse lower ep.url) [
  | err e ↦ false
  | ok done ↦ elim status [ none ↦ false | some code ↦ leb 200 code && leb code 299 ]
]

-- What follows the attempt `a` that failed at the time `now`: the next one, or the end.
pub retry : ℕ → Attempt → Option ℕ → State → State
retry now a none s = on_exhausted now a.endpoint s
retry now a (some delay) s = record s {
  attempts = s.attempts ++ record a { try_idx = a.try_idx + 1; due = now + delay } ∷ [];
}

-- The two callbacks of attempt.
pub settle : ℕ → Attempt → Bool → State → State
settle now a true s = on_delivered a.endpoint s
settle now a false s = retry now a (delay_after a.try_idx retry_delays) s

-- The attempt at a place of the list, and the others.
pub pick : ℕ → List Attempt → Option (Attempt × List Attempt)
pick i [] = none
pick zero (a ∷ rest) = some (a, rest)
pick (suc i) (a ∷ rest) = elim (pick i rest) [ none ↦ none | some (b, bs) ↦ some (b, a ∷ bs) ]

-- What happens to the service: an event for a platform, over the endpoints that there are, or the
-- answer to the attempt at a place of the list.
pub data Input : Type 0 where
  event : List WebhookEndpoint → Text → ℕ → Text → ℕ → Input
  answer : ℕ → ℕ → Option ℕ → Input

module _ (parse : Text → Option ParsedUrl) (lower : Text → Text) where
  pub answered : ℕ → Option ℕ → Option (Attempt × List Attempt) → State → State
  answered now status none s = s
  answered now status (some (a, rest)) s =
      settle now a (send parse lower a.endpoint status) (record s { attempts = rest })

  pub step : Input → State → State
  step (event eps name platform body now) s = deliver eps name platform body now s
  step (answer i now status) s = answered now status (pick i s.attempts) s

  unfoldable pub run : List Input → State → State
  unfolding step answered settle retry deliver start wants is_muted set_health on_delivered
      on_exhausted one_more_failure delay_after send pick first_attempt assert_safe_url
  run [] s = s
  run (x ∷ xs) s = run xs (step x s)
