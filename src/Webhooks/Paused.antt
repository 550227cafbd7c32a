-- ===== src/Webhooks/Paused.antt =====
-- The circuit breaker of src/webhooks/webhooks.service.ts against the history of its deliveries.
use mathlib.Core.Path.{subst}
use cimp.Prelude.{
  ℕ, ◌+◌, Bool, true, false, not, ◌&&◌, List, [], ◌∷◌, ◌++◌, ◌≡◌, refl, sym, ap, ◌∙◌, Option, none,
  some, ◌==◌, leb, ltb, if◌then◌else◌, map, select, arith, inl, inr, Bool-cases,
}
use cimp.Prelude.Text.{Text}
use cimp.Webhooks.{
  WebhookEndpoint, retry_delays, mute_after_failures, mute_cooldown, Health, Attempt, State,
  set_health, wants, is_muted, first_attempt, start, idle, deliver, on_delivered, one_more_failure,
  on_exhausted, delay_after, send, settle, retry, answered, pick, Input, event, answer, step, run,
}
use cimp.Webhooks.Url.{ParsedUrl}

-- The end of a delivery: it succeeded, or its last retry failed at a time.
pub data Outcome : Type 0 where
  delivered : ℕ → Outcome
  exhausted : ℕ → ℕ → Outcome

-- The exhausted deliveries to the endpoint `id` since the last one that succeeded, newest first.
abbrev pub streak : ℕ → List Outcome → ℕ
streak id [] = 0
streak id (delivered k ∷ os) = if id == k then 0 else streak id os
streak id (exhausted k t ∷ os) = let rest = streak id os in if id == k then rest + 1 else rest

abbrev pub last_exhausted : ℕ → List Outcome → ℕ
last_exhausted id [] = 0
last_exhausted id (delivered k ∷ os) = last_exhausted id os
last_exhausted id (exhausted k t ∷ os) = if id == k then t else last_exhausted id os

-- The endpoint has failed three times in a row, the last time less than five minutes ago.
abbrev pub is_paused : ℕ → ℕ → List Outcome → Bool
is_paused now id os =
    leb mute_after_failures (streak id os) && ltb now (last_exhausted id os + mute_cooldown)

-- What an answer to the attempt `a` ends.
abbrev ending_failed : ℕ → Attempt → Option ℕ → List Outcome → List Outcome
ending_failed now a none os = exhausted a.endpoint.id now ∷ os
ending_failed now a (some delay) os = os

abbrev ending : ℕ → Attempt → Bool → List Outcome → List Outcome
ending now a true os = delivered a.endpoint.id ∷ os
ending now a false os = ending_failed now a (delay_after a.try_idx retry_delays) os

-- What is in the map for an endpoint after a history.
abbrev entry : ℕ → List Outcome → Option Health
entry id os =
    if streak id os == 0
    then none
    else some (record {
      failures = streak id os;
      muted_until =
          if leb mute_after_failures (streak id os)
          then last_exhausted id os + mute_cooldown
          else 0;
    })

abbrev IsHealthOf : State → List Outcome → Type 0
IsHealthOf s os = (id : ℕ) → s.health id ≡ entry id os

is_muted-entry : (now id : ℕ) (os : List Outcome) → is_muted now (entry id os) ≡ is_paused now id os
unfolding is_muted
is_muted-entry now id os = ground arith

on_exhausted-IsHealthOf :
    (now : ℕ) (ep : WebhookEndpoint) (s : State) (os : List Outcome)
    → IsHealthOf s os
    → IsHealthOf (on_exhausted now ep s) (exhausted ep.id now ∷ os)
unfolding on_exhausted set_health one_more_failure
on_exhausted-IsHealthOf now ep s os h id = elim (Bool-cases (id == ep.id)) [
  | inl here ↦
      let same : ep.id ≡ id = ground (arith, here) in
      ground (arith, here, subst (λ k. s.health ep.id ≡ entry k os) same (h ep.id))
  | inr other ↦ ground (arith, other, h id)
]

retry-IsHealthOf :
    (now : ℕ) (a : Attempt) (delay : Option ℕ) (s : State) (os : List Outcome)
    → IsHealthOf s os
    → IsHealthOf (retry now a delay s) (ending_failed now a delay os)
unfolding retry
retry-IsHealthOf now a none s os h = on_exhausted-IsHealthOf now a.endpoint s os h
retry-IsHealthOf now a (some delay) s os h = h

settle-IsHealthOf :
    (now : ℕ) (a : Attempt) (sent : Bool) (s : State) (os : List Outcome)
    → IsHealthOf s os
    → IsHealthOf (settle now a sent s) (ending now a sent os)
unfolding settle on_delivered set_health
settle-IsHealthOf now a true s os h id = ground (arith, h id)
settle-IsHealthOf now a false s os h id =
    retry-IsHealthOf now a (delay_after a.try_idx retry_delays) s os h id

start-health : (b : Bool) (a : Attempt) (s : State) → (start b a s).health ≡ s.health
unfolding start
start-health true a s = refl
start-health false a s = refl

deliver-health :
    (eps : List WebhookEndpoint) (name : Text) (platform : ℕ) (body : Text) (now : ℕ) (s : State)
    → (deliver eps name platform body now s).health ≡ s.health
unfolding deliver
deliver-health [] name platform body now s = refl
deliver-health (ep ∷ eps) name platform body now s =
    deliver-health eps name platform body now _
    ∙ start-health (wants name platform ep && not (is_muted now (s.health ep.id)))
        (first_attempt name body now ep) s

module _ (parse : Text → Option ParsedUrl) (lower : Text → Text) where
  abbrev ended : ℕ → Option ℕ → Option (Attempt × List Attempt) → List Outcome → List Outcome
  ended now status none os = os
  ended now status (some (a, rest)) os = ending now a (send parse lower a.endpoint status) os

  -- The ends of deliveries in a run, newest first, before those that are known.
  abbrev pub history : List Input → State → List Outcome → List Outcome
  history [] s os = os
  history (event eps name platform body now ∷ xs) s os =
      history xs (step parse lower (event eps name platform body now) s) os
  history (answer i now status ∷ xs) s os =
      history xs (step parse lower (answer i now status) s)
        (ended now status (pick i s.attempts) os)

  answered-IsHealthOf :
      (now : ℕ) (status : Option ℕ) (p : Option (Attempt × List Attempt)) (s : State)
      (os : List Outcome)
      → IsHealthOf s os
      → IsHealthOf (answered parse lower now status p s) (ended now status p os)
  unfolding answered
  answered-IsHealthOf now status none s os h = h
  answered-IsHealthOf now status (some (a, rest)) s os h =
      settle-IsHealthOf now a (send parse lower a.endpoint status) (record s { attempts = rest }) os
        h

  run-IsHealthOf :
      (xs : List Input) (s : State) (os : List Outcome)
      → IsHealthOf s os
      → IsHealthOf (run parse lower xs s) (history xs s os)
  unfolding run
  run-IsHealthOf [] s os h = h
  run-IsHealthOf (event eps name platform body now ∷ xs) s os h =
      run-IsHealthOf xs (deliver eps name platform body now s) os
        (λ id. ap (λ f. f id) (deliver-health eps name platform body now s) ∙ h id)
  run-IsHealthOf (answer i now status ∷ xs) s os h =
      run-IsHealthOf xs (answered parse lower now status (pick i s.attempts) s)
        (ended now status (pick i s.attempts) os)
        (answered-IsHealthOf now status (pick i s.attempts) s os h)

append_assoc : (xs ys zs : List Attempt) → (xs ++ ys) ++ zs ≡ xs ++ (ys ++ zs)
append_assoc [] ys zs = refl
append_assoc (x ∷ xs) ys zs = ap (λ r. x ∷ r) (append_assoc xs ys zs)

append_nil : (xs : List Attempt) → xs ++ [] ≡ xs
append_nil [] = refl
append_nil (x ∷ xs) = ap (λ r. x ∷ r) (append_nil xs)

start-attempts :
    (b : Bool) (a : Attempt) (s : State)
    → (start b a s).attempts ≡ (if b then s.attempts ++ a ∷ [] else s.attempts)
unfolding start
start-attempts true a s = refl
start-attempts false a s = refl

offered :
    (go : Bool) (xs : List Attempt) (f : WebhookEndpoint → Attempt) (ep : WebhookEndpoint)
    (eps : List WebhookEndpoint)
    → (if go then xs ++ f ep ∷ [] else xs) ++ map f eps ≡ xs ++ map f (if go then ep ∷ eps else eps)
offered true xs f ep eps = append_assoc xs (f ep ∷ []) (map f eps)
offered false xs f ep eps = refl

deliver-attempts :
    (eps : List WebhookEndpoint) (name : Text) (platform : ℕ) (body : Text) (now : ℕ) (s : State)
    (os : List Outcome)
    → IsHealthOf s os
    → (deliver eps name platform body now s).attempts
      ≡ s.attempts
        ++ map
            (first_attempt name body now)
            (select (λ ep. wants name platform ep && not (is_paused now ep.id os)) eps)
unfolding deliver
deliver-attempts [] name platform body now s os h = sym (append_nil s.attempts)
deliver-attempts (ep ∷ eps) name platform body now s os h =
    let go = wants name platform ep && not (is_muted now (s.health ep.id)) in
    let new = first_attempt name body now ep in
    let muted : is_muted now (s.health ep.id) ≡ is_paused now ep.id os =
      ap (is_muted now) (h ep.id) ∙ is_muted-entry now ep.id os in
    deliver-attempts eps name platform body now (start go new s) os
      (λ id. ap (λ f. f id) (start-health go new s) ∙ h id)
    ∙ ap
        (λ xs.
          xs
          ++ map (first_attempt name body now)
              (select (λ ep. wants name platform ep && not (is_paused now ep.id os)) eps))
        (start-attempts go new s)
    ∙ offered go s.attempts (first_attempt name body now) ep
        (select (λ ep. wants name platform ep && not (is_paused now ep.id os)) eps)
    ∙ ap
        (λ m.
          s.attempts
          ++ map (first_attempt name body now) (
              if wants name platform ep && not m
              then ep ∷ select (λ ep. wants name platform ep && not (is_paused now ep.id os)) eps
              else select (λ ep. wants name platform ep && not (is_paused now ep.id os)) eps))
        muted

-- An event makes a first attempt at exactly those endpoints that want it and are not paused, in
-- their order, after whatever deliveries and answers in whatever order since the start: an endpoint
-- is paused if its last three deliveries or more have all failed after their retries, the last of
-- them less than five minutes ago.
pub deliver-run :
    (parse : Text → Option ParsedUrl) (lower : Text → Text) (xs : List Input)
    (eps : List WebhookEndpoint) (name : Text) (platform : ℕ) (body : Text) (now : ℕ)
    → (deliver eps name platform body now (run parse lower xs idle)).attempts
      ≡ (run parse lower xs idle).attempts
        ++ map (first_attempt name body now) (
            select
              (λ ep.
                wants name platform ep
                && not (is_paused now ep.id (history parse lower xs idle [])))
              eps)
deliver-run parse lower xs eps name platform body now =
    deliver-attempts eps name platform body now (run parse lower xs idle)
      (history parse lower xs idle []) (run-IsHealthOf parse lower xs idle [] (λ id. refl))
