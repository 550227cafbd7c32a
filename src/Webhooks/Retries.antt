-- ===== src/Webhooks/Retries.antt =====
-- The retries of src/webhooks/webhooks.service.ts, and what follows a pause.
use mathlib.Core.List.{append_assoc, append-nil}
use cimp.Prelude.{
  ℕ, zero, suc, ◌+◌, ◌-◌, ◌*◌, ◌≤◌, Bool, true, false, List, [], ◌∷◌, ◌++◌, ◌≡◌, refl, ap, ◌∙◌,
  Bool-cases, not, ◌&&◌, leb, map, select, Option, none, some, length, is_some, arith, inl, inr,
  Option-cases,
}
use cimp.Prelude.Text.{Text}
use cimp.Webhooks.{
  WebhookEndpoint, Health, retry_delays, Attempt, State, wants, is_muted, first_attempt, start,
  deliver, on_delivered, on_exhausted, delay_after, send, retry, settle, pick, Input, event, answer,
  answered, step, run,
}
use cimp.Webhooks.Url.{ParsedUrl}

-- How often an attempt with the index can still be answered, and the attempts of a list together.
abbrev tries_left : ℕ → ℕ
tries_left i = (3 - i) + 1

abbrev budget : List Attempt → ℕ
budget [] = 0
budget (a ∷ rest) = tries_left a.try_idx + budget rest

budget-append : (xs ys : List Attempt) → budget (xs ++ ys) ≡ budget xs + budget ys
budget-append [] ys = omega arith
budget-append (x ∷ xs) ys = omega (arith, budget-append xs ys)

budget-length : (xs : List Attempt) → budget xs ≤ 4 * length xs
budget-length [] = omega arith
budget-length (x ∷ xs) = omega (arith, budget-length xs)

pick-budget :
    (i : ℕ) (xs : List Attempt) (a : Attempt) (rest : List Attempt)
    → pick i xs ≡ some (a, rest)
    → budget xs ≡ tries_left a.try_idx + budget rest
unfolding pick
pick-budget i [] a rest h = absurd (cc h)
pick-budget zero (x ∷ xs) a rest h = ground (arith, h)
pick-budget (suc i) (x ∷ xs) a rest h = elim (Option-cases (pick i xs)) [
  | inl absent ↦ absurd (ground (arith, h, absent))
  | inr ((b, bs), there) ↦ ground (arith, h, there, pick-budget i xs b bs there)
]

delay_after_small : (i d : ℕ) → delay_after i retry_delays ≡ some d → i ≤ 2
unfolding delay_after
delay_after_small zero d h = omega arith
delay_after_small (suc zero) d h = omega arith
delay_after_small (suc (suc zero)) d h = omega arith
delay_after_small (suc (suc (suc i))) d h = absurd (cc h)

retry-budget :
    (now : ℕ) (a : Attempt) (delay : Option ℕ) (s : State)
    → ((d : ℕ) → delay ≡ some d → a.try_idx ≤ 2)
    → budget (retry now a delay s).attempts + 1 ≤ tries_left a.try_idx + budget s.attempts
unfolding retry on_exhausted
retry-budget now a none s small = omega arith
retry-budget now a (some d) s small = omega (
  arith,
  small d refl,
  budget-append s.attempts (record a { try_idx = a.try_idx + 1; due = now + d } ∷ []),
)

settle-budget :
    (now : ℕ) (a : Attempt) (sent : Bool) (s : State)
    → budget (settle now a sent s).attempts + 1 ≤ tries_left a.try_idx + budget s.attempts
unfolding settle on_delivered
settle-budget now a true s = omega arith
settle-budget now a false s =
    retry-budget now a (delay_after a.try_idx retry_delays) s (delay_after_small a.try_idx)

module _ (parse : Text → Option ParsedUrl) (lower : Text → Text) where
  answered-budget :
      (now : ℕ) (status : Option ℕ) (i : ℕ) (p : Option (Attempt × List Attempt)) (s : State)
      → pick i s.attempts ≡ p
      → is_some p ≡ true
      → budget (answered parse lower now status p s).attempts + 1 ≤ budget s.attempts
  unfolding answered
  answered-budget now status i none s e h = absurd (cc h)
  answered-budget now status i (some (a, rest)) s e h = omega (
    arith,
    pick-budget i s.attempts a rest e,
    settle-budget now a (send parse lower a.endpoint status) (record s { attempts = rest }),
  )

  -- Answers only, each to an attempt that is under way.
  abbrev pub AreAnswers : List Input → State → Type 0
  AreAnswers [] s = Unit {0}
  AreAnswers (event eps name platform body now ∷ xs) s = ⊥
  AreAnswers (answer i now status ∷ xs) s =
      (is_some (pick i s.attempts) ≡ true)
      × AreAnswers xs (step parse lower (answer i now status) s)

  answers_budget : (xs : List Input) (s : State) → AreAnswers xs s → length xs ≤ budget s.attempts
  unfolding step
  answers_budget [] s h = omega arith
  answers_budget (event eps name platform body now ∷ xs) s h = absurd h
  answers_budget (answer i now status ∷ xs) s (h, hs) = omega (
    arith,
    answered-budget now status i (pick i s.attempts) s refl h,
    answers_budget xs (answered parse lower now status (pick i s.attempts) s) hs,
  )

  -- Deliveries end: while no event comes, the receivers are asked at most four times for each
  -- attempt that is under way, whatever they answer and in whatever order.
  pub answers_end :
      (xs : List Input) (s : State) → AreAnswers xs s → length xs ≤ 4 * length s.attempts
  answers_end xs s h = omega (arith, answers_budget xs s h, budget-length s.attempts)

-- The time has reached the one up to which the entry mutes, if there is one.
abbrev pub is_over : ℕ → Option Health → Bool
is_over now none = true
is_over now (some h) = leb h.muted_until now

-- The first attempts for the events of a list, for each the endpoints that want it and whose entry
-- does not mute at its time.
abbrev pub probes : (ℕ → Option Health) → List Input → List Attempt
probes health [] = []
probes health (event eps name platform body now ∷ xs) =
    map (first_attempt name body now)
      (select (λ ep. wants name platform ep && is_over now (health ep.id)) eps)
    ++ probes health xs
probes health (answer i now status ∷ xs) = probes health xs

abbrev pub AreEvents : List Input → Type 0
AreEvents [] = Unit {0}
AreEvents (event eps name platform body now ∷ xs) = AreEvents xs
AreEvents (answer i now status ∷ xs) = ⊥

is_muted-is_over : (now : ℕ) (h : Option Health) → not (is_muted now h) ≡ is_over now h
unfolding is_muted
is_muted-is_over now none = refl
is_muted-is_over now (some h) = ground arith

deliver-probes :
    (eps : List WebhookEndpoint) (name : Text) (platform : ℕ) (body : Text) (now : ℕ) (s : State)
    → deliver eps name platform body now s ≡ record s {
      attempts =
          s.attempts
          ++ map
              (first_attempt name body now)
              (select (λ ep. wants name platform ep && is_over now (s.health ep.id)) eps);
    }
unfolding deliver start
deliver-probes [] name platform body now s = rw (append-nil s.attempts) refl
deliver-probes (ep ∷ eps) name platform body now s =
    rw (is_muted-is_over now (s.health ep.id))
      (elim (Bool-cases (wants name platform ep && is_over now (s.health ep.id))) [
        | inl goes ↦ rw goes (
            deliver-probes eps name platform body now _
            ∙ ap (λ xs. record s { attempts = xs })
                (append_assoc s.attempts (first_attempt name body now ep ∷ []) _))
        | inr stays ↦ rw stays (deliver-probes eps name platform body now s)
      ])

-- A pause that is over lets every event through, and not one probe alone. While only events come,
-- and so no delivery ends, the health of the endpoints stays as it is, and each event adds a first
-- attempt for every endpoint that wants it and whose entry, if there is one, mutes up to a time that
-- has come.
pub run-probes :
    (parse : Text → Option ParsedUrl) (lower : Text → Text) (xs : List Input) (s : State)
    → AreEvents xs
    → run parse lower xs s ≡ record s { attempts = s.attempts ++ probes s.health xs }
unfolding run
run-probes parse lower [] s h = rw (append-nil s.attempts) refl
run-probes parse lower (event eps name platform body now ∷ xs) s h =
    ap (run parse lower xs) (deliver-probes eps name platform body now s)
    ∙ (run-probes parse lower xs _ h
        ∙ ap (λ zs. record s { attempts = zs }) (append_assoc s.attempts _ (probes s.health xs)))
run-probes parse lower (answer i now status ∷ xs) s h = absurd h
