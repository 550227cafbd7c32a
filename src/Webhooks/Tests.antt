-- ===== src/Webhooks/Tests.antt =====
-- Webhooks at concrete addresses and events (src/webhooks/webhooks.service.ts).
use cimp.Prelude.{
  ℕ, ◌*◌, ◌≤◌, true, not, ◌&&◌, List, [], ◌∷◌, ◌++◌, ◌≡◌, refl, Option, none, some, length, map,
  select, arith, if◌then◌else◌,
}
use cimp.Prelude.Text.{Text, codes}
use cimp.Domain.{err, ok, bad_request, private_address}
use cimp.Webhooks.{
  WebhookEndpoint, State, idle, wants, first_attempt, deliver, Input, event, answer, run,
}
use cimp.Webhooks.Paused.{is_paused, history, deliver-run}
use cimp.Webhooks.Retries.{AreAnswers, answers_end, probes, run-probes}
use cimp.Webhooks.Url.{ParsedUrl, assert_safe_url}
use cimp.Webhooks.Url.Ipv4.{is_reserved, assert_safe_url-dotted}

abbrev parse : Text → Option ParsedUrl
parse url = some (record { protocol = codes "https:"; hostname = url })

abbrev plain : Text → Text
plain s = s

assert_safe_url-dotted_example :
    assert_safe_url parse plain (codes "172.31.0.5")
    ≡ (if is_reserved 172 31 0 5 then err (bad_request private_address) else ok tt)
assert_safe_url-dotted_example =
    assert_safe_url-dotted 172 31 0 5 (omega arith) (omega arith) (omega arith) (omega arith) parse
      plain (codes "172.31.0.5") refl refl

abbrev hook : WebhookEndpoint
hook = record {
  id = 3;
  platform = some 7;
  url = codes "hooks.example";
  events = [];
  enabled = true;
}

abbrev ping : ℕ → Input
ping now = event (hook ∷ []) (codes "issue.created") 7 (codes "{}") now

-- Three deliveries, each of which fails four times.
abbrev failing : List Input
failing =
    let four = answer 0 50 none ∷ answer 0 60 none ∷ answer 0 70 none ∷ answer 0 80 none ∷ [] in
    (ping 40 ∷ four) ++ ((ping 40 ∷ four) ++ (ping 40 ∷ four))

deliver-run_example :
    (deliver
      (hook ∷ [])
      (codes "issue.created")
      7
      (codes "{}")
      90
      (run parse plain failing idle)).attempts
    ≡ (run parse plain failing idle).attempts
      ++ map (first_attempt (codes "issue.created") (codes "{}") 90) (
          select
            (λ ep.
              wants (codes "issue.created") 7 ep
              && not (is_paused 90 ep.id (history parse plain failing idle [])))
            (hook ∷ []))
deliver-run_example =
    deliver-run parse plain failing (hook ∷ []) (codes "issue.created") 7 (codes "{}") 90

-- After the third failure at 80 the endpoint is muted for five minutes.
failing_mutes :
    (run parse plain failing idle).health 3 ≡ some (record { failures = 3; muted_until = 300080 })
unfolding run
failing_mutes = refl

abbrev one_sent : State
one_sent = record {
  health = λ id. none;
  attempts = first_attempt (codes "issue.created") (codes "{}") 40 hook ∷ [];
}

abbrev four_failures : List Input
four_failures =
    answer 0 50 none ∷ answer 0 60 (some 500) ∷ answer 0 70 (some 302) ∷ answer 0 80 none ∷ []

four_failures-AreAnswers : AreAnswers parse plain four_failures one_sent
unfolding run
four_failures-AreAnswers = (refl, (refl, (refl, (refl, tt))))

answers_end_example : length four_failures ≤ 4 * length one_sent.attempts
answers_end_example = answers_end parse plain four_failures one_sent four_failures-AreAnswers

-- The pause is over at 300080.
abbrev once_muted : State
once_muted = record {
  health = λ id. some (record { failures = 3; muted_until = 300080 });
  attempts = [];
}

abbrev after_pause : List Input
after_pause =
    ping 300080
    ∷ event (hook ∷ []) (codes "issue.resolved") 7 (codes "[]") 300081
    ∷ ping 300082
    ∷ []

run-probes_example :
    run parse plain after_pause once_muted
    ≡ record once_muted { attempts = probes once_muted.health after_pause }
run-probes_example = run-probes parse plain after_pause once_muted tt

-- Three first attempts, though the endpoint has not answered one.
probes_all : length (probes once_muted.health after_pause) ≡ 3
unfolding run
probes_all = refl

-- A name with the root's dot is let through.
localhost_dot : assert_safe_url parse plain (codes "localhost.") ≡ ok tt
unfolding assert_safe_url
localhost_dot = refl
