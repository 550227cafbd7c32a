-- ===== src/StatusPage/Public/Banner.antt =====
-- The banner of the public page: `overallStatus` of src/status/status.service.ts.
use cimp.Prelude.{
  ℕ, String, select, map, ◌≤◌, ◌≡◌, ◌≢◌, ◌↔◌, ◌∙◌, refl, ◌⊎◌, inl, inr, Bool, true, ◌&&◌, List, [],
  ◌∷◌, ◌==◌, ltb, if◌then◌else◌, any, All, All-mono, arith, Bool-cases,
}
use mathlib.Core.Path.{subst}
use cimp.Domain.{ok, found, not_found, unknown_platform}
use cimp.Domain.Results.{>>=-eq-ok}
use cimp.StatusPage.Rows.{
  ComponentStatus, operational, maintenance, degraded, partial_outage, major_outage, Platform,
  StatusComponent, StatusIncident, Board,
}
use cimp.StatusPage.Public.{
  severity, worst_from, is_operational, overall_status, IncidentView, PublicStatus, component_view,
  is_active, with_key, load_components, recent, incident_view, page_from, page_of, public_status,
}

worst_from-ge :
    (acc : ComponentStatus) (cs : List StatusComponent)
    → (severity acc ≤ severity (worst_from acc cs))
      × All (λ c. severity c.status ≤ severity (worst_from acc cs)) cs
unfolding worst_from
worst_from-ge acc [] = (omega arith, tt)
worst_from-ge acc (c ∷ cs) =
    let (above, each) =
      worst_from-ge (if ltb (severity acc) (severity c.status) then c.status else acc) cs in
    (ground (arith, above), (ground (arith, above), each))

worst_from_attained :
    (acc : ComponentStatus) (cs : List StatusComponent)
    → (worst_from acc cs ≡ acc)
      ⊎ (any (λ c. severity c.status == severity (worst_from acc cs)) cs ≡ true)
unfolding worst_from
worst_from_attained acc [] = inl refl
worst_from_attained acc (c ∷ cs) =
    elim (worst_from_attained (if ltb (severity acc) (severity c.status) then c.status else acc)
      cs) [
        | inl same ↦ elim (Bool-cases (ltb (severity acc) (severity c.status))) [
          | inl worse ↦ inr (ground (arith, worse, same))
          | inr better ↦ inl (ground (arith, better, same))
        ]
        | inr there ↦ inr (ground (arith, there))
      ]

All-views :
    (bound : ComponentStatus → Type 0) (cs : List StatusComponent)
    → All (λ c. bound c.status) cs
    → All (λ c. bound c.status) (map component_view cs)
All-views bound [] h = tt
All-views bound (c ∷ cs) (h, hs) = (h, All-views bound cs hs)

any-views :
    (test : ComponentStatus → Bool) (cs : List StatusComponent)
    → any (λ c. test c.status) (map component_view cs) ≡ any (λ c. test c.status) cs
any-views test [] = refl
any-views test (c ∷ cs) = rw (any-views test cs) refl

listed_active :
    (view : StatusIncident → IncidentView) (is : List StatusIncident)
    → (any is_active is ≡ true) ↔ (map view (select is_active is) ≢ [])
listed_active view [] = (λ h. absurd (cc h), λ h. absurd (h refl))
listed_active view (i ∷ is) = elim (Bool-cases (is_active i)) [
  | inl live ↦ rw live (λ h e. cc e, λ h. refl)
  | inr over ↦ rw over (listed_active view is)
]

-- A banner that is at least as severe as each component that the page lists, is not `operational`
-- while the page lists an active incident, and is no more than that asks for.
pub record IsHonest (page : PublicStatus) : Type 0 where
  pub worst : All (λ c. severity c.status ≤ severity page.overall) page.components
  pub troubled : page.active_incidents ≢ [] → page.overall ≢ operational
  pub attained :
      (any (λ c. severity c.status == severity page.overall) page.components ≡ true)
      ⊎ ((page.overall ≡ operational)
          ⊎ ((page.overall ≡ degraded)
              × All (λ c. c.status ≡ operational) page.components
              × (page.active_incidents ≢ [])))

severity_zero : (s : ComponentStatus) → severity s ≤ 0 → s ≡ operational
severity_zero operational h = refl
severity_zero maintenance h = absurd (omega (arith, h))
severity_zero degraded h = absurd (omega (arith, h))
severity_zero partial_outage h = absurd (omega (arith, h))
severity_zero major_outage h = absurd (omega (arith, h))

page_from-IsHonest :
    (now : ℕ) (p : Platform) (cs : List StatusComponent) (is : List StatusIncident)
    (view : StatusIncident → IncidentView)
    → IsHonest (page_from now p cs is view)
unfolding page_from overall_status
page_from-IsHonest now p cs is view =
    let bounds = (worst_from-ge operational cs).1 in
    elim (Bool-cases (is_operational (worst_from operational cs) && any is_active is)) [
      | inl raised ↦ rw raised (record {
        worst =
            All-views (λ s. severity s ≤ severity degraded) cs
              (All-mono (λ c. severity c.status ≤ severity (worst_from operational cs))
                (λ c. severity c.status ≤ severity degraded)
                (λ c bound. ground (arith, raised, bound)) cs bounds);
        troubled = λ e e'. cc e';
        attained = inr (
            inr (
              refl,
              All-views (λ s. s ≡ operational) cs
                  (All-mono (λ c. severity c.status ≤ severity (worst_from operational cs))
                    (λ c. c.status ≡ operational)
                    (λ c bound. severity_zero c.status (ground (arith, raised, bound))) cs bounds),
              (listed_active view is).0 (ground (arith, raised)),
            ));
      })
      | inr plain ↦ rw plain (record {
        worst = All-views (λ s. severity s ≤ severity (worst_from operational cs)) cs bounds;
        troubled =
            λ e e'. let live = (listed_active view is).1 e in ground (arith, plain, live, e');
        attained = elim (worst_from_attained operational cs) [
          | inl same ↦ inr (inl same)
          | inr there ↦
              inl (any-views (λ s. severity s == severity (worst_from operational cs)) cs ∙ there)
        ];
      })
    ]

-- Every page that is answered has an honest banner: at least as severe as each component that the
-- page lists, not `operational` while the page lists an active incident, and no worse than that asks
-- for: as severe as a listed component, or `operational`, or `degraded` on account of a listed active
-- incident, where every listed component is operational.
pub public_status-IsHonest :
    (name_le : String → String → Bool) (now : ℕ) (key : String) (b : Board) (page : PublicStatus)
    → public_status name_le now key b ≡ ok page
    → IsHonest page
unfolding public_status page_of
public_status-IsHonest name_le now key b page h =
    let (p, _, shown) =
      >>=-eq-ok (found (with_key key b.platforms) (not_found unknown_platform)) _ h in
    let same : page_of name_le now p b ≡ page = ground (arith, shown) in
    subst IsHonest same
      (page_from-IsHonest now p (load_components name_le p.id b) (recent p.id b) (incident_view b))
