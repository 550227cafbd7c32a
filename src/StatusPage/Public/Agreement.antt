-- ===== src/StatusPage/Public/Agreement.antt =====
-- Boards that show the incidents of a platform alike, and what a page reads of a board.
use mathlib.Core.Path.{ap₂, subst}
use cimp.Prelude.{
  sort_by, take, ℕ, true, false, not, List, [], ◌∷◌, ◌≡◌, refl, ◌≢◌, ◌∙◌, ap, some, String, ◌==◌,
  arith, inl, inr, Bool, Bool-cases, All, All-select, All-select_self, All-sort_by, All-take,
  select, map, map-eq_of_All,
}
use cimp.Prelude.Table.{find}
use cimp.Prelude.Table.Keys.{IsKeyed-find}
use cimp.StatusPage.Rows.{
  is_resolved, Platform, StatusComponent, StatusIncident, StatusIncidentUpdate, Board, component_id,
  incident_id,
}
use cimp.StatusPage.Staff.{without_component}
use cimp.StatusPage.Staff.Writes.{platform_of, AreOwn}
use cimp.StatusPage.Staff.Sound.{IsSound}
use cimp.StatusPage.Public.{
  component_refs, incident_view, load_components, recent, page_of, page_from, public_history_limit,
  is_active, IncidentView, component_le, later,
}

-- Two boards hold the same rows of platform `q`, and show its incidents alike.
pub record Agree (q : ℕ) (b b' : Board) : Type 0 where
  pub same_platforms : b'.platforms ≡ b.platforms
  pub same_components :
      select (λ c. c.platform == q) b'.components ≡ select (λ c. c.platform == q) b.components
  pub same_incidents :
      select (λ i. i.platform == q) b'.incidents ≡ select (λ i. i.platform == q) b.incidents
  pub same_views :
      All (λ i. incident_view b' i ≡ incident_view b i) (select (λ i. i.platform == q) b.incidents)

pub page_from-view :
    (now : ℕ) (p : Platform) (cs : List StatusComponent) (is : List StatusIncident)
    → (f g : StatusIncident → IncidentView) → All (λ i. f i ≡ g i) is
    → page_from now p cs is f ≡ page_from now p cs is g
unfolding page_from
page_from-view now p cs is f g h =
    rw (map-eq_of_All f g (select is_active is) (All-select (λ i. f i ≡ g i) is_active is h)) (
      rw (
        map-eq_of_All f g (select (λ i. is_resolved i.status) is)
          (All-select (λ i. f i ≡ g i) (λ i. is_resolved i.status) is h)))

pub Agree-page :
    (name_le : String → String → Bool) (now : ℕ) (p : Platform) (b b' : Board)
    → Agree p.id b b'
    → page_of name_le now p b' ≡ page_of name_le now p b
unfolding page_of load_components recent
Agree-page name_le now p b b' a =
    ap₂
      (λ cs is.
        page_from now p (sort_by (component_le name_le) cs)
          (take public_history_limit (sort_by later is)) (incident_view b'))
      a.same_components a.same_incidents
    ∙ page_from-view now p (load_components name_le p.id b) (recent p.id b) (incident_view b')
        (incident_view b)
        (All-take (λ i. incident_view b' i ≡ incident_view b i) public_history_limit _
          (All-sort_by (λ i. incident_view b' i ≡ incident_view b i) later _ a.same_views))

-- The rows of a platform's incidents, each with what the table and the invariant say of it.
unfoldable pub Kept : ℕ → Board → StatusIncident → Type 0
Kept q b i =
    (i.platform ≡ q)
    × (find incident_id i.id b.incidents ≡ some i)
    × AreOwn b.components q i.components

pub selected-Kept :
    (q : ℕ) (b : Board) → IsSound b → All (Kept q b) (select (λ i. i.platform == q) b.incidents)
unfolding Kept
selected-Kept q b s =
    All-select_self (λ i. i.platform == q) (λ i. find incident_id i.id b.incidents ≡ some i)
      (Kept q b)
      (λ i mine there.
        let same : i.platform ≡ q = ground (arith, mine) in
        (
          same,
          there,
          subst (λ p. AreOwn b.components p i.components) same (s.each i.id i there).own,
        ))
      b.incidents (IsKeyed-find incident_id b.incidents s.keyed_incidents)

-- The components of platform `q` are found as before.
pub component_refs-eq :
    (q : ℕ) (cs cs' : List StatusComponent)
    → ((k : ℕ) → platform_of k cs ≡ some q → find component_id k cs' ≡ find component_id k cs)
    → (ks : List ℕ) → AreOwn cs q ks
    → component_refs cs' ks ≡ component_refs cs ks
unfolding component_refs
component_refs-eq q cs cs' f [] h = refl
component_refs-eq q cs cs' f (k ∷ ks) (h, hs) =
    ground (arith, f k h, component_refs-eq q cs cs' f ks hs)

pub updates_of_other :
    (k id : ℕ)
    → (id == k) ≡ false
    → (us : List StatusIncidentUpdate)
    → select (λ u. u.incident == k) (select (λ u. not (u.incident == id)) us)
      ≡ select (λ u. u.incident == k) us
updates_of_other k id ne [] = refl
updates_of_other k id ne (u ∷ us) = elim (Bool-cases (u.incident == id)) [
  | inl gone ↦
      let other : (u.incident == k) ≡ false = ground (arith, gone, ne) in
      rw (gone, other) (updates_of_other k id ne us)
  | inr kept ↦ elim (Bool-cases (u.incident == k)) [
    | inl mine ↦ rw kept (rw mine (ap (λ l. u ∷ l) (updates_of_other k id ne us)))
    | inr foreign ↦ rw kept (rw foreign (updates_of_other k id ne us))
  ]
]

-- An incident of platform `q` loses nothing with a component of another platform.
pub select-own :
    (q id : ℕ) (cs : List StatusComponent)
    → platform_of id cs ≢ some q
    → (ks : List ℕ) → AreOwn cs q ks
    → select (λ c. not (c == id)) ks ≡ ks
select-own q id cs foreign [] h = refl
select-own q id cs foreign (k ∷ ks) (h, hs) = elim (Bool-cases (k == id)) [
  | inl clash ↦
      let same : k ≡ id = ground (arith, clash) in
      absurd (foreign (subst (λ m. platform_of m cs ≡ some q) same h))
  | inr kept ↦ rw kept (ap (λ l. k ∷ l) (select-own q id cs foreign ks hs))
]

pub mapped-eq :
    (q id : ℕ) (cs : List StatusComponent)
    → platform_of id cs ≢ some q
    → (is : List StatusIncident) → All (λ i. (i.platform == q) ≡ true → AreOwn cs q i.components) is
    → select (λ i. i.platform == q) (map (without_component id) is)
      ≡ select (λ i. i.platform == q) is
unfolding without_component
mapped-eq q id cs foreign [] h = refl
mapped-eq q id cs foreign (i ∷ is) (h, hs) = elim (Bool-cases (i.platform == q)) [
  | inl mine ↦ rw mine (
      ap₂ (λ ks l. record i { components = ks } ∷ l)
        (select-own q id cs foreign i.components (h mine)) (mapped-eq q id cs foreign is hs))
  | inr other ↦ rw other (mapped-eq q id cs foreign is hs)
]
