-- ===== src/StatusPage/Public/Isolation.antt =====
-- What the staff of one platform can do to the public page of another (src/status).
use mathlib.Core.Path.{subst}
use cimp.Prelude.{
  ℕ, true, false, not, List, ◌∷◌, ◌≡◌, refl, ◌≢◌, ap, some, String, ◌==◌, arith, inl, inr, Bool,
  Bool-cases, Option-cases, All, All-mono, select, map,
}
use cimp.Prelude.Table.{find, put, remove, find-cons, find-put_ne}
use cimp.Prelude.Table.Keys.{select-put, select-remove, find-remove_ne, IsKeyed-find}
use cimp.Domain.{ok}
use cimp.Authz.{AuthenticatedStaff}
use cimp.StatusPage.Rows.{
  Platform, StatusComponent, StatusIncident, StatusIncidentUpdate, Board, component_id, incident_id,
}
use cimp.StatusPage.Staff.{Request, handle, without_component}
use cimp.StatusPage.Staff.Requests.{handle-Write}
use cimp.StatusPage.Staff.Writes.{
  platform_of, AreOwn, Write, component_added, component_changed, component_removed, incident_added,
  incident_changed, incident_removed, IsFresh,
}
use cimp.StatusPage.Staff.Sound.{IsSound}
use cimp.StatusPage.Public.{incident_view, page_of, public_status, with_key, unless_disabled}
use cimp.StatusPage.Public.Agreement.{
  Agree, Agree-page, Kept, selected-Kept, component_refs-eq, updates_of_other, mapped-eq,
}

module _ (q : ℕ) (b : Board) (s : IsSound b) where
  -- A write of components.
  views_of_components :
      (cs' : List StatusComponent) (is' : List StatusIncident)
      → ((k : ℕ)
          → platform_of k b.components ≡ some q
          → find component_id k cs' ≡ find component_id k b.components)
      → All
          (λ i.
            incident_view (record b { components = cs'; incidents = is' }) i ≡ incident_view b i)
          (select (λ i. i.platform == q) b.incidents)
  unfolding incident_view Kept
  views_of_components cs' is' f =
      All-mono (Kept q b) _
        (λ i (mine, there, own). rw (component_refs-eq q b.components cs' f i.components own)) _
        (selected-Kept q b s)

  -- A write of incidents and updates of another incident.
  views_of_updates :
      (x : ℕ) (us' : List StatusIncidentUpdate) (is' : List StatusIncident)
      → ((k : ℕ)
          → (x == k) ≡ false
          → select (λ u. u.incident == k) us' ≡ select (λ u. u.incident == k) b.updates)
      → ((i : StatusIncident) → find incident_id x b.incidents ≡ some i → (i.platform == q) ≡ false)
      → All
          (λ i. incident_view (record b { incidents = is'; updates = us' }) i ≡ incident_view b i)
          (select (λ i. i.platform == q) b.incidents)
  unfolding incident_view Kept
  views_of_updates x us' is' f foreign =
      All-mono (Kept q b) _
        (λ i (mine, there, own). elim (Bool-cases (x == i.id)) [
          | inl clash ↦
              let same : x ≡ i.id = ground (arith, clash) in
              absurd (ground (arith, mine, foreign i (rw same there)))
          | inr other ↦ rw (f i.id other)
        ])
        _ (selected-Kept q b s)

  foreign_component :
      (x k : ℕ)
      → (platform_of x b.components ≡ some q → ⊥)
      → platform_of k b.components ≡ some q
      → (x == k) ≡ false
  foreign_component x k foreign own = elim (Bool-cases (x == k)) [
    | inl clash ↦ let same : x ≡ k = ground (arith, clash) in absurd (foreign (rw same own))
    | inr other ↦ other
  ]

  mapped_incidents :
      (id : ℕ)
      → platform_of id b.components ≢ some q
      → select (λ i. i.platform == q) (map (without_component id) b.incidents)
        ≡ select (λ i. i.platform == q) b.incidents
  mapped_incidents id foreign = mapped-eq q id b.components foreign b.incidents (
      All-mono (λ i. find incident_id i.id b.incidents ≡ some i)
        (λ i. (i.platform == q) ≡ true → AreOwn b.components q i.components)
        (λ i there mine.
          let same : i.platform ≡ q = ground (arith, mine) in
          subst (λ p. AreOwn b.components p i.components) same (s.each i.id i there).own)
        b.incidents (IsKeyed-find incident_id b.incidents s.keyed_incidents))

  Write-Agree :
      {platform : ℕ} {b' : Board} → Write platform b b' → (platform == q) ≡ false → Agree q b b'
  Write-Agree (component_added c mine new) other = record {
    same_platforms = refl;
    same_components = ground (arith, mine, other);
    same_incidents = refl;
    same_views = views_of_components (c ∷ b.components) b.incidents (λ k own. ground (
      arith,
      find-cons component_id k c b.components,
      foreign_component c.id k (λ e. cc (new, e)) own,
    ));
  }
  Write-Agree (component_changed old c there was mine) other = record {
    same_platforms = refl;
    same_components =
        select-put component_id (λ d. d.platform == q) c old b.components there
          (ground (arith, mine, other)) (ground (arith, was, other));
    same_incidents = refl;
    same_views = views_of_components (put component_id c b.components) b.incidents (λ k own.
        find-put_ne component_id k c b.components
          (foreign_component c.id k (λ e. ground (arith, there, e, was, other)) own));
  }
  Write-Agree (component_removed old there was) other = record {
    same_platforms = refl;
    same_components =
        select-remove component_id (λ d. d.platform == q) old.id old b.components there
          (ground (arith, was, other));
    same_incidents = mapped_incidents old.id (λ e. ground (arith, there, e, was, other));
    same_views =
        views_of_components (remove component_id old.id b.components)
          (map (without_component old.id) b.incidents)
          (λ k own.
            find-remove_ne component_id old.id k b.components
              (foreign_component old.id k (λ e. ground (arith, there, e, was, other)) own));
  }
  Write-Agree (incident_added i u mine new stamp own of says) other = record {
    same_platforms = refl;
    same_components = refl;
    same_incidents = ground (arith, mine, other);
    same_views =
        views_of_updates i.id (u ∷ b.updates) (i ∷ b.incidents) (λ k ne. ground (arith, of, ne))
          (λ j found. cc (new, found));
  }
  Write-Agree (incident_changed old i u there was mine stamp own of says) other = record {
    same_platforms = refl;
    same_components = refl;
    same_incidents =
        select-put incident_id (λ d. d.platform == q) i old b.incidents there
          (ground (arith, mine, other)) (ground (arith, was, other));
    same_views =
        views_of_updates i.id (u ∷ b.updates) (put incident_id i b.incidents)
          (λ k ne. ground (arith, of, ne)) (λ j found. ground (arith, there, found, was, other));
  }
  Write-Agree (incident_removed old there was) other = record {
    same_platforms = refl;
    same_components = refl;
    same_incidents =
        select-remove incident_id (λ d. d.platform == q) old.id old b.incidents there
          (ground (arith, was, other));
    same_views =
        views_of_updates old.id (select (λ u. not (u.incident == old.id)) b.updates)
          (remove incident_id old.id b.incidents) (λ k ne. updates_of_other k old.id ne b.updates)
          (λ j found. ground (arith, there, found, was, other));
  }

Write-platforms : {platform : ℕ} {b b' : Board} → Write platform b b' → b'.platforms ≡ b.platforms
Write-platforms (component_added c mine new) = refl
Write-platforms (component_changed old c there was mine) = refl
Write-platforms (component_removed old there was) = refl
Write-platforms (incident_added i u mine new stamp own of says) = refl
Write-platforms (incident_changed old i u there was mine stamp own of says) = refl
Write-platforms (incident_removed old there was) = refl

-- A request of staff for one platform that succeeds on a sound status page, with new ids from the
-- database, leaves the answer of the public page of every other platform as it was.
pub handle-public_status :
    (trim : String → String) (now : ℕ) (staff : AuthenticatedStaff) (platform : ℕ)
    → (fresh fresh_update : ℕ) (r : Request) (b b' : Board)
    → (name_le : String → String → Bool) (at : ℕ) (key : String)
    → ((p : Platform) → with_key key b.platforms ≡ some p → p.id ≢ platform)
    → IsFresh fresh b
    → IsSound b
    → handle trim now staff platform fresh fresh_update r b ≡ ok b'
    → public_status name_le at key b' ≡ public_status name_le at key b
unfolding public_status page_of incident_view
handle-public_status trim now staff platform fresh fresh_update r b b' name_le at key other f s h =
    let w = handle-Write trim now staff platform b b' fresh fresh_update r s.keyed_components f h in
    elim (Option-cases (with_key key b.platforms)) [
      | inl absent ↦ rw (Write-platforms w) (rw absent)
      | inr (p, known) ↦ rw (Write-platforms w) (
          rw known (
            ap (unless_disabled p) (
              Agree-page name_le at p b b'
                (Write-Agree p.id b s w (ground (arith, other p known))))))
    ]
