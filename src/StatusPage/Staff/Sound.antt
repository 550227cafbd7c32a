-- ===== src/StatusPage/Staff/Sound.antt =====
-- What the staff's writes keep true of the incidents of the status page (src/status).
use mathlib.Core.Path.{subst}
use cimp.Prelude.{
  ℕ, false, not, List, [], ◌∷◌, ◌≡◌, refl, sym, ◌∙◌, Option, none, some, String, ◌==◌,
  if◌then◌else◌, arith, inl, inr, Bool-cases, Option-cases, select, map,
}
use cimp.Prelude.Table.{find-key, find, put, remove, IsKeyed, find-cons, find-put_self, find-put_ne}
use cimp.Prelude.Table.Keys.{
  find-remove_ne, find-remove_self, find-map, IsKeyed-remove, IsKeyed-put, IsKeyed-map,
}
use cimp.Domain.{ok}
use cimp.Authz.{AuthenticatedStaff}
use cimp.StatusPage.Rows.{
  IncidentStatus, StatusComponent, StatusIncident, StatusIncidentUpdate, Board, component_id,
  incident_id,
}
use cimp.StatusPage.Staff.{Request, handle, without_component}
use cimp.StatusPage.Staff.Own.{AreOwn-mono, AreOwn-without, platform_of-cons, platform_of-put}
use cimp.StatusPage.Staff.Requests.{handle-Write}
use cimp.StatusPage.Staff.Writes.{
  AreOwn, IsStamped, Write, component_added, component_changed, component_removed, incident_added,
  incident_changed, incident_removed, IsFresh,
}

-- The status of the newest update of an incident.
abbrev pub latest : ℕ → List StatusIncidentUpdate → Option IncidentStatus
latest id [] = none
latest id (u ∷ us) = let rest = latest id us in if u.incident == id then some u.status else rest

latest-select_ne :
    (k id : ℕ) (us : List StatusIncidentUpdate)
    → (id == k) ≡ false
    → latest k (select (λ u. not (u.incident == id)) us) ≡ latest k us
latest-select_ne k id [] h = refl
latest-select_ne k id (u ∷ us) h = ground (arith, latest-select_ne k id us h)

-- An incident has a terminal time exactly when it is resolved, names components of its own
-- platform only, and stands where its newest update says.
pub record IsSoundIncident (b : Board) (i : StatusIncident) : Type 0 where
  pub stamped : IsStamped i
  pub own : AreOwn b.components i.platform i.components
  pub timeline : latest i.id b.updates ≡ some i.status

-- Both tables have a primary key, and every incident is sound.
pub record IsSound (b : Board) : Type 0 where
  pub keyed_components : IsKeyed component_id b.components
  pub keyed_incidents : IsKeyed incident_id b.incidents
  pub each :
      (k : ℕ) (i : StatusIncident) → find incident_id k b.incidents ≡ some i → IsSoundIncident b i

module _ {b : Board} (s : IsSound b) where
  added_component-IsSound :
      (c : StatusComponent)
      → find component_id c.id b.components ≡ none
      → IsSound (record b { components = c ∷ b.components })
  added_component-IsSound c new = record {
    keyed_components = (new, s.keyed_components);
    keyed_incidents = s.keyed_incidents;
    each = λ k i there.
        let e = s.each k i there in
        record {
          stamped = e.stamped;
          own =
              AreOwn-mono i.platform b.components (c ∷ b.components)
                (λ j own. platform_of-cons c b.components j i.platform new own) i.components e.own;
          timeline = e.timeline;
        };
  }

  changed_component-IsSound :
      (old c : StatusComponent)
      → find component_id c.id b.components ≡ some old
      → old.platform ≡ c.platform
      → IsSound (record b { components = put component_id c b.components })
  changed_component-IsSound old c there same = record {
    keyed_components = IsKeyed-put component_id c b.components s.keyed_components;
    keyed_incidents = s.keyed_incidents;
    each = λ k i found.
        let e = s.each k i found in
        record {
          stamped = e.stamped;
          own =
              AreOwn-mono i.platform b.components (put component_id c b.components)
                (λ j own. platform_of-put old c b.components j there same ∙ own) i.components e.own;
          timeline = e.timeline;
        };
  }

  -- An incident that loses a component was in the table before.
  without_component_inv :
      (id k : ℕ) (i : StatusIncident)
      → find incident_id k (map (without_component id) b.incidents) ≡ some i
      → (j : StatusIncident) × (find incident_id k b.incidents ≡ some j)
        × (without_component id j ≡ i)
  unfolding without_component
  without_component_inv id k i found = elim (Option-cases (find incident_id k b.incidents)) [
    | inl absent ↦
        absurd (
          cc (found, absent, find-map incident_id (without_component id) (λ i. refl) k b.incidents))
    | inr (j, there) ↦ (
      j,
      there,
      ground (
        arith,
        found,
        there,
        find-map incident_id (without_component id) (λ i. refl) k b.incidents,
      ),
    )
  ]

  removed_component-IsSound :
      (id : ℕ)
      → IsSound (record b {
        components = remove component_id id b.components;
        incidents = map (without_component id) b.incidents;
      })
  unfolding without_component
  removed_component-IsSound id = record {
    keyed_components = IsKeyed-remove component_id id b.components s.keyed_components;
    keyed_incidents =
        IsKeyed-map incident_id (without_component id) (λ i. refl) b.incidents s.keyed_incidents;
    each = λ k i found.
        let (j, there, same) = without_component_inv id k i found in
        let e = s.each k j there in
        rw (← same) (record {
          stamped = e.stamped;
          own = AreOwn-without j.platform id b.components j.components e.own;
          timeline = e.timeline;
        });
  }

  added_incident-IsSound :
      (i : StatusIncident) (u : StatusIncidentUpdate)
      → find incident_id i.id b.incidents ≡ none
      → IsStamped i
      → AreOwn b.components i.platform i.components
      → u.incident ≡ i.id
      → u.status ≡ i.status
      → IsSound (record b { incidents = i ∷ b.incidents; updates = u ∷ b.updates })
  added_incident-IsSound i u new stamp own of says = record {
    keyed_components = s.keyed_components;
    keyed_incidents = (new, s.keyed_incidents);
    each = λ k j found. elim (Bool-cases (i.id == k)) [
      | inl here ↦
          let same : i ≡ j = ground (arith, found, here, find-cons incident_id k i b.incidents) in
          subst (IsSoundIncident _) same
            (record { stamped = stamp; own = own; timeline = ground (arith, of, says) })
      | inr other ↦
          let there : find incident_id k b.incidents ≡ some j =
            ground (arith, found, other, find-cons incident_id k i b.incidents) in
          let e = s.each k j there in
          record {
            stamped = e.stamped;
            own = e.own;
            timeline =
                ground (arith, e.timeline, of, other, find-key incident_id k b.incidents j there);
          }
    ];
  }

  changed_incident-IsSound :
      (old i : StatusIncident) (u : StatusIncidentUpdate)
      → find incident_id i.id b.incidents ≡ some old
      → IsStamped i
      → AreOwn b.components i.platform i.components
      → u.incident ≡ i.id
      → u.status ≡ i.status
      → IsSound (record b { incidents = put incident_id i b.incidents; updates = u ∷ b.updates })
  changed_incident-IsSound old i u was stamp own of says = record {
    keyed_components = s.keyed_components;
    keyed_incidents = IsKeyed-put incident_id i b.incidents s.keyed_incidents;
    each = λ k j found. elim (Bool-cases (i.id == k)) [
      | inl here ↦
          let at : i.id ≡ k = ground (arith, here) in
          let same : i ≡ j = cc (
            found,
            subst (λ m. find incident_id m (put incident_id i b.incidents) ≡ some i) at
                (find-put_self incident_id i b.incidents old was),
          ) in
          subst (IsSoundIncident _) same
            (record { stamped = stamp; own = own; timeline = ground (arith, of, says) })
      | inr other ↦
          let there : find incident_id k b.incidents ≡ some j =
            sym (find-put_ne incident_id k i b.incidents other) ∙ found in
          let e = s.each k j there in
          record {
            stamped = e.stamped;
            own = e.own;
            timeline =
                ground (arith, e.timeline, of, other, find-key incident_id k b.incidents j there);
          }
    ];
  }

  removed_incident-IsSound :
      (id : ℕ)
      → IsSound (record b {
        incidents = remove incident_id id b.incidents;
        updates = select (λ u. not (u.incident == id)) b.updates;
      })
  removed_incident-IsSound id = record {
    keyed_components = s.keyed_components;
    keyed_incidents = IsKeyed-remove incident_id id b.incidents s.keyed_incidents;
    each = λ k j found. elim (Bool-cases (id == k)) [
      | inl here ↦
          let at : id ≡ k = ground (arith, here) in
          absurd (
            cc (
              found,
              subst (λ m. find incident_id m (remove incident_id id b.incidents) ≡ none) at
                  (find-remove_self incident_id id b.incidents s.keyed_incidents),
            ))
      | inr other ↦
          let there : find incident_id k b.incidents ≡ some j =
            sym (find-remove_ne incident_id id k b.incidents other) ∙ found in
          let e = s.each k j there in
          record {
            stamped = e.stamped;
            own = e.own;
            timeline =
                latest-select_ne j.id id b.updates
                  (ground (arith, other, find-key incident_id k b.incidents j there))
                ∙ e.timeline;
          }
    ];
  }

Write-IsSound : {platform : ℕ} {b b' : Board} → Write platform b b' → IsSound b → IsSound b'
Write-IsSound (component_added c mine new) s = added_component-IsSound s c new
Write-IsSound (component_changed old c there was mine) s =
    changed_component-IsSound s old c there (was ∙ sym mine)
Write-IsSound (component_removed old there was) s = removed_component-IsSound s old.id
Write-IsSound (incident_added i u mine new stamp own of says) s =
    added_incident-IsSound s i u new stamp (rw mine own) of says
Write-IsSound (incident_changed old i u there was mine stamp own of says) s =
    let before = (s.each i.id old there).own in
    changed_incident-IsSound s old i u there stamp (rw mine (own (rw was at before))) of says
Write-IsSound (incident_removed old there was) s = removed_incident-IsSound s old.id

-- A request of staff to the status page that succeeds, with new ids from the database, keeps the
-- page sound: both tables have a primary key, and every incident has a terminal time exactly when
-- it is resolved, names components of its own platform only, and has the status of its newest
-- update.
pub handle-IsSound :
    (trim : String → String) (now : ℕ) (staff : AuthenticatedStaff) (platform : ℕ)
    → (fresh fresh_update : ℕ) (r : Request) (b b' : Board) → IsFresh fresh b
    → IsSound b
    → handle trim now staff platform fresh fresh_update r b ≡ ok b'
    → IsSound b'
handle-IsSound trim now staff platform fresh fresh_update r b b' f s h =
    Write-IsSound
      (handle-Write trim now staff platform b b' fresh fresh_update r s.keyed_components f h) s
