-- ===== src/StatusPage/Staff/Requests.antt =====
-- The requests of src/status/status.service.ts are writes of the staff's own platform.
use cimp.Prelude.{
  ℕ, ◌&&◌, List, [], ◌∷◌, ◌≡◌, refl, Option, none, some, String, ◌==◌, arith, inl, inr, Bool-cases,
  All, is_some, includes, distinct, or_else,
}
use mathlib.Core.Path.{subst}
use cimp.Prelude.Table.{find, IsKeyed, find-key}
use cimp.Prelude.Table.Keys.{IsKeyed-find}
use cimp.Domain.{ok}
use cimp.Domain.Results.{>>=-eq-ok, >>-eq-ok, ok-injective}
use cimp.Authz.{AuthenticatedStaff}
use cimp.StatusPage.Rows.{
  IncidentStatus, is_resolved, StatusComponent, StatusIncident, Board, component_id, incident_id,
  CreateComponentDto, UpdateComponentDto, CreateIncidentDto, AddIncidentUpdateDto,
}
use cimp.StatusPage.Staff.{
  Request, post_component, patch_component, drop_component, post_incident, post_update,
  drop_incident, handle, owned_component, owned_incident, components_in, resolve_components,
  terminal_time, assert_access, assert_platform, assert_name_free, component_of, create_component,
  updated_component, update_component, delete_component, create_incident, chosen_components,
  add_incident_update, delete_incident,
}
use cimp.StatusPage.Staff.Writes.{
  AreOwn, Write, component_added, component_changed, component_removed, incident_added,
  incident_changed, incident_removed, IsFresh,
}

owned_component_inv :
    (platform id : ℕ) (b : Board) {c : StatusComponent}
    → owned_component platform id b ≡ ok c
    → (find component_id id b.components ≡ some c) × (c.platform ≡ platform)
unfolding owned_component
owned_component_inv platform id b h = (ground arith, ground arith)

owned_incident_inv :
    (platform id : ℕ) (b : Board) {i : StatusIncident}
    → owned_incident platform id b ≡ ok i
    → (find incident_id id b.incidents ≡ some i) × (i.platform ≡ platform)
unfolding owned_incident
owned_incident_inv platform id b h = (ground arith, ground arith)

terminal_time-IsStamped :
    (now : ℕ) (s : IncidentStatus) (old : Option ℕ)
    → is_some (terminal_time now s old) ≡ is_resolved s
unfolding terminal_time
terminal_time-IsStamped now s old = ground arith

components_in-AreOwn :
    (all cs : List StatusComponent) (platform : ℕ) (wanted : List ℕ)
    → All (λ c. find component_id c.id all ≡ some c) cs
    → AreOwn all platform (components_in platform wanted cs)
unfolding components_in
components_in-AreOwn all [] platform wanted h = tt
components_in-AreOwn all (c ∷ cs) platform wanted (h, hs) =
    elim (Bool-cases (includes wanted c.id && c.platform == platform)) [
      | inl taken ↦
          rw taken (ground (arith, h, taken), components_in-AreOwn all cs platform wanted hs)
      | inr left ↦ rw left (components_in-AreOwn all cs platform wanted hs)
    ]

resolve_components-AreOwn :
    (platform : ℕ) (ids : Option (List ℕ)) (b : Board) (ks : List ℕ)
    → IsKeyed component_id b.components
    → resolve_components platform ids b ≡ ok ks
    → AreOwn b.components platform ks
unfolding resolve_components
resolve_components-AreOwn platform ids b ks keyed h =
    let rows = components_in platform (distinct (or_else ids [])) b.components in
    let same : rows ≡ ks = ground (arith, h) in
    rw same at (
      components_in-AreOwn b.components b.components platform (distinct (or_else ids []))
        (IsKeyed-find component_id b.components keyed))

module _ (trim : String → String) (now : ℕ) (staff : AuthenticatedStaff) (platform : ℕ)
    (b b' : Board) where
  create_component-Write :
      (fresh : ℕ) (dto : CreateComponentDto)
      → find component_id fresh b.components ≡ none
      → create_component trim now staff platform fresh dto b ≡ ok b'
      → Write platform b b'
  unfolding create_component component_of
  create_component-Write fresh dto new h =
      subst (Write platform b)
        (ok-injective (
          >>-eq-ok (assert_platform platform b) _ (
            >>-eq-ok (assert_name_free (component_of trim now staff platform fresh dto) b) _
              (>>-eq-ok (assert_access staff platform) _ h))))
        (component_added (component_of trim now staff platform fresh dto) refl new)

  update_component-Write :
      (id : ℕ) (dto : UpdateComponentDto)
      → update_component trim now staff platform id dto b ≡ ok b'
      → Write platform b b'
  unfolding update_component updated_component
  update_component-Write id dto h =
      let (c, owned, rest) =
        >>=-eq-ok (owned_component platform id b) _ (>>-eq-ok (assert_access staff platform) _ h) in
      let (there, same) = owned_component_inv platform id b owned in
      subst (Write platform b)
        (ok-injective
          (>>-eq-ok (assert_name_free (updated_component trim now staff platform dto c) b) _ rest))
        (component_changed c (updated_component trim now staff platform dto c)
          (ground (arith, there, find-key component_id id b.components c there)) same same)

  delete_component-Write :
      (id : ℕ) → delete_component trim now staff platform id b ≡ ok b' → Write platform b b'
  unfolding delete_component
  delete_component-Write id h =
      let (c, owned, rest) =
        >>=-eq-ok (owned_component platform id b) _ (>>-eq-ok (assert_access staff platform) _ h) in
      let (there, same) = owned_component_inv platform id b owned in
      subst (Write platform b) (ok-injective rest) (
        component_removed c (ground (arith, there, find-key component_id id b.components c there))
          same)

  create_incident-Write :
      (fresh fresh_update : ℕ) (dto : CreateIncidentDto)
      → IsKeyed component_id b.components
      → find incident_id fresh b.incidents ≡ none
      → create_incident trim now staff platform fresh fresh_update dto b ≡ ok b'
      → Write platform b b'
  unfolding create_incident
  create_incident-Write fresh fresh_update dto keyed new h =
      let (ks, known, rest) =
        >>=-eq-ok (resolve_components platform dto.component_ids b) _
          (>>-eq-ok (assert_access staff platform) _ h) in
      subst (Write platform b) (ok-injective (>>-eq-ok (assert_platform platform b) _ rest)) (
        incident_added _ _ refl new (terminal_time-IsStamped now _ none)
          (resolve_components-AreOwn platform dto.component_ids b ks keyed known) refl refl)

  chosen_components-AreOwn :
      (ids : Option (List ℕ)) (old ks : List ℕ)
      → IsKeyed component_id b.components
      → chosen_components trim now staff platform ids old b ≡ ok ks
      → AreOwn b.components platform old
      → AreOwn b.components platform ks
  unfolding chosen_components
  chosen_components-AreOwn none old ks keyed h own = rw (ok-injective h) at own
  chosen_components-AreOwn (some ids) old ks keyed h own =
      resolve_components-AreOwn platform (some ids) b ks keyed h

  add_incident_update-Write :
      (fresh_update id : ℕ) (dto : AddIncidentUpdateDto)
      → IsKeyed component_id b.components
      → add_incident_update trim now staff platform fresh_update id dto b ≡ ok b'
      → Write platform b b'
  unfolding add_incident_update
  add_incident_update-Write fresh_update id dto keyed h =
      let (i, owned, rest) =
        >>=-eq-ok (owned_incident platform id b) _ (>>-eq-ok (assert_access staff platform) _ h) in
      let (there, same) = owned_incident_inv platform id b owned in
      let (ks, known, made) =
        >>=-eq-ok (chosen_components trim now staff platform dto.component_ids i.components b) _
          rest in
      subst (Write platform b) (ok-injective made) (
        incident_changed i _ _ (ground (arith, there, find-key incident_id id b.incidents i there))
          same same (terminal_time-IsStamped now dto.status i.resolved_at)
          (chosen_components-AreOwn dto.component_ids i.components ks keyed known) refl refl)

  delete_incident-Write :
      (id : ℕ) → delete_incident trim now staff platform id b ≡ ok b' → Write platform b b'
  unfolding delete_incident
  delete_incident-Write id h =
      let (i, owned, rest) =
        >>=-eq-ok (owned_incident platform id b) _ (>>-eq-ok (assert_access staff platform) _ h) in
      let (there, same) = owned_incident_inv platform id b owned in
      subst (Write platform b) (ok-injective rest) (
        incident_removed i (ground (arith, there, find-key incident_id id b.incidents i there))
          same)

  -- A request that succeeds on a table of components under a primary key, with new ids from the
  -- database, is a write of the staff's platform.
  pub handle-Write :
      (fresh fresh_update : ℕ) (r : Request)
      → IsKeyed component_id b.components
      → IsFresh fresh b
      → handle trim now staff platform fresh fresh_update r b ≡ ok b'
      → Write platform b b'
  unfolding handle
  handle-Write fresh fresh_update (post_component dto) keyed f h =
      create_component-Write fresh dto f.new_component h
  handle-Write fresh fresh_update (patch_component id dto) keyed f h =
      update_component-Write id dto h
  handle-Write fresh fresh_update (drop_component id) keyed f h = delete_component-Write id h
  handle-Write fresh fresh_update (post_incident dto) keyed f h =
      create_incident-Write fresh fresh_update dto keyed f.new_incident h
  handle-Write fresh fresh_update (post_update id dto) keyed f h =
      add_incident_update-Write fresh_update id dto keyed h
  handle-Write fresh fresh_update (drop_incident id) keyed f h = delete_incident-Write id h
