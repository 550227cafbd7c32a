-- ===== src/Relations/Tests.antt =====
-- A label on an issue of the help desk.
use cimp.Prelude.{true, [], ◌∷◌, refl}
use cimp.Prelude.Table.{find}
use cimp.Store.{Label, Db}
use cimp.Automation.{attach_label}
use cimp.Scenario.{desk, as_dev}
use cimp.Relations.{labels_issue, handle, add_to_issue}
use cimp.Relations.Tenancy.{IsTenantSound}
use cimp.Relations.Tenancy.Writes.{handle-IsTenantSound}

abbrev urgent : Label
urgent = record { id = 70; platform = 7; name = "urgent"; color = "#ff0000" }

abbrev with_label : Db
with_label = record desk { labels = urgent ∷ [] }

handle-IsTenantSound_example :
    IsTenantSound (record with_label { issue_labels = record { issue = 1; label = 70 } ∷ [] })
unfolding handle add_to_issue attach_label find
handle-IsTenantSound_example =
    handle-IsTenantSound (λ k. true) (λ s. s) as_dev.staff (labels_issue 1 70) with_label _
      (record { labels = tt; links = tt }) tt refl
