-- ===== src/Timeline/Display.antt =====
-- Reading a status back from its string and its label: `normalize_status`.
use shatter_nc.Prelude.{◌≡◌, ◌≢◌, refl, Bool, true, false, Option, none, some}
use shatter_nc.Prelude.Text.{trim, to_lower}
use shatter_nc.Timeline.{MachineStatus, status_text, status_labels, normalize_status}

-- Unless the connection is known to be down, the string of each of the five statuses and its label
-- on the chart are both read as that status.
pub normalize_status-status_text :
    (s : MachineStatus) (online : Option Bool)
    → online ≢ some false
    → (normalize_status (some (status_text s)) online ≡ s)
      × (normalize_status (some (status_labels s)) online ≡ s)
unfolding normalize_status trim to_lower
normalize_status-status_text s (some false) up = elim (up refl) [ ]
normalize_status-status_text MachineStatus.operating none up = (refl, refl)
normalize_status-status_text MachineStatus.operating (some true) up = (refl, refl)
normalize_status-status_text MachineStatus.standby none up = (refl, refl)
normalize_status-status_text MachineStatus.standby (some true) up = (refl, refl)
normalize_status-status_text MachineStatus.stopped none up = (refl, refl)
normalize_status-status_text MachineStatus.stopped (some true) up = (refl, refl)
normalize_status-status_text MachineStatus.error none up = (refl, refl)
normalize_status-status_text MachineStatus.error (some true) up = (refl, refl)
normalize_status-status_text MachineStatus.off none up = (refl, refl)
normalize_status-status_text MachineStatus.off (some true) up = (refl, refl)
