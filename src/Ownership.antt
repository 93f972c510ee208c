-- ===== src/Ownership.antt =====
-- archivebox/services/snapshot_service.py: which run owns a snapshot, and the renewal of its lease. A
-- handler runs under the service's lock. The plugins to retry are a column of their own here.
-- Ownership.Completion has the end of a run.
pub mod Leases
pub mod Completion
use mathlib.Core.Option
use archive_box.Base.{
  ℕ, zero, suc, ◌+◌, Bool, true, false, ◌&&◌, ◌||◌, not, Option, none, some, List, [], ◌∷◌, ◌==◌,
  if◌then◌else◌, or_else, eq_option, is_none, all,
}
use archive_box.Text.Names.{stripped}
use archive_box.Text.{Text, is_empty, is_in, strip}
use archive_box.Queue.Table.{
  queued, started, paused, sealed, eq_status, update_where, count_where, find,
}
use archive_box.Queue
use archive_box.Db.{Crawl, Snapshot, Db}
use archive_box.Crawls.Limits.{Reason, timed_out, max_size_reached}
use archive_box.Snapshots
use archive_box.Snapshots.{advance_lifecycle, seal}

-- An entry of `_run_ownership`.
pub record Owner : Type 0 where
  pub snapshot_id : ℕ
  pub event_id : ℕ
  pub owned_retry_at : Option ℕ
  pub was_sealed : Bool
  pub retry_plugins : List Text

abbrev pub owner_of : ℕ → List Owner → Option Owner
owner_of k [] = none
owner_of k (o ∷ os) = if o.snapshot_id == k then some o else owner_of k os

-- `pop`
abbrev pub drop_owner : ℕ → List Owner → List Owner
drop_owner k [] = []
drop_owner k (o ∷ os) = if o.snapshot_id == k then drop_owner k os else o ∷ drop_owner k os

abbrev pub set_owner : Owner → List Owner → List Owner
set_owner o os = o ∷ drop_owner o.snapshot_id os

pub record State : Type 0 where
  pub owners : List Owner
  pub db : Db

-- the snapshot of the service's crawl
abbrev own_snapshot : ℕ → ℕ → Db → Option Snapshot
own_snapshot crawl_id k db = elim (find k db.snapshots) [
  | none ↦ none
  | some s ↦ if s.columns.crawl_id == crawl_id then some s else none
]

abbrev own : ℕ → Snapshot → Bool → List Owner → List Owner
own event_id s was_sealed owners =
    set_owner
      (record {
        snapshot_id = s.pk;
        event_id = event_id;
        owned_retry_at = s.retry_at;
        was_sealed = was_sealed;
        retry_plugins = stripped s.columns.retry_plugins;
      })
      owners

-- `on_SnapshotEvent`; a `DoesNotExist` of a reload is `none`. The symlink of a started snapshot is
-- left out.
unfoldable pub on_snapshot_event : ℕ → ℕ → ℕ → ℕ → State → Option State
unfolding find advance_lifecycle
on_snapshot_event now crawl_id event_id k st = elim (own_snapshot crawl_id k st.db) [
  | none ↦ some st
  | some s ↦
      let was_sealed = eq_status s.status sealed in
      let kept = some (record st { owners = own event_id s was_sealed st.owners }) in
      if eq_status s.status paused
      then some st
      else if eq_status s.status queued
      then elim (advance_lifecycle now s st.db) [
        | none ↦ none
        | some r ↦ elim (find s.pk r.db.snapshots) [
          | none ↦ none
          | some fresh ↦
              some (record { owners = own event_id fresh was_sealed st.owners; db = r.db })
        ]
      ]
      else if not (eq_status s.status started || eq_status s.status sealed)
      then some st
      else kept
]

abbrev pub renewed : ℕ → ℕ → Snapshot → Snapshot
renewed lease_until now s = record s { retry_at = some lease_until; modified_at = now }

abbrev pub holds : Owner → Snapshot → Bool
holds o s = eq_status s.status started && eq_option s.retry_at o.owned_retry_at

-- the update of the row and of the record, of a run that did not start from a sealed snapshot
unfoldable pub renew_owned : ℕ → ℕ → ℕ → Owner → State → Option Bool × State
unfolding update_where count_where
renew_owned now lease_until k o st =
    let p = λ (s : Snapshot). s.pk == k && holds o s in
    let rows = update_where p (renewed lease_until now) st.db.snapshots in
    let updated = not (count_where p st.db.snapshots == 0) in
    let next = record o { snapshot_id = k; owned_retry_at = some lease_until } in
    (
      some updated,
      record {
        owners = if updated then set_owner next st.owners else st.owners;
        db = record st.db { snapshots = rows };
      },
    )

-- `none` is `None`
unfoldable pub renew_lease : ℕ → ℕ → ℕ → State → Option Bool × State
unfolding renew_owned
renew_lease now lease_until k st = elim (owner_of k st.owners) [
  | none ↦ (none, st)
  | some o ↦ if o.was_sealed then (none, st) else renew_owned now lease_until k o st
]
