-- ===== src/Examples/Recoveries.antt =====
-- A recovery of tables that a runner left: a crawl that waits, a queued snapshot without an instant, and
-- a started one whose hook is gone.
use archive_box.Base.{◌≡◌, true, false, none, some, [], ◌∷◌, all}
use archive_box.Queue.Table.{queued, started}
use archive_box.Recovery.{Tables, running, recover_orchestrator_state}
use archive_box.Recovery.Visible.{crawl_visible, recover-visible}
use archive_box.Recovery.Woken.{is_queued_visible, is_started_visible}
use archive_box.Examples.Data.{crawl, snapshot}

abbrev left_behind : Tables
left_behind = record {
  db = record {
    crawls = record crawl { retry_at = some 5000 } ∷ [];
    snapshots =
        record (snapshot 7 queued) { retry_at = none }
        ∷ record (snapshot 8 started) { retry_at = some 6000 }
        ∷ [];
  };
  results = record { snapshot_id = 8; is_upload = false; status = running; process = some 3 } ∷ [];
  processes = record { pk = 3; is_hook = true; is_live = false } ∷ [];
}

abbrev recovered : Tables
recovered = recover_orchestrator_state (λ k t. t) 1000 none left_behind

recover-visible_example :
    (all (crawl_visible 1000 recovered.db) recovered.db.crawls ≡ true)
    × (all (is_queued_visible left_behind) recovered.db.snapshots ≡ true)
    × (all (is_started_visible 1000 left_behind recovered) recovered.db.snapshots ≡ true)
recover-visible_example = recover-visible (λ k t. t) 1000 left_behind
