-- ===== src/Services/Reachable.antt =====
-- The writers of archivebox/crawls/models.py, archivebox/core/models.py and archivebox/services/
-- that move a crawl or a snapshot through its lifecycle, interleaved in any order, each one called
-- on an object that may be stale.
use archive_box.Base.{ℕ, ◌≡◌, refl, Bool, true, Option, some, List}
use archive_box.Text.{Text}
use archive_box.Queue.Table.{sealed, status_at}
use archive_box.Queue.{crawl_class}
use archive_box.Queue
use archive_box.Db.{Crawl, Snapshot, Db}
use archive_box.Db.Kept.{IsKept, IsKept-refl, IsKept-trans, Ensures}
use archive_box.Crawls.Urls.{Decoded}
use archive_box.Crawls.Lifecycle
use archive_box.Crawls.Kept
use archive_box.Snapshots
use archive_box.Snapshots.{of_outcome}
use archive_box.Snapshots.Kept as SnapshotsKept
use archive_box.Services
use archive_box.Services.Kept as ServicesKept

Ensures-some :
    {R : Type 0} (db_of : R → Db) (t u : Db) (o : Option R) (r : R)
    → Ensures db_of t o
    → o ≡ some r
    → u ≡ db_of r
    → IsKept t u
Ensures-some db_of t u o r h e same = rw same (rw e at h)

IsKept-eq : (t u v : Db) → IsKept t v → u ≡ v → IsKept t u
IsKept-eq t u v h same = rw same h

module _ (finalize : Snapshot → Db → Db) (decode : Text → Decoded) where
  -- One call. A method that raises has written nothing and is no step.
  pub data Step (t u : Db) : Type 0 where
    crawl_pause : (clock : ℕ → ℕ) (c : Crawl) → u ≡ (Lifecycle.pause clock true c t).db → Step t u
    crawl_resume :
        (clock : ℕ → ℕ) (when : Option ℕ) (c : Crawl)
        → u ≡ (Lifecycle.resume clock when true c t).db
        → Step t u
    crawl_cancel : (clock : ℕ → ℕ) (c : Crawl) → u ≡ (Lifecycle.cancel clock c t).1 → Step t u
    crawl_advance :
        (clock : ℕ → ℕ) (c : Crawl) (r : Lifecycle.Result)
        → Lifecycle.advance_lifecycle decode clock c t ≡ some r
        → u ≡ r.db
        → Step t u
    crawl_seal :
        (clock : ℕ → ℕ) (c : Crawl) (r : Lifecycle.Result)
        → Lifecycle.seal clock c t ≡ some r
        → u ≡ r.db
        → Step t u
    crawl_setup : (clock : ℕ → ℕ) (k : ℕ) → u ≡ Services.on_crawl_setup clock k t → Step t u
    crawl_start : (clock : ℕ → ℕ) (k : ℕ) → u ≡ Services.on_crawl_start clock k t → Step t u
    crawl_cleanup : (clock : ℕ → ℕ) (k : ℕ) → u ≡ Services.on_crawl_cleanup clock k t → Step t u
    crawl_completed :
        (clock : ℕ → ℕ) (k : ℕ) → Services.on_crawl_completed clock k t ≡ some u → Step t u
    crawl_deferred :
        (pressure : Bool) (excluded : List ℕ) (now : ℕ) (c : Crawl)
        → u ≡ (Services.defer_crawl_for_resources pressure excluded now c t).1
        → Step t u
    snapshot_start :
        (now : ℕ) (s : Snapshot) (r : Snapshots.Result)
        → Snapshots.start_processing now s t ≡ some r
        → u ≡ r.db
        → Step t u
    snapshot_seal :
        (now : ℕ) (s : Snapshot) (r : Snapshots.Result)
        → Snapshots.seal finalize now s t ≡ some r
        → u ≡ r.db
        → Step t u
    snapshot_reconcile :
        (clock : ℕ → ℕ) (lock_seconds : ℕ) (s : Snapshot) (r : Snapshots.Reconciled)
        → Snapshots.reconcile_parent_lifecycle finalize clock lock_seconds s t ≡ some r
        → u ≡ r.db
        → Step t u
    snapshot_park :
        (now : ℕ) (s : Snapshot)
        → u ≡ (Snapshots.restore_paused_scheduler_marker now s t).1
        → Step t u
    snapshot_pause :
        (now : ℕ) (s : Snapshot)
        → u ≡ (of_outcome (Queue.pause crawl_class now true s t.snapshots) t).db
        → Step t u
    snapshot_claim :
        (now lock_seconds : ℕ) (s : Snapshot)
        → u
          ≡ (of_outcome
              (Queue.claim_processing_lock crawl_class now lock_seconds s t.snapshots)
              t).db
        → Step t u

  pub data Reach (t : Db) : Db → Type 0 where
    here : Reach t t
    next : {u v : Db} → Reach t u → Step u v → Reach t v

module _ (finalize : Snapshot → Db → Db) (decode : Text → Decoded)
    (keeps : SnapshotsKept.FinalizeKeeps finalize) where
  Step-IsKept : {t u : Db} → Step finalize decode t u → IsKept t u
  Step-IsKept {t} {u} (Step.crawl_pause clock c e) = IsKept-eq t u _ (Kept.pause-IsKept clock c t) e
  Step-IsKept {t} {u} (Step.crawl_resume clock when c e) =
      IsKept-eq t u _ (Kept.resume-IsKept clock when c t) e
  Step-IsKept {t} {u} (Step.crawl_cancel clock c e) =
      IsKept-eq t u _ (Kept.cancel-IsKept clock c t) e
  Step-IsKept {t} {u} (Step.crawl_advance clock c r h e) =
      Ensures-some Kept.db_of t u _ r (Kept.advance_lifecycle-IsKept decode clock c t) h e
  Step-IsKept {t} {u} (Step.crawl_seal clock c r h e) =
      Ensures-some Kept.db_of t u _ r (Kept.seal-IsKept clock c t) h e
  Step-IsKept {t} {u} (Step.crawl_setup clock k e) =
      IsKept-eq t u _ (ServicesKept.on_crawl_setup-IsKept clock k t) e
  Step-IsKept {t} {u} (Step.crawl_start clock k e) =
      IsKept-eq t u _ (ServicesKept.on_crawl_start-IsKept clock k t) e
  Step-IsKept {t} {u} (Step.crawl_cleanup clock k e) =
      IsKept-eq t u _ (ServicesKept.on_crawl_cleanup-IsKept clock k t) e
  Step-IsKept {t} {u} (Step.crawl_completed clock k e) =
      Ensures-some ServicesKept.same_db t u _ u (ServicesKept.on_crawl_completed-IsKept clock k t) e
        refl
  Step-IsKept {t} {u} (Step.crawl_deferred pressure excluded now c e) =
      IsKept-eq t u _ (ServicesKept.defer-IsKept pressure excluded now c t) e
  Step-IsKept {t} {u} (Step.snapshot_start now s r h e) =
      Ensures-some SnapshotsKept.db_of t u _ r (SnapshotsKept.start_processing-IsKept now s t) h e
  Step-IsKept {t} {u} (Step.snapshot_seal now s r h e) =
      Ensures-some SnapshotsKept.db_of t u _ r (SnapshotsKept.seal-IsKept finalize keeps now s t) h
        e
  Step-IsKept {t} {u} (Step.snapshot_reconcile clock lock_seconds s r h e) =
      Ensures-some SnapshotsKept.reconciled_db t u _ r
        (SnapshotsKept.reconcile_parent_lifecycle-IsKept finalize keeps clock lock_seconds s t) h e
  Step-IsKept {t} {u} (Step.snapshot_park now s e) =
      IsKept-eq t u _ (SnapshotsKept.restore_marker-IsKept now s t) e
  Step-IsKept {t} {u} (Step.snapshot_pause now s e) =
      IsKept-eq t u _ (SnapshotsKept.pause-IsKept now s t) e
  Step-IsKept {t} {u} (Step.snapshot_claim now lock_seconds s e) =
      IsKept-eq t u _ (SnapshotsKept.claim-IsKept now lock_seconds s t) e

  Reach-IsKept : {t u : Db} → Reach finalize decode t u → IsKept t u
  Reach-IsKept {t} Reach.here = IsKept-refl t
  Reach-IsKept {t} {u = v} (Reach.next {u = w} r st) =
      IsKept-trans t w v (Reach-IsKept r) (Step-IsKept st)

  -- Whatever the order of these calls, and however stale the objects that they are made on, a crawl
  -- that is sealed stays sealed, as long as `finalize_output_metadata` keeps what is sealed.
  pub crawl_sealed_final :
      (t u : Db) (k : ℕ)
      → Reach finalize decode t u
      → status_at k t.crawls ≡ some sealed
      → status_at k u.crawls ≡ some sealed
  crawl_sealed_final t u k r = (Reach-IsKept r).crawls.at_key k

  -- Whatever the order of these calls, and however stale the objects that they are made on, a
  -- snapshot that is sealed stays sealed, as long as `finalize_output_metadata` keeps what is sealed.
  pub snapshot_sealed_final :
      (t u : Db) (k : ℕ)
      → Reach finalize decode t u
      → status_at k t.snapshots ≡ some sealed
      → status_at k u.snapshots ≡ some sealed
  snapshot_sealed_final t u k r = (Reach-IsKept r).snapshots.at_key k
