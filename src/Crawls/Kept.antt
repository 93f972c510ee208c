-- ===== src/Crawls/Kept.antt =====
-- The methods of `Crawl` (archivebox/crawls/models.py) keep the rows that are sealed.
use mathlib.Core.Option
use archive_box.Base.{
  ℕ, suc, refl, true, false, ◌&&◌, not, Option, none, some, List, [], ◌∷◌, arith, select, ◌+◌,
}
use archive_box.Text.{Text}
use archive_box.Queue.Table.{find, eq_status, Status, queued, started, sealed, paused}
use archive_box.Queue.Sealed.{
  KeepsSealed, KeepsSealed-refl, KeepsSealed-trans, update_where-KeepsSealed,
  safe_update-KeepsSealed, pause-KeepsSealed, resume-KeepsSealed,
}
use archive_box.Queue.{safe_update, crawl_class, seconds, has_status, is_in, move_to}
use archive_box.Queue
use archive_box.Db.{CrawlColumns, Crawl, Snapshot, Db, open_states, wake_children, wake}
use archive_box.Db.Kept.{IsKept, IsKept-refl, IsKept-trans, IsKept-if, Ensures, Ensures-if}
use archive_box.Crawls.Urls.{Decoded, can_start}
use archive_box.Crawls.Lifecycle
use archive_box.Crawls.Lifecycle.{
  has_finished_snapshots, is_finished, not_final, of_outcome, pause_children,
  schedule_child_snapshots_for_sealing,
}

abbrev pub db_of : Lifecycle.Result → Db
db_of r = r.db

pub pause_children-KeepsSealed :
    (clock : ℕ → ℕ) (ss t : List Snapshot) → KeepsSealed t (pause_children clock ss t)
unfolding pause_children
pause_children-KeepsSealed clock [] t = KeepsSealed-refl t
pause_children-KeepsSealed clock (s ∷ ss) t =
    let rows = (Queue.pause crawl_class (clock 0) true s t).rows in
    KeepsSealed-trans t rows (pause_children (λ n. clock (suc n)) ss rows)
      (pause-KeepsSealed (clock 0) s t) (pause_children-KeepsSealed (λ n. clock (suc n)) ss rows)

pub wake_children-IsKept :
    (now crawl_id : ℕ) (states : List Status) (t : Db)
    → IsKept t (wake_children now crawl_id states t).0
unfolding wake_children
wake_children-IsKept now crawl_id states t = record {
  crawls = KeepsSealed-refl t.crawls;
  snapshots = update_where-KeepsSealed _ (wake now) t.snapshots (λ r. refl) (λ r h. ground arith);
}

pub pause-IsKept :
    (clock : ℕ → ℕ) (self : Crawl) (t : Db) → IsKept t (Lifecycle.pause clock true self t).db
unfolding Lifecycle.pause
pause-IsKept clock self t =
    IsKept-if db_of t ((Queue.pause crawl_class (clock 0) true self t.crawls).done && true) _
      (of_outcome (Queue.pause crawl_class (clock 0) true self t.crawls) t)
      (record {
        crawls = pause-KeepsSealed (clock 0) self t.crawls;
        snapshots =
            pause_children-KeepsSealed (λ n. clock (suc n)) (select (not_final self.pk) t.snapshots)
              t.snapshots;
      })
      (record {
        crawls = pause-KeepsSealed (clock 0) self t.crawls;
        snapshots = KeepsSealed-refl t.snapshots;
      })

pub resume-IsKept :
    (clock : ℕ → ℕ) (when : Option ℕ) (self : Crawl) (t : Db)
    → IsKept t (Lifecycle.resume clock when true self t).db
unfolding Lifecycle.resume
resume-IsKept clock when self t =
    IsKept-if db_of t (Queue.resume crawl_class when (clock 0) (clock 1) true self t.crawls).done _
      _
      (record {
        crawls = resume-KeepsSealed when (clock 0) (clock 1) self t.crawls;
        snapshots = update_where-KeepsSealed _ _ t.snapshots (λ r. refl) (λ r h. ground arith);
      })
      (record {
        crawls = resume-KeepsSealed when (clock 0) (clock 1) self t.crawls;
        snapshots = KeepsSealed-refl t.snapshots;
      })

pub cancel-IsKept :
    (clock : ℕ → ℕ) (self : Crawl) (t : Db) → IsKept t (Lifecycle.cancel clock self t).1
unfolding Lifecycle.cancel schedule_child_snapshots_for_sealing
cancel-IsKept clock self t = record {
  crawls = update_where-KeepsSealed _ _ t.crawls (λ r. refl) (λ r h. ground arith);
  snapshots = (wake_children-IsKept (clock 1) self.pk open_states t).snapshots;
}

pub mark_started-IsKept :
    (clock : ℕ → ℕ) (self : Crawl) (t : Db) → IsKept t (Lifecycle.mark_started clock self t).db
unfolding Lifecycle.mark_started
mark_started-IsKept clock self t = record {
  crawls =
      safe_update-KeepsSealed (clock 1) (move_to started (some (clock 0 + seconds 2))) true
        (has_status queued) self t.crawls (λ r h g. ground arith);
  snapshots = KeepsSealed-refl t.snapshots;
}

Ensures-map :
    (t u : Db) (o : Option Crawl)
    → IsKept t u
    → Ensures db_of t (Option.map (λ c. record { done = false; crawl = c; db = u }) o)
Ensures-map t u none h = tt
Ensures-map t u (some c) h = h

pub seal-IsKept :
    (clock : ℕ → ℕ) (self : Crawl) (t : Db) → Ensures db_of t (Lifecycle.seal clock self t)
unfolding Lifecycle.seal schedule_child_snapshots_for_sealing
seal-IsKept clock self t =
    let changes = record (move_to {E = CrawlColumns} sealed none) {
      modified_at = some (clock 0);
    } in
    let guard = λ (c : Crawl). is_in c.status (queued ∷ started ∷ sealed ∷ []) in
    let o = safe_update (clock 0) changes false guard self t.crawls in
    let u : Db = record t { crawls = o.rows } in
    let kept : IsKept t u = record {
      crawls = safe_update-KeepsSealed (clock 0) changes false guard self t.crawls (λ r h g. refl);
      snapshots = KeepsSealed-refl t.snapshots;
    } in
    Ensures-if db_of t o.done _ _
      (IsKept-trans t u _ kept (wake_children-IsKept (clock 1) self.pk open_states u))
      (Ensures-map t u (find self.pk o.rows) kept)

pub advance_lifecycle-IsKept :
    (decode : Text → Decoded) (clock : ℕ → ℕ) (self : Crawl) (t : Db)
    → Ensures db_of t (Lifecycle.advance_lifecycle decode clock self t)
unfolding Lifecycle.advance_lifecycle
advance_lifecycle-IsKept decode clock self t =
    Ensures-if db_of t (eq_status self.status paused) _ _ (IsKept-refl t) (
      Ensures-if db_of t (eq_status self.status queued) _ _
        (Ensures-if db_of t (has_finished_snapshots self t) _ _ (seal-IsKept clock self t) (
          Ensures-if db_of t (not (can_start decode self.columns.urls)) _ _ (IsKept-refl t)
            (mark_started-IsKept clock self t)))
        (Ensures-if db_of t (eq_status self.status started && is_finished self t) _ _
          (seal-IsKept clock self t) (IsKept-refl t)))
