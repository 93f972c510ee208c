-- ===== src/Recovery/Uploads.antt =====
-- The snapshots that have uploads of the browser extension and nothing else, and their crawls
-- (archivebox/core/recovery_util.py).
use archive_box.Base.{
  ℕ, ◌≡◌, refl, Bool, true, false, ◌&&◌, not, List, [], ◌∷◌, arith, ◌==◌, any, ◌||◌, all,
}
use archive_box.Queue.Table.{sealed, eq_status}
use archive_box.Db.{Snapshot}
use archive_box.Recovery.{Tables, HookResult, uploads_only}

-- the snapshot has results, and each is an upload of the browser extension
abbrev pub has_only_uploads : List HookResult → ℕ → Bool
has_only_uploads results k =
    any (λ (r : HookResult). r.snapshot_id == k) results
    && all (λ (r : HookResult). not (r.snapshot_id == k) || r.is_upload) results

abbrev pub is_reopened_snapshot : Tables → ℕ → Bool
is_reopened_snapshot t k = has_only_uploads t.results k

-- a sealed snapshot of the crawl has uploads only
abbrev pub is_reopened_crawl : Tables → ℕ → Bool
is_reopened_crawl t k =
    any
      (λ (s : Snapshot).
        s.columns.crawl_id == k && (eq_status s.status sealed && has_only_uploads t.results s.pk))
      t.db.snapshots

pub any-implies :
    {A : Type 0} (p q : A → Bool) (xs : List A)
    → ((x : A) → p x ≡ true → q x ≡ true)
    → any p xs ≡ true
    → any q xs ≡ true
unfolding any
any-implies p q [] step h = h
any-implies p q (x ∷ xs) step h = ground (arith, step x, any-implies p q xs step)

not-any :
    (results : List HookResult) (k : ℕ)
    → any (λ (r : HookResult). not r.is_upload && r.snapshot_id == k) results ≡ false
    → all (λ (r : HookResult). not (r.snapshot_id == k) || r.is_upload) results ≡ true
unfolding any all
not-any [] k h = refl
not-any (r ∷ results) k h = ground (arith, not-any results k)

pub only_uploads :
    (results : List HookResult) (k : ℕ)
    → uploads_only results k ≡ true
    → has_only_uploads results k ≡ true
only_uploads results k h = ground (
  arith,
  any-implies (λ (r : HookResult). r.is_upload && r.snapshot_id == k)
      (λ (r : HookResult). r.snapshot_id == k) results (λ r m. ground arith),
  not-any results k,
)
