-- ===== src/Examples/Data.antt =====
-- A crawl with two snapshots, one queued and one sealed.
use archive_box.Base.{ℕ, ◌+◌, ◌≡◌, refl, none, some, [], ◌∷◌}
use archive_box.Queue.Table.{Status, queued, started, sealed, IsKeyed, find}
use archive_box.Db.{Crawl, Snapshot, Db}

abbrev pub clock : ℕ → ℕ
clock n = 1000 + n

abbrev pub crawl : Crawl
crawl = record {
  pk = 1;
  status = started;
  retry_at = some 900;
  modified_at = 800;
  columns = record { urls = []; max_depth = 1 };
}

abbrev pub snapshot : ℕ → Status → Snapshot
snapshot pk status = record {
  pk = pk;
  status = status;
  retry_at = some 900;
  modified_at = 800;
  columns = record {
    crawl_id = 1;
    url = 104 ∷ [];
    depth = 0;
    created_at = 700;
    downloaded_at = none;
    output_size = 0;
    settings = 0;
    retry_plugins = [];
  };
}

abbrev pub db : Db
db = record { crawls = crawl ∷ []; snapshots = snapshot 7 queued ∷ snapshot 8 sealed ∷ [] }

pub crawls-IsKeyed : IsKeyed db.crawls
unfolding find
crawls-IsKeyed = (refl, tt)

pub snapshots-IsKeyed : IsKeyed db.snapshots
unfolding find
snapshots-IsKeyed = (refl, (refl, tt))

pub found_crawl : find 1 db.crawls ≡ some crawl
unfolding find
found_crawl = refl

pub found_snapshot : find 7 db.snapshots ≡ some (snapshot 7 queued)
unfolding find
found_snapshot = refl

pub found_sealed : find 8 db.snapshots ≡ some (snapshot 8 sealed)
unfolding find
found_sealed = refl
