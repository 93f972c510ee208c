-- ===== src/Db/Kept.antt =====
-- Tables that still have what another pair of tables has sealed; the writers of
-- archivebox/crawls/models.py, archivebox/core/models.py and archivebox/services/ are held to it.
use archive_box.Base.{Bool, true, false, Option, none, some, if◌then◌else◌}
use archive_box.Queue.Sealed.{KeepsSealed, KeepsSealed-refl, KeepsSealed-trans}
use archive_box.Db.{Db}

pub record IsKept (t u : Db) : Type 0 where
  pub crawls : KeepsSealed t.crawls u.crawls
  pub snapshots : KeepsSealed t.snapshots u.snapshots

pub IsKept-refl : (t : Db) → IsKept t t
IsKept-refl t = record {
  crawls = KeepsSealed-refl t.crawls;
  snapshots = KeepsSealed-refl t.snapshots;
}

pub IsKept-trans : (t u v : Db) → IsKept t u → IsKept u v → IsKept t v
IsKept-trans t u v h g = record {
  crawls = KeepsSealed-trans t.crawls u.crawls v.crawls h.crawls g.crawls;
  snapshots = KeepsSealed-trans t.snapshots u.snapshots v.snapshots h.snapshots g.snapshots;
}

-- an outcome by cases keeps what both cases keep
module _ {R : Type 0} (db_of : R → Db) (t : Db) where
  pub IsKept-if :
      (c : Bool) (a b : R)
      → IsKept t (db_of a)
      → IsKept t (db_of b)
      → IsKept t (db_of (if c then a else b))
  IsKept-if true a b ha hb = ha
  IsKept-if false a b ha hb = hb

  -- a result that may be an exception
  abbrev pub Ensures : Option R → Type 0
  Ensures none = Unit
  Ensures (some r) = IsKept t (db_of r)

  pub Ensures-if :
      (c : Bool) (a b : Option R) → Ensures a → Ensures b → Ensures (if c then a else b)
  Ensures-if true a b ha hb = ha
  Ensures-if false a b ha hb = hb
