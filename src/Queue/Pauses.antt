-- ===== src/Queue/Pauses.antt =====
-- `pause` and `resume` of workers/models.py.
use archive_box.Base.{
  ℕ, ◌≡◌, ◌≢◌, refl, sym, true, false, some, List, [], ◌∷◌, arith, or_else, Option,
}
use mathlib.Core.Path.{subst}
use archive_box.Queue.Table.{
  Row, IsKeyed, find, pk-find, queued, started, paused, sealed, eq_status_iff,
}
use archive_box.Queue.Update.{safe_update_lem}
use archive_box.Queue.{
  Outcome, crawl_class, move_to, has_status, is_in, retry_at_max, safe_update, pause, resume,
}

module _ {E : Type 0} where
  -- Pausing a row, in a table with unique keys, whose status another writer changed after it was
  -- loaded writes nothing and reports failure.
  pub pause_stale :
      (now : ℕ) (self r : Row E) (t : List (Row E))
      → IsKeyed t
      → find self.pk t ≡ some r
      → r.status ≢ self.status
      → let o = pause crawl_class now true self t in (o.done ≡ false) × (o.rows ≡ t)
  unfolding pause
  pause_stale now self r t keyed found stale =
      let g =
        safe_update_lem now (move_to paused (some retry_at_max)) true (has_status self.status)
          (record self { status = paused; retry_at = some retry_at_max }) r t keyed found in
      ground (arith, g.reported, g.missed, eq_status_iff r.status self.status)

  -- Neither `pause` nor `resume` of a Crawl or Snapshot changes a table with unique keys in which the
  -- row of the object is sealed, however stale the object is.
  pub pause-resume_sealed :
      (now stamp : ℕ) (when : Option ℕ) (self r : Row E) (t : List (Row E))
      → IsKeyed t
      → find self.pk t ≡ some r
      → r.status ≡ sealed
      → ((pause crawl_class now true self t).rows ≡ t)
        × ((resume crawl_class when now stamp true self t).rows ≡ t)
  unfolding pause resume
  pause-resume_sealed now stamp when self r t keyed found final =
      let g =
        safe_update_lem now (move_to paused (some retry_at_max)) true (has_status self.status)
          (record self { status = paused; retry_at = some retry_at_max }) r t keyed found in
      let at = or_else when now in
      let h =
        safe_update_lem stamp (move_to queued (some at)) true (has_status paused)
          (record self { status = queued; retry_at = some at }) r t keyed found in
      (ground (arith, g.missed), ground (arith, h.missed))

  pub pause_lem :
      (now : ℕ) (self : Row E) (t : List (Row E))
      → is_in self.status (queued ∷ started ∷ []) ≡ true
      → pause crawl_class now true self t
        ≡ safe_update now
            (move_to paused (some retry_at_max))
            true
            (has_status self.status)
            (record self { status = paused; retry_at = some retry_at_max })
            t
  unfolding pause
  pause_lem now self t open_row = ground arith

  pub resume_lem :
      (now stamp at : ℕ) (self : Row E) (t : List (Row E))
      → self.status ≡ paused
      → resume crawl_class (some at) now stamp true self t
        ≡ safe_update stamp
            (move_to queued (some at))
            true
            (has_status paused)
            (record self { status = queued; retry_at = some at })
            t
  unfolding resume
  resume_lem now stamp at self t held = ground arith

  abbrev pub paused_row : ℕ → Row E → Row E
  paused_row now r = record r { status = paused; retry_at = some retry_at_max; modified_at = now }

  abbrev pub resumed_row : ℕ → ℕ → Row E → Row E
  resumed_row now at r = record r { status = queued; retry_at = some at; modified_at = now }

  -- an outcome that reports success and leaves `r` in the object and in the table
  record IsRow (k : ℕ) (r : Row E) (o : Outcome E) : Type 0 where
    reported : o.done ≡ true
    object : o.self ≡ r
    found : find k o.rows ≡ some r
    keyed : IsKeyed o.rows

  pause_row :
      (now : ℕ) (self r : Row E) (t : List (Row E))
      → IsKeyed t
      → find self.pk t ≡ some r
      → r.status ≡ self.status
      → is_in self.status (queued ∷ started ∷ []) ≡ true
      → IsRow self.pk (paused_row now r) (pause crawl_class now true self t)
  pause_row now self r t keyed found same open_row =
      let g =
        safe_update_lem now (move_to paused (some retry_at_max)) true (has_status self.status)
          (record self { status = paused; retry_at = some retry_at_max }) r t keyed found in
      let hit : has_status self.status r ≡ true = ground (arith, same) in
      rw (pause_lem now self t open_row) (record {
        reported = rw g.reported hit;
        object = rw g.object (ground (arith, hit));
        found = rw g.written (ground (arith, hit));
        keyed = g.rows_keyed;
      })

  resume_row :
      (now stamp at : ℕ) (self r : Row E) (t : List (Row E))
      → IsKeyed t
      → find self.pk t ≡ some r
      → self.status ≡ paused
      → r.status ≡ paused
      → IsRow self.pk (resumed_row stamp at r) (resume crawl_class (some at) now stamp true self t)
  resume_row now stamp at self r t keyed found held same =
      let g =
        safe_update_lem stamp (move_to queued (some at)) true (has_status paused)
          (record self { status = queued; retry_at = some at }) r t keyed found in
      let hit : has_status paused r ≡ true = ground (arith, same) in
      rw (resume_lem now stamp at self t held) (record {
        reported = rw g.reported hit;
        object = rw g.object (ground (arith, hit));
        found = rw g.written (ground (arith, hit));
        keyed = g.rows_keyed;
      })

  -- A queued or started object is paused, whose row has the same status in a table with unique keys,
  -- and then resumed for `at`: the row is first due at the end of time, and then queued for that
  -- instant; both calls report success.
  pub resume-pause :
      (now stamp later at : ℕ) (self r : Row E) (t : List (Row E))
      → IsKeyed t
      → find self.pk t ≡ some r
      → r.status ≡ self.status
      → is_in self.status (queued ∷ started ∷ []) ≡ true
      → let o = pause crawl_class now true self t in
        let q = resume crawl_class (some at) stamp later true o.self o.rows in
        (o.done ≡ true)
        × (find self.pk o.rows ≡ some (paused_row now r))
        × (q.done ≡ true)
        × (find self.pk q.rows ≡ some (resumed_row later at r))
  resume-pause now stamp later at self r t keyed found same open_row =
      let p = pause_row now self r t keyed found same open_row in
      let k : r.pk ≡ self.pk = pk-find self.pk t r found in
      let rows = (pause crawl_class now true self t).rows in
      let found' = subst (λ j. find j rows ≡ some (paused_row now r)) (sym k) p.found in
      let q =
        resume_row stamp later at (paused_row now r) (paused_row now r) rows p.keyed found' refl
          refl in
      let resumed = (resume crawl_class (some at) stamp later true (paused_row now r) rows).rows in
      rw p.object (
        p.reported,
        p.found,
        q.reported,
        subst (λ j. find j resumed ≡ some (resumed_row later at r)) k q.found,
      )
