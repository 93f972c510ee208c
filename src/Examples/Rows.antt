-- ===== src/Examples/Rows.antt =====
-- The queue protocol at a concrete row.
use archive_box.Base.{◌≡◌, refl, true, none, some, [], ◌∷◌, arith, any}
use archive_box.Queue.Table.{queued, started, sealed, find}
use archive_box.Queue.{crawl_class, pause, resume}
use archive_box.Queue.Claims.{winners, winners-one}
use archive_box.Queue.Pauses.{pause-resume_sealed, resume-pause, paused_row, resumed_row}
use archive_box.Admission.{slots_for_headroom}
use archive_box.Admission.Slots.{Fits, slots_for_headroom-Fits}
use archive_box.Examples.Data.{snapshot, db, snapshots-IsKeyed, found_snapshot, found_sealed}

winners-one_example : winners 60 (snapshot 7 queued) (850 ∷ 950 ∷ 960 ∷ []) db.snapshots ≡ 1
unfolding any
winners-one_example =
    winners-one 60 (snapshot 7 queued) (snapshot 7 queued) (850 ∷ 950 ∷ 960 ∷ []) db.snapshots
      (omega arith) snapshots-IsKeyed found_snapshot refl

pause-resume_sealed_example :
    ((pause crawl_class 1000 true (snapshot 8 started) db.snapshots).rows ≡ db.snapshots)
    × ((resume crawl_class none 1000 1001 true (snapshot 8 started) db.snapshots).rows
        ≡ db.snapshots)
pause-resume_sealed_example =
    pause-resume_sealed 1000 1001 none (snapshot 8 started) (snapshot 8 sealed) db.snapshots
      snapshots-IsKeyed found_sealed refl

resume-pause_example :
    let o = pause crawl_class 1000 true (snapshot 7 queued) db.snapshots in
    let q = resume crawl_class (some 5000) 1001 1002 true o.self o.rows in
    (o.done ≡ true)
    × (find 7 o.rows ≡ some (paused_row 1000 (snapshot 7 queued)))
    × (q.done ≡ true)
    × (find 7 q.rows ≡ some (resumed_row 1002 5000 (snapshot 7 queued)))
resume-pause_example =
    resume-pause 1000 1001 1002 5000 (snapshot 7 queued) (snapshot 7 queued) db.snapshots
      snapshots-IsKeyed found_snapshot refl refl

slots_for_headroom-Fits_example : Fits 2 100 550 (slots_for_headroom 8 2 100 550)
slots_for_headroom-Fits_example = slots_for_headroom-Fits 8 2 100 550 (omega arith)
