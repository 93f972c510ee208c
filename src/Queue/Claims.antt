-- ===== src/Queue/Claims.antt =====
-- Claims of a queue row by several workers: `claim_for_worker`, `claim_processing_lock` and
-- `get_queue` of workers/models.py.
use archive_box.Base.{
  ℕ, ◌+◌, ◌<◌, ◌≡◌, ◌≢◌, refl, Bool, true, false, ◌&&◌, ◌||◌, some, List, [], ◌∷◌, arith,
  if◌then◌else◌, eq_option, eq_option_iff, lte_option, any, Bool-cases, inl, inr,
}
use archive_box.Queue.Table.{
  Row, KeepsKey, IsKeyed, find, change_if, count_where-key, update_where-IsKeyed,
}
use archive_box.Queue.Table.Keyed.{find-update_where_self, update_where_miss}
use archive_box.Queue.{seconds, lease, claim_for_worker}

module _ {E : Type 0} where
  -- what `claim_for_worker` asks of the row, beside its key
  abbrev pub claimable : ℕ → Row E → Row E → Bool
  claimable now obj r = eq_option r.retry_at obj.retry_at && lte_option r.retry_at now

  lease-KeepsKey : (now until : ℕ) → KeepsKey {E = E} (lease now until)
  lease-KeepsKey now until r = refl

  module _ (now lock_seconds : ℕ) (obj r : Row E) (t : List (Row E)) (keyed : IsKeyed t)
      (found : find obj.pk t ≡ some r) where
    pub claim-done : (claim_for_worker now lock_seconds obj t).done ≡ claimable now obj r
    unfolding claim_for_worker
    claim-done = rw (count_where-key obj.pk (claimable now obj) t keyed) (rw found (ground arith))

    pub claim-rows :
        find obj.pk (claim_for_worker now lock_seconds obj t).rows
        ≡ some (change_if (claimable now obj) (lease now (now + seconds lock_seconds)) r)
    unfolding claim_for_worker
    claim-rows =
        find-update_where_self obj.pk (claimable now obj) (lease now (now + seconds lock_seconds)) t
          r (lease-KeepsKey now (now + seconds lock_seconds)) found

    pub claim_miss :
        claimable now obj r ≡ false → (claim_for_worker now lock_seconds obj t).rows ≡ t
    unfolding claim_for_worker
    claim_miss miss =
        update_where_miss _ _ t
          (rw (count_where-key obj.pk (claimable now obj) t keyed) (rw found (ground arith)))

  pub claim-IsKeyed :
      (now lock_seconds : ℕ) (obj : Row E) (t : List (Row E))
      → IsKeyed t
      → IsKeyed (claim_for_worker now lock_seconds obj t).rows
  unfolding claim_for_worker
  claim-IsKeyed now lock_seconds obj t keyed =
      update_where-IsKeyed _ _ t (lease-KeepsKey now (now + seconds lock_seconds)) keyed

  -- Workers that all loaded the row as `obj` claim it one after the other, at the given instants:
  -- how many of them are told that they won.
  pub winners : ℕ → Row E → List ℕ → List (Row E) → ℕ
  winners lock_seconds obj [] t = 0
  winners lock_seconds obj (now ∷ later) t =
      let o = claim_for_worker now lock_seconds obj t in
      (if o.done then 1 else 0) + winners lock_seconds obj later o.rows

  winners_lost :
      (lock_seconds : ℕ) (obj r : Row E) (nows : List ℕ) (t : List (Row E))
      → IsKeyed t
      → find obj.pk t ≡ some r
      → r.retry_at ≢ obj.retry_at
      → winners lock_seconds obj nows t ≡ 0
  unfolding winners
  winners_lost lock_seconds obj r [] t keyed found lost = refl
  winners_lost lock_seconds obj r (now ∷ later) t keyed found lost =
      let miss : claimable now obj r ≡ false =
        ground (arith, eq_option_iff r.retry_at obj.retry_at) in
      rw
        (
          claim-done now lock_seconds obj r t keyed found,
          miss,
          claim_miss now lock_seconds obj r t keyed found miss,
        )
        (omega (arith, winners_lost lock_seconds obj r later t keyed found lost))

  -- the lease outlasts the instant of the claim, so the row no longer matches
  winners-won :
      (lock_seconds : ℕ) (obj r : Row E) (now : ℕ) (later : List ℕ) (t : List (Row E))
      → 0 < lock_seconds
      → IsKeyed t
      → find obj.pk t ≡ some r
      → r.retry_at ≡ obj.retry_at
      → lte_option obj.retry_at now ≡ true
      → winners lock_seconds obj (now ∷ later) t
        ≡ (if lte_option obj.retry_at now || any (lte_option obj.retry_at) later then 1 else 0)
  unfolding winners
  winners-won lock_seconds obj r now later t pos keyed found same due =
      let until = now + seconds lock_seconds in
      let hit : claimable now obj r ≡ true =
        ground (arith, same, eq_option_iff r.retry_at obj.retry_at) in
      let kept : find obj.pk (claim_for_worker now lock_seconds obj t).rows
          ≡ some (lease now until r) =
        ground (arith, hit, claim-rows now lock_seconds obj r t keyed found) in
      let moved : some until ≢ obj.retry_at = ground arith in
      rw (claim-done now lock_seconds obj r t keyed found, hit, due)
        (omega (
          arith,
          winners_lost lock_seconds obj (lease now until r) later
              (claim_for_worker now lock_seconds obj t).rows
              (claim-IsKeyed now lock_seconds obj t keyed) kept moved,
        ))

  -- In a table with unique keys, and with a lease longer than nothing: of any number of workers that
  -- loaded a row with the `retry_at` that the table has, and claim it one after the other, exactly one
  -- wins the lease if the row is due at the instant of one of the claims, and none otherwise.
  pub winners-one :
      (lock_seconds : ℕ) (obj r : Row E) (nows : List ℕ) (t : List (Row E))
      → 0 < lock_seconds
      → IsKeyed t
      → find obj.pk t ≡ some r
      → r.retry_at ≡ obj.retry_at
      → winners lock_seconds obj nows t ≡ (if any (lte_option obj.retry_at) nows then 1 else 0)
  unfolding winners any
  winners-one lock_seconds obj r [] t pos keyed found same = refl
  winners-one lock_seconds obj r (now ∷ later) t pos keyed found same =
      elim (Bool-cases (lte_option obj.retry_at now)) [
        | inl due ↦ winners-won lock_seconds obj r now later t pos keyed found same due
        | inr early ↦
            let miss : claimable now obj r ≡ false = ground (arith, same) in
            rw
              (
                claim-done now lock_seconds obj r t keyed found,
                miss,
                claim_miss now lock_seconds obj r t keyed found miss,
                early,
              )
              (omega (arith, winners-one lock_seconds obj r later t pos keyed found same))
      ]
