-- ===== src/Snapshots/Plugins/Requests.antt =====
-- `Snapshot.schedule_plugin_run` of archivebox/core/models.py against other writers of the row.
use archive_box.Base.{
  ℕ, zero, suc, ◌<◌, ◌≡◌, ◌≢◌, ◌⊎◌, refl, ap, ◌∙◌, Bool, true, false, ◌&&◌, ◌||◌, Option, none,
  some, List, [], ◌∷◌, ◌++◌, arith, ◌==◌, inl, inr, Bool-cases, Option-cases, eq_option_iff, All,
  or_else,
}
use native.Mathlib.Decide.{ℕ_discrete}
use archive_box.Text.{Text, is_in}
use archive_box.Text.Names.{stripped, eq_names_iff, is_in-sorted_set, is_in-append}
use archive_box.Text.Stripping.{IsName, stripped-IsName, sorted_set-All, append-All, stripped-names}
use archive_box.Queue.Table.{
  IsKeyed, find, eq_status_iff, update_where, count_where, count_where-key, pk-find, hits,
}
use archive_box.Queue.Table.Keyed.{find-update_where_self}
use archive_box.Db.{Crawl, Snapshot, Db}
use archive_box.Snapshots.Plugins.{
  Answer, returned, as_read, union, with_request, wake_parent, requested, after_try, try_request,
  attempts, max_attempts, nothing_to_run, plugin_names, schedule_plugin_run,
}

as_read_self : (s : Snapshot) → as_read s s ≡ true
as_read_self s = ground (
  arith,
  eq_names_iff s.columns.retry_plugins s.columns.retry_plugins,
  eq_status_iff s.status s.status,
  eq_option_iff s.retry_at s.retry_at,
)

-- The count of a filter on a key that a row with that key meets.
counted :
    (k : ℕ) (c : Snapshot → Bool) (rows : List Snapshot) (r : Snapshot)
    → find k rows ≡ some r
    → c r ≡ true
    → count_where (λ r. r.pk == k && c r) rows ≢ 0
unfolding find count_where
counted k c [] r h met = cc
counted k c (x ∷ rows) r h met = elim (Bool-cases (x.pk == k)) [
  | inl here ↦ λ z. ground (arith)
  | inr later ↦ λ z. counted k c rows r (ground (arith, later)) met (ground (arith, later, z))
]

-- With the row as it was read the update matches.
try_quiet :
    (names : List Text) (retry_at : ℕ) (clock : ℕ → ℕ) (current : Snapshot) (crawl : Crawl) (t : Db)
    → find current.pk t.snapshots ≡ some current
    → (try_request names retry_at clock current crawl t).0 ≡ true
unfolding try_request
try_quiet names retry_at clock current crawl t h =
    let matched =
      counted current.pk (as_read current) t.snapshots current h (as_read_self current) in
    ground arith

-- What an attempt leaves: nothing, or the row that it found with the request.
abbrev Tried : List Text → ℕ → ℕ → Snapshot → Db → Bool × Db → Type 0
Tried names at now current t (false, u) = u ≡ t
Tried names at now current t (true, u) =
    (r : Snapshot) × (as_read current r ≡ true)
    × (find current.pk u.snapshots ≡ some (with_request names at now current r))

requested-snapshots :
    (names : List Text) (at : ℕ) (clock : ℕ → ℕ) (current : Snapshot) (crawl : Crawl) (t : Db)
    → (requested names at clock current crawl t).snapshots
      ≡ update_where
          (λ r. r.pk == current.pk && as_read current r)
          (with_request names at (clock 0) current)
          t.snapshots
unfolding requested wake_parent
requested-snapshots names at clock current crawl t = ground arith

-- With a unique key, the row that an update on a key matched.
matched_row :
    (k : ℕ) (c : Snapshot → Bool) (rows : List Snapshot)
    → IsKeyed rows
    → (count_where (λ r. r.pk == k && c r) rows == 0) ≡ false
    → (r : Snapshot) × (find k rows ≡ some r) × (c r ≡ true)
matched_row k c rows keyed h = elim (Option-cases (find k rows)) [
  | inl e ↦
      let none_hit : count_where (λ r. r.pk == k && c r) rows ≡ 0 =
        ground (arith, count_where-key k c rows keyed, e) in
      cc (none_hit, rw none_hit at h)
  | inr (r, e) ↦ (r, e, ground (arith, count_where-key k c rows keyed, e))
]

try_lem :
    (names : List Text) (at : ℕ) (clock : ℕ → ℕ) (current : Snapshot) (crawl : Crawl) (t : Db)
    → IsKeyed t.snapshots
    → Tried names at (clock 0) current t (try_request names at clock current crawl t)
unfolding try_request
try_lem names at clock current crawl t keyed =
    elim (Bool-cases
      (count_where (λ (r : Snapshot). r.pk == current.pk && as_read current r) t.snapshots == 0)) [
        | inl miss ↦ rw miss refl
        | inr matched ↦
            let (r, e, read) = matched_row current.pk (as_read current) t.snapshots keyed matched in
            let row =
              find-update_where_self current.pk (as_read current)
                (with_request names at (clock 0) current) t.snapshots r (λ _. refl) e in
            rw matched (
              r,
              read,
              rw (requested-snapshots names at clock current crawl t) (row ∙ rw read refl),
            )
      ]

-- Whether a name is pending in the row of the snapshot.
abbrev pub pending : ℕ → Text → Db → Bool
pending k x t =
    hits (λ (r : Snapshot). is_in x (stripped r.columns.retry_plugins)) (find k t.snapshots)

union-names :
    (names : List Text) (current : Snapshot)
    → All IsName names
    → stripped (union names current) ≡ union names current
union-names names current h = stripped-names _ (
    sorted_set-All IsName _
      (append-All IsName _ names (stripped-IsName current.columns.retry_plugins) h))

is_in-union :
    (x : Text) (names : List Text) (current : Snapshot)
    → is_in x (union names current)
      ≡ (is_in x (stripped current.columns.retry_plugins) || is_in x names)
is_in-union x names current =
    is_in-sorted_set x (stripped current.columns.retry_plugins ++ names)
    ∙ is_in-append x (stripped current.columns.retry_plugins) names

-- What the row has after a run that succeeded.
abbrev pub Requested : ℕ → Text → ℕ → Db → Type 0
Requested k x at u =
    (r : Snapshot) × (find k u.snapshots ≡ some r)
    × (r.retry_at ≡ some at)
    × (is_in x (stripped r.columns.retry_plugins) ≡ true)

module _ (names : List Text) (at : ℕ) (others : ℕ → Db → Db) (clock : ℕ → ℕ → ℕ) (k : ℕ)
    (keeps_keys : (n : ℕ) (t : Db) → IsKeyed t.snapshots → IsKeyed (others n t).snapshots) where
  in_union :
      (x : Text)
      → All IsName names
      → (current : Snapshot) (t : Db) → find k t.snapshots ≡ some current
      → (pending k x t ≡ true) ⊎ (is_in x names ≡ true)
      → is_in x (stripped (union names current)) ≡ true
  in_union x good current t here wanted =
      ap (is_in x) (union-names names current good) ∙ (is_in-union x names current ∙ either wanted)
    where
      either :
          (pending k x t ≡ true) ⊎ (is_in x names ≡ true)
          → (is_in x (stripped current.columns.retry_plugins) || is_in x names) ≡ true
      either (inl p) =
          let q : is_in x (stripped current.columns.retry_plugins) ≡ true = rw here at p in
          rw q refl
      either (inr q) = ground (arith, q)

  settle :
      (x : Text) (now : ℕ) (current : Snapshot) (v u : Db)
      → current.pk ≡ k
      → is_in x (stripped (union names current)) ≡ true
      → (p : Bool × Db) → Tried names at now current v p
      → (again : Db → Answer × Db)
      → ((w : Db) → w ≡ v → again w ≡ (returned true, u) → Requested k x at u)
      → after_try p again ≡ (returned true, u)
      → Requested k x at u
  settle x now current v u key inside (false, w) same again ih h = ih w same h
  settle x now current v u key inside (true, w) (r, read, row) again ih h = (
    with_request names at now current r,
    ground (arith, row, key, ap (λ (z : Answer × Db). z.1) h),
    refl,
    inside,
  )

  -- after an attempt: the tables of the attempts before it, or the row with the request
  kept_request :
      (x : Text)
      → All IsName names
      → ((n : ℕ) (t : Db) → pending k x t ≡ true → pending k x (others n t) ≡ true)
      → (n : ℕ) (t u : Db) → IsKeyed t.snapshots
      → (pending k x t ≡ true) ⊎ (is_in x names ≡ true)
      → attempts names at others clock k n t ≡ (returned true, u)
      → Requested k x at u
  unfolding attempts
  kept_request x good keeps zero t u keyed wanted h = cc
  kept_request x good keeps (suc n) t u keyed wanted h = elim (Option-cases (find k t.snapshots)) [
    | inl gone ↦ cc (rw (gone, attempts) at h)
    | inr (current, here) ↦ elim (Option-cases (find current.columns.crawl_id t.crawls)) [
      | inl gone ↦ cc (rw (here, gone, attempts) at h)
      | inr (crawl, parent) ↦
          let keyed' = keeps_keys n t keyed in
          let tried = try_request names at (clock n) current crawl (others n t) in
          let h' : after_try tried (attempts names at others clock k n) ≡ (returned true, u) =
            rw (here, parent, attempts) at h in
          let key : current.pk ≡ k = pk-find k t.snapshots current here in
          let wanted' : (pending k x (others n t) ≡ true) ⊎ (is_in x names ≡ true) = elim wanted [
            | inl p ↦ inl (keeps n t p)
            | inr q ↦ inr q
          ] in
          let inside = in_union x good current t here wanted in
          settle x (clock n 0) current (others n t) u key inside tried
            (try_lem names at (clock n) current crawl (others n t) keyed')
            (attempts names at others clock k n)
            (λ w same. rw same (kept_request x good keeps n (others n t) u keyed' wanted')) h'
    ]
  ]

-- The row and its crawl are there.
abbrev pub Alive : ℕ → Db → Type 0
Alive k t =
    (s : Snapshot) × (find k t.snapshots ≡ some s) × (find s.columns.crawl_id t.crawls ≢ none)

module _ (names : List Text) (at : ℕ) (others : ℕ → Db → Db) (clock : ℕ → ℕ → ℕ) (k : ℕ)
    (keeps_keys : (n : ℕ) (t : Db) → IsKeyed t.snapshots → IsKeyed (others n t).snapshots)
    (keeps_rows : (n : ℕ) (t : Db) → Alive k t → Alive k (others n t)) (m : ℕ)
    (quiet : (t : Db) → others m t ≡ t) where
  goes_on :
      (now : ℕ) (current : Snapshot) (v : Db) (p : Bool × Db)
      → Tried names at now current v p
      → (again : Db → Answer × Db) → (p.0 ≡ true) ⊎ ((again v).0 ≡ returned true)
      → (after_try p again).0 ≡ returned true
  goes_on now current v (true, w) tried again h = refl
  goes_on now current v (false, w) same again (inl won) = cc
  goes_on now current v (false, w) same again (inr rest) = rw same rest

  at_turn : (n : ℕ) (t : Db) → m ≡ n → others n t ≡ t
  at_turn n t e = rw (← e) (quiet t)

  in_time :
      (n : ℕ) (t : Db)
      → m < n
      → IsKeyed t.snapshots
      → Alive k t
      → (attempts names at others clock k n t).0 ≡ returned true
  unfolding attempts
  in_time zero t lt keyed alive = elim lt [ ]
  in_time (suc n) t lt keyed (current, here, parent) =
      elim (Option-cases (find current.columns.crawl_id t.crawls)) [
        | inl gone ↦ absurd (parent gone)
        | inr (crawl, there) ↦
            rw (here, there, attempts)
              (goes_on (clock n 0) current (others n t)
                (try_request names at (clock n) current crawl (others n t))
                (try_lem names at (clock n) current crawl (others n t) (keeps_keys n t keyed))
                (attempts names at others clock k n)
                (elim (ℕ_discrete m n) [
                  | yes e ↦ inl (
                      try_quiet names at (clock n) current crawl (others n t) (
                        ap (λ j. find j (others n t).snapshots) (pk-find k t.snapshots current here)
                        ∙ (ap (λ (w : Db). find k w.snapshots) (at_turn n t e) ∙ here)))
                  | no e ↦ inr (
                      in_time n (others n t) (omega arith) (keeps_keys n t keyed)
                        (keeps_rows n t (current, here, parent)))
                ]))
      ]

some_name : (names : List Text) (x : Text) → is_in x names ≡ true → nothing_to_run names ≡ false
unfolding is_in
some_name [] x h = cc
some_name (n ∷ ns) x h = refl

-- A request for plugins is scheduled, and no RuntimeError is raised, if other writers leave the tables
-- alone in one of the eight attempts, whatever they write in the others, as long as keys stay unique
-- and the snapshot and its crawl stay in their tables. At least one name is asked for.
pub schedule_plugin_run-settles :
    (plugins : List Text) (when : Option ℕ) (now : ℕ) (others : ℕ → Db → Db) (clock : ℕ → ℕ → ℕ)
    (k : ℕ) (x : Text) (t : Db) (m : ℕ)
    → is_in x (plugin_names plugins) ≡ true
    → IsKeyed t.snapshots
    → Alive k t
    → ((n : ℕ) (t : Db) → IsKeyed t.snapshots → IsKeyed (others n t).snapshots)
    → ((n : ℕ) (t : Db) → Alive k t → Alive k (others n t))
    → m < max_attempts
    → ((t : Db) → others m t ≡ t)
    → (schedule_plugin_run plugins when now others clock k t).0 ≡ returned true
unfolding schedule_plugin_run
schedule_plugin_run-settles plugins when now others clock k x t m asked keyed alive keys rows lt
      quiet =
    rw (some_name (plugin_names plugins) x asked) (
      in_time (plugin_names plugins) (or_else when now) others clock k keys rows m quiet
        max_attempts t lt keyed alive)

-- No request is lost: after a call that returns `True` the row is due at the instant that was asked
-- for, and every name that was asked for, or was pending before the call, is pending, however often
-- other writers came in between, as long as they keep keys unique and that name pending.
pub schedule_plugin_run-keeps :
    (plugins : List Text) (when : Option ℕ) (now : ℕ) (others : ℕ → Db → Db) (clock : ℕ → ℕ → ℕ)
    (k : ℕ) (x : Text) (t u : Db)
    → (pending k x t ≡ true) ⊎ (is_in x (plugin_names plugins) ≡ true)
    → IsKeyed t.snapshots
    → ((n : ℕ) (t : Db) → IsKeyed t.snapshots → IsKeyed (others n t).snapshots)
    → ((n : ℕ) (t : Db) → pending k x t ≡ true → pending k x (others n t) ≡ true)
    → schedule_plugin_run plugins when now others clock k t ≡ (returned true, u)
    → Requested k x (or_else when now) u
unfolding schedule_plugin_run
schedule_plugin_run-keeps plugins when now others clock k x t u wanted keyed keys keeps h =
    kept_request (plugin_names plugins) (or_else when now) others clock k keys x
      (sorted_set-All IsName (stripped plugins) (stripped-IsName plugins)) keeps max_attempts t u
      keyed wanted run
  where
    run :
        attempts (plugin_names plugins) (or_else when now) others clock k max_attempts t
        ≡ (returned true, u)
    run = elim (Bool-cases (nothing_to_run (plugin_names plugins))) [
      | inl e ↦ cc (rw e at h)
      | inr e ↦ rw e at h
    ]
