-- ===== src/Permissions/Agreement.antt =====
-- The test of one snapshot and the filter of a queryset agree (archivebox/core/permissions.py).
use archive_box.Base.{
  ◌≡◌, ◌⊎◌, inl, inr, refl, sym, Bool, true, ◌||◌, some, List, [], ◌∷◌, arith, select, All, All-map,
  Bool-cases,
}
use archive_box.Text.{Text, is_in, ◌=?◌, lstrip, rstrip, is_space}
use archive_box.Permissions.{
  User, Guarded, permissions_public, permissions_unlisted, permissions_private,
  normalize_permissions, is_admin_user, can_view_snapshot, filter_snapshots_by_permissions,
  direct_snapshots_queryset, direct_permissions,
}

-- the column holds one of the choices
abbrev pub IsChoice : Text → Type 0
IsChoice p = (p ≡ permissions_public) ⊎ ((p ≡ permissions_unlisted) ⊎ (p ≡ permissions_private))

normalize-IsChoice :
    (p : Text) → IsChoice p → normalize_permissions (some p) permissions_private ≡ p
unfolding normalize_permissions lstrip rstrip is_space ◌=?◌
normalize-IsChoice p (inl e) = rw e refl
normalize-IsChoice p (inr (inl e)) = rw e refl
normalize-IsChoice p (inr (inr e)) = rw e refl

select-agrees :
    (p q : Guarded → Bool) (t : List Guarded) → All (λ s. p s ≡ q s) t → select p t ≡ select q t
unfolding select
select-agrees p q [] h = refl
select-agrees p q (s ∷ t) h = ground (arith, select-agrees p q t h.1, h.0)

select-true : (p : Guarded → Bool) (t : List Guarded) → All (λ s. p s ≡ true) t → select p t ≡ t
unfolding select
select-true p [] h = refl
select-true p (s ∷ t) h = ground (arith, select-true p t h.1, h.0)

can_view-choice :
    (user : User) (s : Guarded)
    → IsChoice s.permissions
    → can_view_snapshot user s ≡ (is_in s.permissions direct_permissions || is_admin_user user)
unfolding can_view_snapshot
can_view-choice user s choice = rw (normalize-IsChoice s.permissions choice) refl

filter-choice :
    (user : User) (t : List Guarded)
    → All (λ s. IsChoice s.permissions) t
    → All
        (λ s.
          (is_in s.permissions direct_permissions || is_admin_user user) ≡ can_view_snapshot user s)
        t
filter-choice user [] h = tt
filter-choice user (s ∷ t) h = (sym (can_view-choice user s h.0), filter-choice user t h.1)

-- On snapshots whose permissions are one of the choices, the queryset that a user may open directly
-- holds exactly the snapshots that the user may view, in their order.
pub direct_snapshots_queryset-can_view :
    (user : User) (t : List Guarded)
    → All (λ s. IsChoice s.permissions) t
    → direct_snapshots_queryset user t ≡ select (can_view_snapshot user) t
unfolding direct_snapshots_queryset filter_snapshots_by_permissions
direct_snapshots_queryset-can_view user t choices =
    let P : Guarded → Type 0 = λ s.
      (is_in s.permissions direct_permissions || is_admin_user user) ≡ can_view_snapshot user s in
    let each : All P t = filter-choice user t choices in
    elim (Bool-cases (is_admin_user user)) [
      | inl admin ↦ rw admin (
          sym (
            select-true (can_view_snapshot user) t (
              All-map P (λ s. can_view_snapshot user s ≡ true) t (λ s e. ground (arith, e, admin))
                each)))
      | inr guest ↦ rw guest (
          select-agrees (λ s. is_in s.permissions direct_permissions) (can_view_snapshot user) t
            (All-map P (λ s. is_in s.permissions direct_permissions ≡ can_view_snapshot user s) t
              (λ s e. ground (arith, e, guest)) each))
    ]
