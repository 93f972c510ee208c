-- ===== src/Permissions.antt =====
-- archivebox/core/permissions.py: who may see a snapshot, asked of one snapshot and of a queryset.
-- The texts of the permissions are ASCII.
pub mod Agreement
use archive_box.Base.{
  ℕ, Bool, true, false, ◌&&◌, ◌||◌, Option, none, some, List, [], ◌∷◌, if◌then◌else◌, select,
  or_else,
}
use archive_box.Text.{Text, is_in, is_empty, strip}
use archive_box.Text.Case.{lower}

-- `"public"`, `"unlisted"` and `"private"`
abbrev pub permissions_public : Text
permissions_public = 112 ∷ 117 ∷ 98 ∷ 108 ∷ 105 ∷ 99 ∷ []

abbrev pub permissions_unlisted : Text
permissions_unlisted = 117 ∷ 110 ∷ 108 ∷ 105 ∷ 115 ∷ 116 ∷ 101 ∷ 100 ∷ []

abbrev pub permissions_private : Text
permissions_private = 112 ∷ 114 ∷ 105 ∷ 118 ∷ 97 ∷ 116 ∷ 101 ∷ []

abbrev pub permissions_values : List Text
permissions_values = permissions_public ∷ permissions_unlisted ∷ permissions_private ∷ []

unfoldable pub normalize_permissions : Option Text → Text → Text
unfolding is_in strip lower
normalize_permissions permissions default =
    let p = lower (strip (or_else permissions [])) in
    if is_in p permissions_values then p else default

-- What the tests read of `request.user`.
pub record User : Type 0 where
  pub is_authenticated : Bool
  pub is_active : Bool
  pub is_staff : Bool

unfoldable pub is_admin_user : User → Bool
is_admin_user user = user.is_authenticated && (user.is_active && user.is_staff)

-- a snapshot with the text of its column `permissions`
pub record Guarded : Type 0 where
  pub id : ℕ
  pub permissions : Text

abbrev pub get_snapshot_permissions : Guarded → Text
get_snapshot_permissions snapshot =
    normalize_permissions (some snapshot.permissions) permissions_private

abbrev pub direct_permissions : List Text
direct_permissions = permissions_public ∷ permissions_unlisted ∷ []

unfoldable pub can_view_snapshot : User → Guarded → Bool
unfolding is_in
can_view_snapshot user snapshot =
    is_in (get_snapshot_permissions snapshot) (permissions_public ∷ permissions_unlisted ∷ [])
    || is_admin_user user

-- `allowed_permissions or (...)`: an empty set is no set
abbrev pub allowed : Bool → Option (List Text) → List Text
allowed direct (some (p ∷ ps)) = p ∷ ps
allowed direct _ = if direct then direct_permissions else permissions_public ∷ []

unfoldable pub filter_snapshots_by_permissions :
    Bool → Option (List Text) → List Guarded → List Guarded
unfolding select is_in
filter_snapshots_by_permissions direct allowed_permissions queryset =
    select (λ s. is_in s.permissions (allowed direct allowed_permissions)) queryset

unfoldable pub public_snapshots_queryset : List Guarded → List Guarded
unfolding filter_snapshots_by_permissions
public_snapshots_queryset queryset = filter_snapshots_by_permissions false none queryset

unfoldable pub direct_snapshots_queryset : User → List Guarded → List Guarded
unfolding filter_snapshots_by_permissions is_admin_user
direct_snapshots_queryset user queryset =
    if is_admin_user user then queryset else filter_snapshots_by_permissions true none queryset
