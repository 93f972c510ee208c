-- ===== src/Routes/Roles.antt =====
-- The labels that `strip_role_subdomain` of archivebox/core/routes_util.py takes off a host.
use mathlib.Core.Path.{subst}
use archive_box.Base.{
  ℕ, zero, suc, ◌≤◌, ◌<◌, ◌≡◌, refl, ap, sym, ◌∙◌, Bool, true, false, Option, none, some, List, [],
  ◌∷◌, ◌++◌, arith, ◌==◌, ==_iff, if◌then◌else◌, length, length-append, All, inl, inr, Bool-cases,
  Option-cases,
}
use archive_box.Text.{Text}
use archive_box.Routes.{
  Host, dot, build_base_host, is_role, cut, with_head, strip_round, strip_roles,
  strip_role_subdomain,
}

append-cut : (s a b : Text) → cut s ≡ some (a, b) → s ≡ a ++ dot ∷ b
unfolding cut with_head
append-cut [] a b h = cc
append-cut (c ∷ s) a b h = elim (Bool-cases (c == dot)) [
  | inl here ↦ ground (arith, rw here at h, ==_iff c dot)
  | inr other ↦ elim (Option-cases (cut s)) [
    | inl none_left ↦ cc (rw (other, none_left) at h)
    | inr ((x, y), found) ↦ ground (arith, rw (other, found) at h, append-cut s x y found)
  ]
]

cut-append : (a b : Text) → cut a ≡ none → cut (a ++ dot ∷ b) ≡ some (a, b)
unfolding cut with_head
cut-append [] b h = refl
cut-append (c ∷ a) b h = elim (Bool-cases (c == dot)) [
  | inl here ↦ cc (rw here at h)
  | inr other ↦ elim (Option-cases (cut a)) [
    | inl none_left ↦ rw (other, cut-append a b none_left) refl
    | inr ((x, y), found) ↦ cc (rw (other, found) at h)
  ]
]

shorter : (s a b : Text) → cut s ≡ some (a, b) → length b < length s
shorter s a b h = omega (arith, ap length (append-cut s a b h), length-append a (dot ∷ b))

-- whether the first label is one of a role
abbrev pub has_role : Text → Bool
has_role s = elim (cut s) [ none ↦ false | some (head, rest) ↦ is_role head ]

-- Labels of roles, each with its dot, before a name.
abbrev pub labelled : List Text → Text → Text
labelled [] name = name
labelled (l ∷ ls) name = l ++ dot ∷ labelled ls name

-- the result of the loop on a name: what is left has no label of a role, and all that went were
abbrev pub IsStripped : Text → Text → Type 0
IsStripped name left =
    (has_role left ≡ false)
    × ((ls : List Text) × All (λ l. is_role l ≡ true) ls × (name ≡ labelled ls left))

round-IsStripped :
    (o : Option (Text × Text)) (s : Text) (go : Text → Text)
    → cut s ≡ o
    → ((rest : Text) → length rest < length s → IsStripped rest (go rest))
    → IsStripped s (strip_round o s go)
unfolding strip_round
round-IsStripped none s go h later = (rw (has_role, h) refl, ([], tt, refl))
round-IsStripped (some (head, rest)) s go h later = elim (Bool-cases (is_role head)) [
  | inr other ↦ rw other (rw (has_role, h) other, ([], tt, refl))
  | inl role ↦ rw role (
      let p = later rest (shorter s head rest h) in
      (
        p.0,
        (head ∷ p.1.0, (role, p.1.1), append-cut s head rest h ∙ ap (λ t. head ++ dot ∷ t) p.1.2),
      ))
]

strip_empty : (n : ℕ) → strip_roles n [] ≡ []
unfolding strip_roles strip_round cut
strip_empty zero = refl
strip_empty (suc n) = refl

strip_roles-IsStripped : (n : ℕ) (s : Text) → length s ≤ n → IsStripped s (strip_roles n s)
unfolding strip_roles cut
strip_roles-IsStripped n [] h = subst (IsStripped []) (sym (strip_empty n)) (refl, ([], tt, refl))
strip_roles-IsStripped zero (c ∷ s) h = let never : ⊥ = omega arith in elim never [ ]
strip_roles-IsStripped (suc n) (c ∷ s) h =
    round-IsStripped (cut (c ∷ s)) (c ∷ s) (strip_roles n) refl
      (λ rest less. strip_roles-IsStripped n rest (omega arith))

round-ap :
    (o : Option (Text × Text)) (s : Text) (f g : Text → Text)
    → cut s ≡ o
    → ((rest : Text) → length rest < length s → f rest ≡ g rest)
    → strip_round o s f ≡ strip_round o s g
unfolding strip_round
round-ap none s f g h same = refl
round-ap (some (head, rest)) s f g h same =
    ap (λ t. if is_role head then t else s) (same rest (shorter s head rest h))

-- any bound that is enough gives the same
strip_roles-enough :
    (m n : ℕ) (s : Text) → length s ≤ m → length s ≤ n → strip_roles m s ≡ strip_roles n s
unfolding strip_roles
strip_roles-enough m n [] h k = strip_empty m ∙ sym (strip_empty n)
strip_roles-enough (suc m) (suc n) (c ∷ s) h k =
    round-ap (cut (c ∷ s)) (c ∷ s) (strip_roles m) (strip_roles n) refl
      (λ rest less. strip_roles-enough m n rest (omega arith) (omega arith))
strip_roles-enough zero n (c ∷ s) h k = let never : ⊥ = omega arith in elim never [ ]
strip_roles-enough (suc m) zero (c ∷ s) h k = let never : ⊥ = omega arith in elim never [ ]

-- `strip_role_subdomain` keeps the port. It takes every leading label of a role off the name and
-- nothing else: what is left has none, and the name is such labels before what is left.
pub strip_role_subdomain-IsStripped :
    (h : Host)
    → IsStripped h.name (strip_role_subdomain h).name × ((strip_role_subdomain h).port ≡ h.port)
unfolding strip_role_subdomain
strip_role_subdomain-IsStripped h =
    (strip_roles-IsStripped (length h.name) h.name (omega arith), refl)

-- A host that was built for a role, with one label, is stripped to what its base host is stripped to.
pub strip_role_subdomain-build_base_host :
    (label : Text) (base : Host)
    → is_role label ≡ true
    → cut label ≡ none
    → strip_role_subdomain (build_base_host label base) ≡ strip_role_subdomain base
unfolding strip_role_subdomain strip_roles strip_round
strip_role_subdomain-build_base_host [] base role whole = refl
strip_role_subdomain-build_base_host (c ∷ l) base role whole =
    ap (λ t. record base { name = t }) (first ∙ same)
  where
    name : Text
    name = c ∷ l ++ dot ∷ base.name

    bound : ℕ
    bound = length (l ++ dot ∷ base.name)

    enough : length base.name ≤ bound
    enough = omega (arith, length-append l (dot ∷ base.name))

    first : strip_roles (suc bound) name ≡ strip_roles bound base.name
    first = rw (cut-append (c ∷ l) base.name whole) (rw role refl)

    same : strip_roles bound base.name ≡ strip_roles (length base.name) base.name
    same = strip_roles-enough bound (length base.name) base.name enough (omega arith)
