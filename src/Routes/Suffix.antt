-- ===== src/Routes/Suffix.antt =====
-- The subdomain that `get_listen_subdomain` of archivebox/core/routes_util.py reads is the one that
-- `_build_base_host` writes.
use archive_box.Base.{
  ℕ, ◌≡◌, refl, ap, true, false, Option, none, some, [], ◌∷◌, ◌++◌, arith, ==_iff, length,
  length-append, inl, inr, Bool-cases, Option-cases,
}
use archive_box.Text.{Text, ◌=?◌, is_empty}
use archive_box.Text.Names.{=?_iff}
use archive_box.Routes.{
  Host, prepend, before_suffix, dot, build_base_host, ports_differ, get_listen_subdomain,
}

pub append-before_suffix :
    (suffix s before : Text) → before_suffix suffix s ≡ some before → s ≡ before ++ suffix
unfolding before_suffix prepend
append-before_suffix suffix [] before h = elim (Bool-cases (suffix =? [])) [
  | inl same ↦ ground (arith, rw same at h, =?_iff suffix [])
  | inr other ↦ cc (rw other at h)
]
append-before_suffix suffix (c ∷ s) before h = elim (Bool-cases (suffix =? (c ∷ s))) [
  | inl same ↦ ground (arith, rw same at h, =?_iff suffix (c ∷ s))
  | inr other ↦ elim (Option-cases (before_suffix suffix s)) [
    | inl none_left ↦ cc (rw (other, none_left) at h)
    | inr (b, here) ↦ ground (arith, rw (other, here) at h, append-before_suffix suffix s b here)
  ]
]

longer : (c : ℕ) (s suffix : Text) → (suffix =? (c ∷ s ++ suffix)) ≡ false
longer c s suffix = elim (Bool-cases (suffix =? (c ∷ s ++ suffix))) [
  | inl same ↦
      let never : ⊥ =
        omega
          (arith, ap length ((=?_iff suffix (c ∷ s ++ suffix)).0 same), length-append s suffix) in
      elim never [ ]
  | inr other ↦ other
]

pub before_suffix-append :
    (suffix before : Text) → before_suffix suffix (before ++ suffix) ≡ some before
unfolding before_suffix prepend
before_suffix-append [] [] = refl
before_suffix-append (c ∷ s) [] = rw ((=?_iff (c ∷ s) (c ∷ s)).1 refl) refl
before_suffix-append suffix (c ∷ s) = rw (longer c s suffix, before_suffix-append suffix s) refl

ports-same : (p : Option ℕ) → ports_differ p p ≡ false
ports-same none = refl
ports-same (some p) = ground (arith, ==_iff p p)

-- A request for a host that was built for a subdomain is read as one for that subdomain, also for none,
-- where the base host has a name and subdomains are in use.
pub get_listen_subdomain-hosts :
    (subdomain : Text) (base : Host)
    → is_empty base.name ≡ false
    → get_listen_subdomain true (build_base_host subdomain base) base ≡ subdomain
unfolding get_listen_subdomain
get_listen_subdomain-hosts [] base named =
    rw (named, ports-same base.port, (=?_iff base.name base.name).1 refl) refl
get_listen_subdomain-hosts (c ∷ s) base named =
    rw
      (named, ports-same base.port, other base.name, before_suffix-append (dot ∷ base.name) (c ∷ s))
      refl
  where
    other : (name : Text) → ((c ∷ s ++ dot ∷ name) =? name) ≡ false
    other name = elim (Bool-cases ((c ∷ s ++ dot ∷ name) =? name)) [
      | inl same ↦
          let never : ⊥ = omega (
            arith,
            ap length ((=?_iff (c ∷ s ++ dot ∷ name) name).0 same),
            length-append s (dot ∷ name),
          ) in
          elim never [ ]
      | inr apart ↦ apart
    ]
