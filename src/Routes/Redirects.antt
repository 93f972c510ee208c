-- ===== src/Routes/Redirects.antt =====
-- Where `is_allowed_archivebox_redirect_url` of archivebox/core/routes_util.py lets a login go.
use archive_box.Base.{
  ℕ, zero, suc, ◌≡◌, ◌⊎◌, refl, Bool, true, false, ◌&&◌, ◌||◌, not, Option, none, some, ◌∷◌, ◌++◌,
  arith, if◌then◌else◌, eq_option_iff, is_none, inl, inr, Bool-cases, Option-cases,
}
use archive_box.Text.{Text, ◌=?◌, is_empty}
use archive_box.Text.Names.{=?_iff}
use archive_box.Routes.{
  Host, before_suffix, dot, Parsed, given_port, http, https, port_matches, in_family,
  is_allowed_archivebox_redirect_url,
}
use archive_box.Routes.Suffix.{append-before_suffix}

-- A host in the family of a base host: the same, or a subdomain of it.
abbrev pub IsWithin : Text → Text → Type 0
IsWithin base host = (host ≡ base) ⊎ ((label : Text) × (host ≡ label ++ dot ∷ base))

-- A URL in the family of the base host that is configured: without credentials, at its port, and by
-- HTTP, with TLS if the request came with it.
abbrev pub IsFamily : Bool → Parsed → Option Host → Type 0
IsFamily is_secure parsed base =
    (h : Host) × (base ≡ some h)
    × (is_empty h.name ≡ false)
    × IsWithin h.name parsed.hostname
    × ((p : Option ℕ) × (parsed.port ≡ some p) × (given_port p ≡ h.port))
    × (parsed.has_user ≡ false)
    × ((parsed.scheme ≡ https) ⊎ ((parsed.scheme ≡ http) × (is_secure ≡ false)))

port_matches-given :
    (port : Option (Option ℕ)) (base : Option ℕ)
    → port_matches port base ≡ true
    → (p : Option ℕ) × (port ≡ some p) × (given_port p ≡ base)
unfolding port_matches
port_matches-given none base h = cc
port_matches-given (some none) none h = (none, refl, refl)
port_matches-given (some (some zero)) none h = (some zero, refl, refl)
port_matches-given (some (some (suc n))) none h = cc
port_matches-given (some p) (some q) h = (p, refl, (eq_option_iff (given_port p) (some q)).0 h)

within :
    (base host : Text)
    → (not (host =? base) && is_none (before_suffix (dot ∷ base) host)) ≡ false
    → IsWithin base host
within base host h = elim (Bool-cases (host =? base)) [
  | inl same ↦ inl ((=?_iff host base).0 same)
  | inr other ↦ elim (Option-cases (before_suffix (dot ∷ base) host)) [
    | inl outside ↦ cc (rw (other, outside) at h)
    | inr (label, found) ↦ inr (label, append-before_suffix (dot ∷ base) host label found)
  ]
]

in_family-IsWithin :
    (parsed : Parsed) (base : Option Host)
    → in_family parsed base ≡ true
    → (h : Host) × (base ≡ some h)
      × (is_empty h.name ≡ false)
      × IsWithin h.name parsed.hostname
      × ((p : Option ℕ) × (parsed.port ≡ some p) × (given_port p ≡ h.port))
unfolding in_family
in_family-IsWithin parsed none h = cc
in_family-IsWithin parsed (some base) h = elim (Bool-cases (is_empty base.name)) [
  | inl unnamed ↦ cc (rw unnamed at h)
  | inr named ↦
      elim (Bool-cases (
        not (parsed.hostname =? base.name)
        && is_none (before_suffix (dot ∷ base.name) parsed.hostname))) [
          | inl outside ↦ cc (rw (named, outside) at h)
          | inr inside ↦ (
            base,
            refl,
            named,
            within base.name parsed.hostname inside,
            port_matches-given parsed.port base.port (rw (named, inside) at h),
          )
        ]
]

guards :
    (by_django is_secure empty netloc is_http is_https user family : Bool)
    → (if empty
        then false
        else if by_django
        then true
        else if not netloc
        then false
        else if not (is_http || is_https)
        then false
        else if is_secure && not is_https
        then false
        else if user
        then false
        else family)
      ≡ true
    → by_django ≡ false
    → (family ≡ true)
      × (user ≡ false)
      × ((is_https ≡ true) ⊎ ((is_http ≡ true) × (is_secure ≡ false)))
guards by_django is_secure empty netloc is_http true user family h d =
    (ground arith, ground arith, inl refl)
guards by_django is_secure empty netloc is_http false user family h d =
    (ground arith, ground arith, inr (ground arith, ground arith))

-- A redirect that is allowed is one that Django allows for the host of the request, or one in the
-- family of the base host that is configured.
pub is_allowed_archivebox_redirect_url-IsFamily :
    (by_django is_secure : Bool) (url : Text) (parsed : Parsed) (base : Option Host)
    → is_allowed_archivebox_redirect_url by_django is_secure url parsed base ≡ true
    → (by_django ≡ true) ⊎ IsFamily is_secure parsed base
unfolding is_allowed_archivebox_redirect_url
is_allowed_archivebox_redirect_url-IsFamily by_django is_secure url parsed base h =
    elim (Bool-cases by_django) [
      | inl same_host ↦ inl same_host
      | inr other ↦
          let (family, user, scheme) =
            guards by_django is_secure (is_empty url) parsed.has_netloc (parsed.scheme =? http)
              (parsed.scheme =? https) parsed.has_user (in_family parsed base) h other in
          let f = in_family-IsWithin parsed base family in
          inr (
            f.0,
            f.1,
            f.2,
            f.3,
            f.4,
            user,
            elim scheme [
              | inl tls ↦ inl ((=?_iff parsed.scheme https).0 tls)
              | inr (plain, insecure) ↦ inr ((=?_iff parsed.scheme http).0 plain, insecure)
            ],
          )
    ]
