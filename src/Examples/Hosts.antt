-- ===== src/Examples/Hosts.antt =====
-- The host `a.b` at port 8000, and its subdomains.
use archive_box.Base.{all, ◌≡◌, ◌⊎◌, refl, true, false, none, some, [], ◌∷◌}
use archive_box.Text.{Text}
use archive_box.Text.Case.{lower}
use archive_box.Routes.{
  Host, Parsed, http, is_role, cut, strip_role_subdomain, is_allowed_archivebox_redirect_url,
}
use archive_box.Snapshots.{◌>>=◌}
use archive_box.Routes.Netloc.{with_port, split_host_port, build_base_host, get_listen_subdomain}
use archive_box.Routes.Netloc.Printing.{get_listen_subdomain-build_base_host}
use archive_box.Routes.Redirects.{IsFamily, is_allowed_archivebox_redirect_url-IsFamily}
use archive_box.Routes.Roles.{
  IsStripped, strip_role_subdomain-IsStripped, strip_role_subdomain-build_base_host,
}

abbrev base : Host
base = record { name = 97 ∷ 46 ∷ 98 ∷ []; port = some 8000 }

abbrev web : Text
web = 119 ∷ 101 ∷ 98 ∷ []

abbrev on_web : Host
on_web = record { name = 119 ∷ 101 ∷ 98 ∷ 46 ∷ 97 ∷ 46 ∷ 98 ∷ []; port = some 8000 }

-- `A.b` and `Web`
abbrev upper_base : Text
upper_base = with_port (65 ∷ 46 ∷ 98 ∷ []) (some 8000)

abbrev upper_web : Text
upper_web = 87 ∷ 101 ∷ 98 ∷ []

get_listen_subdomain-build_base_host_example :
    ((build_base_host (λ s. none) upper_web upper_base >>= λ host. split_host_port (λ s. none) host)
      ≡ some on_web)
    × ((build_base_host (λ s. none) upper_web upper_base >>= λ host.
          get_listen_subdomain (λ s. none) true host upper_base)
        ≡ some web)
unfolding all lower
get_listen_subdomain-build_base_host_example =
    get_listen_subdomain-build_base_host (λ s. none) upper_web (65 ∷ 46 ∷ 98 ∷ []) (some 8000) refl
      refl refl refl

-- `Web.A.b:080` is read in lower case, and its port as a number
read_in_lower_case :
    split_host_port (λ s. none) (87 ∷ 101 ∷ 98 ∷ 46 ∷ 65 ∷ 46 ∷ 98 ∷ 58 ∷ 48 ∷ 56 ∷ 48 ∷ [])
    ≡ some (record { name = on_web.name; port = some 80 })
unfolding split_host_port
read_in_lower_case = refl

-- what is after the last `@` and before the first `/` is the host, and `:x` is an error
read_without_user :
    (split_host_port (λ s. none) (117 ∷ 58 ∷ 112 ∷ 64 ∷ 97 ∷ 47 ∷ 98 ∷ [])
      ≡ some (record { name = 97 ∷ []; port = none }))
    × (split_host_port (λ s. none) (97 ∷ 58 ∷ 120 ∷ []) ≡ none)
unfolding split_host_port
read_without_user = (refl, refl)

abbrev next_page : Parsed
next_page = record {
  scheme = http;
  has_netloc = true;
  has_user = false;
  hostname = 119 ∷ 101 ∷ 98 ∷ 46 ∷ 97 ∷ 46 ∷ 98 ∷ [];
  port = some (some 8000);
}

allowed : is_allowed_archivebox_redirect_url false false http next_page (some base) ≡ true
unfolding is_allowed_archivebox_redirect_url
allowed = refl

is_allowed_archivebox_redirect_url-IsFamily_example :
    (false ≡ true) ⊎ IsFamily false next_page (some base)
is_allowed_archivebox_redirect_url-IsFamily_example =
    is_allowed_archivebox_redirect_url-IsFamily false false http next_page (some base) allowed

strip_role_subdomain-IsStripped_example :
    IsStripped on_web.name (strip_role_subdomain on_web).name
    × ((strip_role_subdomain on_web).port ≡ some 8000)
strip_role_subdomain-IsStripped_example = strip_role_subdomain-IsStripped on_web

is_role-web : is_role web ≡ true
unfolding is_role
is_role-web = refl

one_label : cut web ≡ none
unfolding cut
one_label = refl

strip_role_subdomain-build_base_host_example :
    strip_role_subdomain on_web ≡ strip_role_subdomain base
strip_role_subdomain-build_base_host_example =
    strip_role_subdomain-build_base_host web base is_role-web one_label
