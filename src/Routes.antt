-- ===== src/Routes.antt =====
-- The hosts of archivebox/core/routes_util.py: the subdomains of the roles, and the redirects that a
-- login follows. What `urlparse` reads of a redirect is an argument: a `Host` is a host name in lower case
-- with its port.
pub mod Suffix
pub mod Redirects
pub mod Roles
pub mod Netloc
use archive_box.Base.{
  ℕ, zero, suc, Bool, true, false, ◌&&◌, ◌||◌, not, Option, none, some, List, [], ◌∷◌, ◌++◌, ◌==◌,
  if◌then◌else◌, or_else, eq_option, is_none, length,
}
use archive_box.Text.{Text, ◌=?◌, is_empty, between}

pub record Host : Type 0 where
  pub name : Text
  pub port : Option ℕ

-- what stands before a suffix: `s[:-len(suffix)]` if `s.endswith(suffix)`
prepend : ℕ → Option Text → Option Text
prepend c none = none
prepend c (some s) = some (c ∷ s)

unfoldable pub before_suffix : Text → Text → Option Text
unfolding ◌=?◌ prepend
before_suffix suffix [] = if suffix =? [] then some [] else none
before_suffix suffix (c ∷ s) =
    let rest = before_suffix suffix s in if suffix =? (c ∷ s) then some [] else prepend c rest

abbrev pub dot : ℕ
dot = 46

-- `_build_base_host`, before the host is printed
abbrev pub build_base_host : Text → Host → Host
build_base_host subdomain base =
    if is_empty subdomain then base else record base { name = subdomain ++ dot ∷ base.name }

-- both are given, and not the same
abbrev pub ports_differ : Option ℕ → Option ℕ → Bool
ports_differ p q = not (is_none p) && (not (is_none q) && not (eq_option p q))

unfoldable pub get_listen_subdomain : Bool → Host → Host → Text
unfolding before_suffix ◌=?◌
get_listen_subdomain uses_routing request base =
    if not uses_routing || is_empty base.name
    then []
    else if ports_differ base.port request.port
    then []
    else if request.name =? base.name
    then []
    else or_else (before_suffix (dot ∷ base.name) request.name) []

-- What `urlparse` reads of the URL of a redirect; the port is `none` where reading it is an error.
pub record Parsed : Type 0 where
  pub scheme : Text
  pub has_netloc : Bool
  pub has_user : Bool
  pub hostname : Text
  pub port : Option (Option ℕ)

-- `str(parsed.port) if parsed.port else None`
abbrev pub given_port : Option ℕ → Option ℕ
given_port none = none
given_port (some zero) = none
given_port (some (suc n)) = some (suc n)

abbrev pub http : Text
http = 104 ∷ 116 ∷ 116 ∷ 112 ∷ []

abbrev pub https : Text
https = 104 ∷ 116 ∷ 116 ∷ 112 ∷ 115 ∷ []

port_matches : Option (Option ℕ) → Option ℕ → Bool
port_matches none base = false
port_matches (some p) none = is_none (given_port p)
port_matches (some p) (some q) = eq_option (given_port p) (some q)

-- the host is that of the base or a subdomain of it, and the ports agree
in_family : Parsed → Option Host → Bool
unfolding ◌=?◌ before_suffix port_matches
in_family parsed none = false
in_family parsed (some h) =
    if is_empty h.name
    then false
    else if not (parsed.hostname =? h.name)
        && is_none (before_suffix (dot ∷ h.name) parsed.hostname)
    then false
    else port_matches parsed.port h.port

-- `by_django` is the answer of `url_has_allowed_host_and_scheme`, and the host is that of the base URL, if
-- one is configured; its port is taken to be one that can be read.
unfoldable pub is_allowed_archivebox_redirect_url : Bool → Bool → Text → Parsed → Option Host → Bool
unfolding ◌=?◌ in_family
is_allowed_archivebox_redirect_url by_django is_secure url parsed base =
    if is_empty url
    then false
    else if by_django
    then true
    else if not parsed.has_netloc
    then false
    else if not (parsed.scheme =? http || parsed.scheme =? https)
    then false
    else if is_secure && not (parsed.scheme =? https)
    then false
    else if parsed.has_user
    then false
    else in_family parsed base

-- `[0-9a-fA-F]`
abbrev pub is_hex : ℕ → Bool
is_hex c = between 48 57 c || between 65 70 c || between 97 102 c

-- `[0-9a-fA-F]{n}$`, where `$` is the end, or a line feed there
unfoldable pub is_hex_text : ℕ → Text → Bool
is_hex_text zero [] = true
is_hex_text zero (c ∷ []) = c == 10
is_hex_text zero (c ∷ d ∷ s) = false
is_hex_text (suc n) [] = false
is_hex_text (suc n) (c ∷ s) = is_hex c && is_hex_text n s

-- `_SNAPSHOT_SUBDOMAIN_RE`
is_snapshot_label : Text → Bool
unfolding is_hex_text
is_snapshot_label (a ∷ b ∷ c ∷ d ∷ e ∷ s) =
    ((a ∷ b ∷ c ∷ d ∷ e ∷ []) =? (115 ∷ 110 ∷ 97 ∷ 112 ∷ 45 ∷ [])) && is_hex_text 12 s
is_snapshot_label s = false

unfoldable pub is_role : Text → Bool
unfolding ◌=?◌ is_snapshot_label
is_role label =
    label =? (97 ∷ 100 ∷ 109 ∷ 105 ∷ 110 ∷ [])
    || label =? (119 ∷ 101 ∷ 98 ∷ [])
    || label =? (97 ∷ 112 ∷ 105 ∷ [])
    || is_snapshot_label label

-- `partition(".")`, if there is a dot
with_head : ℕ → Option (Text × Text) → Option (Text × Text)
with_head c none = none
with_head c (some (head, rest)) = some (c ∷ head, rest)

unfoldable pub cut : Text → Option (Text × Text)
unfolding with_head
cut [] = none
cut (c ∷ s) = let found = cut s in if c == dot then some ([], s) else with_head c found

-- one round of the loop, and the rest of it
unfoldable pub strip_round : Option (Text × Text) → Text → (Text → Text) → Text
unfolding is_role
strip_round none name go = name
strip_round (some (head, rest)) name go = if is_role head then go rest else name

-- The loop, with a bound on the labels; the length of the name is one.
unfoldable pub strip_roles : ℕ → Text → Text
unfolding cut strip_round
strip_roles zero name = name
strip_roles (suc n) name = strip_round (cut name) name (strip_roles n)

unfoldable pub strip_role_subdomain : Host → Host
unfolding strip_roles
strip_role_subdomain h = record h { name = strip_roles (length h.name) h.name }
