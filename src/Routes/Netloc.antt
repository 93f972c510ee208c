-- ===== src/Routes/Netloc.antt =====
-- Hosts as texts (archivebox/core/routes_util.py): `split_host_port`, `_with_port`, `_build_base_host` and
-- `get_listen_subdomain`, with what `urlparse` does to a text after `//`. The texts are ASCII; `none` is a
-- `ValueError`. What `urlparse` reads of a host in brackets, an IPv6 address, is an argument.
pub mod Characters
pub mod Printing
use mathlib.Core.Option
use archive_box.Base.{
  ℕ, zero, suc, ◌+◌, ◌/◌, ◌%◌, Bool, true, false, ◌&&◌, ◌||◌, not, Option, none, some, List, [],
  ◌∷◌, ◌++◌, ◌==◌, if◌then◌else◌, ltb, leb, any, select, is_none,
}
use archive_box.Text.{Text, is_empty}
use archive_box.Text.Case.{lower, split_once}
use archive_box.Text.Words.{digits_from}
use archive_box.Snapshots.{◌>>=◌}
use archive_box.Routes.{Host, given_port}
use archive_box.Routes

-- `str` of a number; the number itself is enough fuel
show_from : ℕ → ℕ → Text → Text
show_from zero n tail = tail
show_from (suc fuel) n tail =
    let rest = show_from fuel (n / 10) ((48 + n % 10) ∷ tail) in
    if ltb n 10 then (48 + n) ∷ tail else rest

unfoldable pub show : ℕ → Text
unfolding show_from
show n = show_from (suc n) n []

unfoldable pub with_port : Text → Option ℕ → Text
unfolding show
with_port name none = name
with_port name (some p) = name ++ 58 ∷ show p

-- what is removed anywhere: tab, line feed and carriage return
abbrev pub is_unsafe : ℕ → Bool
is_unsafe c = c == 9 || c == 10 || c == 13

-- `/`, `?` and `#` end the host
abbrev pub is_end : ℕ → Bool
is_end c = c == 47 || c == 63 || c == 35

abbrev pub is_bracket : ℕ → Bool
is_bracket c = c == 91 || c == 93

pub before_end : Text → Text
before_end [] = []
before_end (c ∷ s) = let rest = before_end s in if is_end c then [] else c ∷ rest

-- what stands after the last `@`
pub after_user : Text → Option Text
after_user [] = none
after_user (c ∷ s) =
    let rest = after_user s in if not (is_none rest) then rest else if c == 64 then some s else none

abbrev pub or_text : Option Text → Text → Text
or_text none s = s
or_text (some r) s = r

-- `parsed.port`: an error for what is no number, and for a number that is no port
pub port_of : Text → Option (Option ℕ)
unfolding digits_from
port_of [] = some none
port_of (c ∷ s) = digits_from 0 (c ∷ s) >>= λ n. (if leb n 65535 then some (some n) else none)

-- the host name and the text of the port
unfoldable pub parts : Text → Text × Text
unfolding split_once
parts s = elim (split_once 58 s) [ none ↦ (s, []) | some (name, port) ↦ (name, port) ]

-- `(parsed.hostname or host).lower()` with the port, if it is not 0
split_parts : Text → Text × Text → Option Host
unfolding lower port_of
split_parts host (name, port) = port_of port >>= λ p.
    some (record { name = lower (if is_empty name then host else name); port = given_port p })

module _ (bracketed : Text → Option Host) where
  unfoldable pub split_host_port : Text → Option Host
  unfolding before_end after_user parts split_parts any select
  split_host_port host =
      let netloc = before_end (select (λ c. not (is_unsafe c)) host) in
      if any is_bracket netloc
      then bracketed host
      else split_parts host (parts (or_text (after_user netloc) netloc))

  unfoldable pub build_base_host : Text → Text → Option Text
  unfolding split_host_port with_port
  build_base_host subdomain base =
      if is_empty base
      then some []
      else (split_host_port base >>= λ h.
          (let full = Routes.build_base_host subdomain h in some (with_port full.name full.port)))

  unfoldable pub get_listen_subdomain : Bool → Text → Text → Option Text
  unfolding split_host_port Routes.get_listen_subdomain
  get_listen_subdomain uses_routing request_host base =
      if not uses_routing
      then some []
      else (split_host_port request_host >>= λ request.
          split_host_port base >>= λ h. some (Routes.get_listen_subdomain true request h))
