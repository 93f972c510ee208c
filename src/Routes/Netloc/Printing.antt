-- ===== src/Routes/Netloc/Printing.antt =====
-- A host that `_with_port` of archivebox/core/routes_util.py prints is read again by `split_host_port`, and
-- so is the subdomain that it was printed for.
use archive_box.Base.{
  ℕ, zero, suc, ◌≡◌, refl, ap, ◌∙◌, true, false, Option, none, some, [], ◌∷◌, ◌++◌, if◌then◌else◌,
  arith, leb, all,
}
use archive_box.Text.{Text, is_empty}
use archive_box.Text.Case.{lower, split_once}
use archive_box.Snapshots.{◌>>=◌}
use archive_box.Routes.{Host, given_port}
use archive_box.Routes
use archive_box.Routes.Netloc.{
  show, with_port, parts, split_parts, split_host_port, build_base_host, get_listen_subdomain,
}
use archive_box.Routes.Suffix.{get_listen_subdomain-hosts}
use archive_box.Routes.Netloc.Characters.{
  is_name_char, all-append, nothing_unsafe, no_end, no_bracket, no_user, lower_chars, lower-lower,
  lower-append, lower_filled, no_colon, at_colon, show_some, read_port, is_port, port_chars,
  show-digits,
}

whole : (s : Text) → split_once 58 s ≡ none → parts s ≡ (s, [])
unfolding parts
whole s h = rw (parts, h) refl

halves : (s a b : Text) → split_once 58 s ≡ some (a, b) → parts s ≡ (a, b)
unfolding parts
halves s a b h = rw (parts, h) refl

not_zero : (p : ℕ) → leb 1 p ≡ true → given_port (some p) ≡ some p
not_zero zero h = cc
not_zero (suc p) h = refl

module _ (bracketed : Text → Option Host) where
  read_parts :
      (host name : Text) (port : Option ℕ)
      → is_empty name ≡ false
      → all is_name_char name ≡ true
      → is_port port ≡ true
      → split_parts host (parts (with_port name port))
        ≡ some (record { name = lower name; port = port })
  unfolding split_parts with_port
  read_parts host name none named plain valid =
      rw (whole name (no_colon name plain)) (rw named refl)
  read_parts host name (some p) named plain valid =
      rw (halves (name ++ 58 ∷ show p) name (show p) (at_colon name (show p) plain)) (
        rw
          (
            read_port (show p) p (show_some p) (show-digits p) (ground arith),
            named,
            not_zero p (ground arith),
          )
          refl)

  -- A host that is printed is read again, in lower case.
  split_host_port-with_port :
      (name : Text) (port : Option ℕ)
      → is_empty name ≡ false
      → all is_name_char name ≡ true
      → is_port port ≡ true
      → split_host_port bracketed (with_port name port)
        ≡ some (record { name = lower name; port = port })
  unfolding split_host_port
  split_host_port-with_port name port named plain valid =
      let s = with_port name port in
      let chars = port_chars name port plain in
      rw (nothing_unsafe s chars, no_end s chars, no_bracket s chars, no_user s chars)
        (read_parts s name port named plain valid)

  printed :
      (name : Text) (port : Option ℕ)
      → is_empty name ≡ false
      → is_empty (with_port name port) ≡ false
  unfolding with_port
  printed [] port named = cc
  printed (c ∷ s) none named = refl
  printed (c ∷ s) (some p) named = refl

  module _ (name : Text) (port : Option ℕ) (named : is_empty name ≡ false)
      (plain : all is_name_char name ≡ true) (valid : is_port port ≡ true) where
    base : Host
    base = record { name = lower name; port = port }

    built : Text → Host
    unfolding base
    built subdomain = Routes.build_base_host subdomain base

    builds :
        (subdomain : Text)
        → build_base_host bracketed subdomain (with_port name port)
          ≡ some (with_port (built subdomain).name (built subdomain).port)
    unfolding build_base_host built base
    builds subdomain =
        rw (printed name port named, split_host_port-with_port name port named plain valid) refl

    dotted : (t : Text) → all is_name_char t ≡ true → all is_name_char (46 ∷ t) ≡ true
    unfolding all
    dotted t h = h

    lower-built :
        (c : ℕ) (s : Text) → lower (c ∷ s ++ 46 ∷ lower name) ≡ lower (c ∷ s) ++ 46 ∷ lower name
    unfolding lower
    lower-built c s = rw (lower-append s (46 ∷ lower name), lower-lower name) refl

    reads :
        (subdomain : Text)
        → all is_name_char subdomain ≡ true
        → split_host_port bracketed (with_port (built subdomain).name (built subdomain).port)
          ≡ some (built (lower subdomain))
    unfolding built base lower
    reads [] plain_sub =
        split_host_port-with_port (lower name) port (lower_filled name named)
          (lower_chars name plain) valid
        ∙ ap (λ t. some (record { name = t; port = port })) (lower-lower name)
    reads (c ∷ s) plain_sub =
        split_host_port-with_port (c ∷ s ++ 46 ∷ lower name) port refl
          (all-append is_name_char (c ∷ s) (46 ∷ lower name) plain_sub
            (dotted (lower name) (lower_chars name plain)))
          valid
        ∙ ap (λ t. some (record { name = t; port = port })) (lower-built c s)

    listens :
        (subdomain : Text)
        → all is_name_char subdomain ≡ true
        → get_listen_subdomain bracketed true
            (with_port (built subdomain).name (built subdomain).port)
            (with_port name port)
          ≡ some (lower subdomain)
    unfolding get_listen_subdomain base built
    listens subdomain plain_sub =
        rw (reads subdomain plain_sub, split_host_port-with_port name port named plain valid)
          (ap some (get_listen_subdomain-hosts (lower subdomain) base (lower_filled name named)))

    below : Text → Host
    below subdomain = record {
      name = if is_empty subdomain then lower name else lower subdomain ++ 46 ∷ lower name;
      port = port;
    }

    reads_below :
        (subdomain : Text)
        → all is_name_char subdomain ≡ true
        → split_host_port bracketed (with_port (built subdomain).name (built subdomain).port)
          ≡ some (below subdomain)
    unfolding below built base lower
    reads_below [] plain_sub = reads [] plain_sub
    reads_below (c ∷ s) plain_sub = reads (c ∷ s) plain_sub

  -- The host that was built for a subdomain is read again with the port of the base host and, in lower
  -- case, the subdomain before the name of the base host; and the subdomain is read again from it, in
  -- lower case and also where it is empty, if subdomains are in use. The base host is one that is
  -- printed, with a name and without a port or with one from 1 to 65535; its name and the subdomain are
  -- letters, digits, `-`, `.` and `_`.
  pub get_listen_subdomain-build_base_host :
      (subdomain name : Text) (port : Option ℕ)
      → is_empty name ≡ false
      → all is_name_char name ≡ true
      → all is_name_char subdomain ≡ true
      → is_port port ≡ true
      → let base = with_port name port in
        let built = build_base_host bracketed subdomain base in
        ((built >>= λ host. split_host_port bracketed host)
          ≡ some (record {
            name = if is_empty subdomain then lower name else lower subdomain ++ 46 ∷ lower name;
            port = port;
          }))
        × ((built >>= λ host. get_listen_subdomain bracketed true host base)
            ≡ some (lower subdomain))
  unfolding build_base_host get_listen_subdomain below
  get_listen_subdomain-build_base_host subdomain name port named plain plain_sub valid = (
    rw (builds name port named plain valid subdomain)
        (reads_below name port named plain valid subdomain plain_sub),
    rw (builds name port named plain valid subdomain)
        (listens name port named plain valid subdomain plain_sub),
  )
