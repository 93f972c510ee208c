-- ===== src/Routes/Netloc/Characters.antt =====
-- The characters that `_with_port` of archivebox/core/routes_util.py prints: what `urlparse` and `lower` do to
-- them, and a number that is printed and read again.
use archive_box.Base.{
  ℕ, zero, suc, ◌+◌, ◌/◌, ◌%◌, ◌≤◌, ◌<◌, ◌≡◌, refl, ap, ◌∙◌, Bool, true, false, ◌&&◌, ◌||◌, not,
  Option, none, some, [], ◌∷◌, ◌++◌, ◌==◌, arith, ltb, leb, any, all, select, inl, inr, Bool-cases,
}
use archive_box.Text.{Text, is_empty, between}
use archive_box.Text.Case.{lower, split_once}
use archive_box.Text.Words.{digits_from, is_digit}
use archive_box.Routes.Netloc.{
  show_from, show, with_port, is_unsafe, is_bracket, before_end, after_user, port_of,
}
use mathlib.Core.List.{map-append}

-- a character of a host name: a letter, a digit, `-`, `.` or `_`
abbrev pub is_name_char : ℕ → Bool
is_name_char c =
    between 65 90 c || between 97 122 c || between 48 57 c || c == 45 || c == 46 || c == 95

last_digit : (d : ℕ) → d < 10 → is_digit (48 + d) ≡ true
last_digit d h = ground arith

-- a number is read as it was printed
digits-show_from :
    (fuel n : ℕ) (tail : Text)
    → n ≤ fuel
    → digits_from 0 (show_from fuel n tail) ≡ digits_from n tail
unfolding show_from digits_from
digits-show_from zero n tail h = ap (λ m. digits_from m tail) (omega arith)
digits-show_from (suc fuel) n tail h = elim (Bool-cases (ltb n 10)) [
  | inl small ↦
      let digit : is_digit (48 + n) ≡ true = ground arith in
      rw (small, digit) (ap (λ m. digits_from m tail) (omega arith))
  | inr large ↦
      let ten : 10 ≤ n = ground arith in
      let digit : is_digit (48 + n % 10) ≡ true = last_digit (n % 10) (omega arith) in
      rw large (
        digits-show_from fuel (n / 10) ((48 + n % 10) ∷ tail) (omega (arith, ten))
        ∙ rw digit (ap (λ m. digits_from m tail) (omega arith)))
]

-- what stands in a printed host
abbrev pub is_host_char : ℕ → Bool
is_host_char c = is_name_char c || c == 58

pub all-append :
    (p : ℕ → Bool) (s t : Text) → all p s ≡ true → all p t ≡ true → all p (s ++ t) ≡ true
unfolding all
all-append p [] t h k = k
all-append p (c ∷ s) t h k = ground (arith, all-append p s t)

host_chars : (s : Text) → all is_name_char s ≡ true → all is_host_char s ≡ true
unfolding all
host_chars [] h = refl
host_chars (c ∷ s) h = ground (arith, host_chars s)

show_chars :
    (fuel n : ℕ) (tail : Text)
    → all is_host_char tail ≡ true
    → all is_host_char (show_from fuel n tail) ≡ true
unfolding show_from all
show_chars zero n tail h = h
show_chars (suc fuel) n tail h = elim (Bool-cases (ltb n 10)) [
  | inl small ↦ rw small (ground (arith, last_digit n))
  | inr large ↦ rw large (
      show_chars fuel (n / 10) ((48 + n % 10) ∷ tail)
        (ground (arith, h, last_digit (n % 10) (omega arith))))
]

-- the steps of `urlparse` leave such a text
pub nothing_unsafe : (s : Text) → all is_host_char s ≡ true → select (λ c. not (is_unsafe c)) s ≡ s
unfolding all select
nothing_unsafe [] h = refl
nothing_unsafe (c ∷ s) h = ground (arith, nothing_unsafe s)

pub no_end : (s : Text) → all is_host_char s ≡ true → before_end s ≡ s
unfolding all before_end
no_end [] h = refl
no_end (c ∷ s) h = ground (arith, no_end s)

pub no_bracket : (s : Text) → all is_host_char s ≡ true → any is_bracket s ≡ false
unfolding all any
no_bracket [] h = refl
no_bracket (c ∷ s) h = ground (arith, no_bracket s)

pub no_user : (s : Text) → all is_host_char s ≡ true → after_user s ≡ none
unfolding all after_user
no_user [] h = refl
no_user (c ∷ s) h = ground (arith, no_user s)

pub lower_chars : (s : Text) → all is_name_char s ≡ true → all is_name_char (lower s) ≡ true
unfolding all lower
lower_chars [] h = refl
lower_chars (c ∷ s) h = ground (arith, lower_chars s)

pub lower-lower : (s : Text) → lower (lower s) ≡ lower s
unfolding lower
lower-lower [] = refl
lower-lower (c ∷ s) = rw (lower-lower s) (ap (λ d. d ∷ lower s) (ground arith))

pub lower-append : (s t : Text) → lower (s ++ t) ≡ lower s ++ lower t
unfolding lower
lower-append s t = map-append _ s t

pub lower_filled : (s : Text) → is_empty s ≡ false → is_empty (lower s) ≡ false
unfolding lower
lower_filled [] h = h
lower_filled (c ∷ s) h = refl

pub no_colon : (s : Text) → all is_name_char s ≡ true → split_once 58 s ≡ none
unfolding all split_once
no_colon [] h = refl
no_colon (c ∷ s) h = ground (arith, no_colon s)

pub at_colon : (s t : Text) → all is_name_char s ≡ true → split_once 58 (s ++ 58 ∷ t) ≡ some (s, t)
unfolding all split_once
at_colon [] t h = refl
at_colon (c ∷ s) t h = ground (arith, at_colon s t)

show_not_empty :
    (fuel n : ℕ) (tail : Text) → is_empty tail ≡ false → is_empty (show_from fuel n tail) ≡ false
unfolding show_from
show_not_empty zero n tail h = h
show_not_empty (suc fuel) n tail h = elim (Bool-cases (ltb n 10)) [
  | inl small ↦ rw small refl
  | inr large ↦ rw large (show_not_empty fuel (n / 10) ((48 + n % 10) ∷ tail) refl)
]

pub show_some : (n : ℕ) → is_empty (show n) ≡ false
unfolding show show_from
show_some n = elim (Bool-cases (ltb n 10)) [
  | inl small ↦ rw small refl
  | inr large ↦ rw large (show_not_empty n (n / 10) ((48 + n % 10) ∷ []) refl)
]

pub read_port :
    (s : Text) (p : ℕ)
    → is_empty s ≡ false
    → digits_from 0 s ≡ some p
    → leb p 65535 ≡ true
    → port_of s ≡ some (some p)
unfolding port_of
read_port [] p filled read small = cc
read_port (c ∷ s) p filled read small = rw (read, small) refl

-- A port that is no error and not 0.
abbrev pub is_port : Option ℕ → Bool
is_port none = true
is_port (some p) = leb 1 p && leb p 65535

pub port_chars :
    (name : Text) (port : Option ℕ)
    → all is_name_char name ≡ true
    → all is_host_char (with_port name port) ≡ true
unfolding with_port show all
port_chars name none h = host_chars name h
port_chars name (some p) h =
    all-append is_host_char name (58 ∷ show_from (suc p) p []) (host_chars name h)
      (show_chars (suc p) p [] refl)

pub show-digits : (p : ℕ) → digits_from 0 (show p) ≡ some p
unfolding show digits_from
show-digits p = digits-show_from (suc p) p [] (omega arith)
