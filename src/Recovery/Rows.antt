-- ===== src/Recovery/Rows.antt =====
-- Tests of all rows of a table, and of any, after an update.
use archive_box.Base.{◌≡◌, refl, Bool, true, any, List, [], ◌∷◌, arith, all}
use archive_box.Queue.Table.{Row, update_where, change_if}

-- What an update makes of every row.
pub all-update_where :
    {E : Type 0} (before after : Row E → Bool) (p : Row E → Bool) (f : Row E → Row E)
    (rows : List (Row E))
    → ((r : Row E) → before r ≡ true → after (change_if p f r) ≡ true)
    → all before rows ≡ true
    → all after (update_where p f rows) ≡ true
unfolding all update_where
all-update_where before after p f [] step h = refl
all-update_where before after p f (r ∷ rows) step h =
    ground (arith, step r, all-update_where before after p f rows step)

pub all-true : {E : Type 0} (rows : List (Row E)) → all (λ r. true) rows ≡ true
unfolding all
all-true [] = refl
all-true (r ∷ rows) = all-true rows

-- A test that a change does not disturb.
pub any-update_where :
    {E : Type 0} (q p : Row E → Bool) (f : Row E → Row E) (rows : List (Row E))
    → ((r : Row E) → q (f r) ≡ q r)
    → any q (update_where p f rows) ≡ any q rows
unfolding any update_where
any-update_where q p f [] same = refl
any-update_where q p f (r ∷ rows) same = ground (arith, same r, any-update_where q p f rows same)

pub all-both :
    {A : Type 0} (p q r : A → Bool) (xs : List A)
    → ((x : A) → p x ≡ true → q x ≡ true → r x ≡ true)
    → all p xs ≡ true
    → all q xs ≡ true
    → all r xs ≡ true
unfolding all
all-both p q r [] step h k = refl
all-both p q r (x ∷ xs) step h k = ground (arith, step x, all-both p q r xs step)

pub any-same :
    {A : Type 0} (p q : A → Bool) (xs : List A) → ((x : A) → p x ≡ q x) → any p xs ≡ any q xs
unfolding any
any-same p q [] same = refl
any-same p q (x ∷ xs) same = ground (arith, same x, any-same p q xs same)
