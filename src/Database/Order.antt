-- ===== src/Database/Order.antt =====
-- The order of `text` columns is linear, so what an `ORDER BY` gives does not depend on where the rows
-- stand in the table.
use Prim.Native.Nat.{Ordering, compare as compare_number}
use Prim.Native.Char.{code}
use Prim.Native.String.{compare, then}
use Prim.Native.String.compare
use text.Mathlib.TextEquality.{path_by_compare}
use mahogany.Base.{ℕ, String, ◌≡◌, refl, sym, ap, ◌∙◌, true, arith, string_eq}
use mahogany.Base.Sorting.{IsOrder}
use mahogany.Database.{text_le}

abbrev opposite : Ordering → Ordering
opposite Ordering.lt = Ordering.gt
opposite Ordering.eq = Ordering.eq
opposite Ordering.gt = Ordering.lt

number_flips : (m n : ℕ) → compare_number n m ≡ opposite (compare_number m n)
number_flips m n = ground arith

then-opposite : (o p : Ordering) → then (opposite o) (opposite p) ≡ opposite (then o p)
then-opposite Ordering.lt p = refl
then-opposite Ordering.eq p = refl
then-opposite Ordering.gt p = refl

compare-opposite : (s t : String) → compare t s ≡ opposite (compare s t)
compare-opposite String.[] String.[] = refl
compare-opposite String.[] (String.◌∷◌ d t) =
    compare.cons-nil d t ∙ sym (ap opposite (compare.nil-cons d t))
compare-opposite (String.◌∷◌ c s) String.[] =
    compare.nil-cons c s ∙ sym (ap opposite (compare.cons-nil c s))
compare-opposite (String.◌∷◌ c s) (String.◌∷◌ d t) =
    compare.cons-cons d c t s
    ∙ (λ i. then (number_flips (code c) (code d) i) (compare-opposite s t i))
    ∙ then-opposite (compare_number (code c) (code d)) (compare s t)
    ∙ sym (ap opposite (compare.cons-cons c d s t))

text_le_trans : (s t u : String) → text_le s t ≡ true → text_le t u ≡ true → text_le s u ≡ true
text_le_trans String.[] t String.[] h k = refl
text_le_trans String.[] t (String.◌∷◌ e u) h k = ground (arith, compare.nil-cons e u)
text_le_trans (String.◌∷◌ c s) String.[] u h k = ground (arith, compare.cons-nil c s)
text_le_trans (String.◌∷◌ c s) (String.◌∷◌ d t) String.[] h k = ground (arith, compare.cons-nil d t)
text_le_trans (String.◌∷◌ c s) (String.◌∷◌ d t) (String.◌∷◌ e u) h k = ground (
  arith,
  compare.cons-cons c d s t,
  compare.cons-cons d e t u,
  compare.cons-cons c e s u,
  text_le_trans s t u,
)

pub text_le-IsOrder : IsOrder text_le
text_le-IsOrder = record {
  total = λ s t h. ground (arith, compare-opposite s t);
  antisym = λ s t h k. path_by_compare s t (ground (arith, compare-opposite s t));
  trans = text_le_trans;
}
