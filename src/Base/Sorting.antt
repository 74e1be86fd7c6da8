-- ===== src/Base/Sorting.antt =====
-- Sorting by insertion along a linear order forgets the order of the elements.
use mathlib.Core.List.{List, [], ◌∷◌, foldr, is_set, Perm}
use mathlib.Core.List.Perm
use mathlib.Core.Path.{◌≡◌, refl, ap, ◌∙◌, sym}
use mathlib.Core.Bool.{Bool, true, false}
use native.Mathlib.Omega.{arith}
use mahogany.Base.Lists.{insert_sorted, sort_by}

-- A Boolean test for `≤` is a linear order.
pub record IsOrder {ℓ} {A : Type ℓ} (le : A → A → Bool) : Type ℓ where
  pub total : (x y : A) → le x y ≡ false → le y x ≡ true
  pub antisym : (x y : A) → le x y ≡ true → le y x ≡ true → x ≡ y
  pub trans : (x y z : A) → le x y ≡ true → le y z ≡ true → le x z ≡ true

module _ {ℓ} {A : Type ℓ} (le : A → A → Bool) (o : IsOrder le) where
  insert_sorted_comm :
      (x y : A) (zs : List A)
      → insert_sorted le x (insert_sorted le y zs) ≡ insert_sorted le y (insert_sorted le x zs)
  insert_sorted_comm x y [] = ground (arith, o.total x y, o.total y x, o.antisym x y)
  insert_sorted_comm x y (z ∷ zs) = ground (
    arith,
    o.total x y,
    o.total y x,
    o.antisym x y,
    o.trans x y z,
    o.trans y x z,
    insert_sorted_comm x y zs,
  )

  sort_by-foldr : (xs : List A) → sort_by le xs ≡ foldr (insert_sorted le) [] xs
  sort_by-foldr [] = refl
  sort_by-foldr (x ∷ xs) = ap (insert_sorted le x) (sort_by-foldr xs)

  -- Lists with the same elements, each as often, are sorted to the same list.
  pub sort_by-Perm : IsSet A → {xs ys : List A} → Perm xs ys → sort_by le xs ≡ sort_by le ys
  sort_by-Perm s {xs} {ys} same =
      sort_by-foldr xs
      ∙ Perm.foldr-eq (is_set s) (insert_sorted le) insert_sorted_comm same []
      ∙ sym (sort_by-foldr ys)
