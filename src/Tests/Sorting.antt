-- ===== src/Tests/Sorting.antt =====
-- Insertion into a sorted slice, as a sort that keeps what sort.Slice promises.
use mathlib.Core.List.{Permᴰ}
use ignite3_go_client.Base.{
  List, [], ◌∷◌, Bool, true, false, ◌≡◌, inl, inr, refl, sym, ap, ◌∙◌, if_elim, if◌then◌else◌,
}
use ignite3_go_client.Base.Orders.{Pairs, Perm-In, Perm-turned}
use ignite3_go_client.Tables.{TableColumn, Sort}
use ignite3_go_client.Tables.Keys.{IsStrictWeak, Sorts}

module _ (before : TableColumn → TableColumn → Bool) where
  abbrev insert : TableColumn → List TableColumn → List TableColumn
  insert x [] = x ∷ []
  insert x (y ∷ ys) = let rest = insert x ys in if before x y then x ∷ y ∷ ys else y ∷ rest

  same : (xs : List TableColumn) → Permᴰ xs xs
  same [] = Permᴰ.nil
  same (x ∷ xs) = Permᴰ.cons refl (same xs)

  insert-Perm : (x : TableColumn) (ys : List TableColumn) → Permᴰ (x ∷ ys) (insert x ys)
  insert-Perm x [] = same (x ∷ [])
  insert-Perm x (y ∷ ys) =
      if_elim (Permᴰ (x ∷ y ∷ ys)) (before x y) (x ∷ y ∷ ys) (y ∷ insert x ys)
        (λ _. same (x ∷ y ∷ ys))
        (λ _. Permᴰ.trans (Permᴰ.swap refl refl) (Permᴰ.cons refl (insert-Perm x ys)))

  abbrev NotBefore : TableColumn → TableColumn → Type 0
  NotBefore x y = before y x ≡ false

  module _ (weak : IsStrictWeak before) where
    not_after :
        (b : Bool) (x y z : TableColumn)
        → before z x ≡ b
        → before x y ≡ true
        → before z y ≡ false
        → b ≡ false
    not_after false x y z e lt ge = refl
    not_after true x y z e lt ge = elim (weak.cotrans z y x e) [
      | inl zy ↦ sym zy ∙ ge
      | inr yx ↦ absurd (weak.asym x y lt yx)
    ]

    insert-Pairs :
        (x : TableColumn) (ys : List TableColumn)
        → Pairs NotBefore ys
        → Pairs NotBefore (insert x ys)
    insert-Pairs x [] h = ((λ y i. absurd i), tt)
    insert-Pairs x (y ∷ ys) (h, hs) =
        if_elim (Pairs NotBefore) (before x y) (x ∷ y ∷ ys) (y ∷ insert x ys)
          (λ lt. (
            (λ z i. elim i [
              | inl e ↦ ap (λ w. before w x) e ∙ not_greater y lt
              | inr j ↦ not_after (before z x) x y z refl lt (h z j)
            ]),
            (h, hs),
          ))
          (λ ge. (
            (λ z i. elim (Perm-In (Perm-turned (insert-Perm x ys)) z i) [
              | inl e ↦ ap (λ w. before w y) e ∙ ge
              | inr j ↦ h z j
            ]),
            insert-Pairs x ys hs,
          ))
      where
        not_greater : (y : TableColumn) → before x y ≡ true → before y x ≡ false
        not_greater y lt = decided (before y x) refl
          where
            decided : (b : Bool) → before y x ≡ b → b ≡ false
            decided false e = refl
            decided true e = absurd (weak.asym x y lt e)

abbrev pub insertion_sort : Sort
insertion_sort before [] = []
insertion_sort before (x ∷ xs) = insert before x (insertion_sort before xs)

permutes :
    (before : TableColumn → TableColumn → Bool) (xs : List TableColumn)
    → IsStrictWeak before
    → Permᴰ xs (insertion_sort before xs)
permutes before [] w = Permᴰ.nil
permutes before (x ∷ xs) w =
    Permᴰ.trans (Permᴰ.cons refl (permutes before xs w))
      (insert-Perm before x (insertion_sort before xs))

ordered :
    (before : TableColumn → TableColumn → Bool) (xs : List TableColumn)
    → IsStrictWeak before
    → Pairs (λ x y. before y x ≡ false) (insertion_sort before xs)
ordered before [] w = tt
ordered before (x ∷ xs) w = insert-Pairs before w x (insertion_sort before xs) (ordered before xs w)

pub insertion_sort-Sorts : Sorts insertion_sort
insertion_sort-Sorts = record { permutes = permutes; ordered = ordered }
