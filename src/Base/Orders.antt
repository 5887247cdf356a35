-- ===== src/Base/Orders.antt =====
-- Lists in ascending order: what sort.Slice makes of a slice whose members differ has one order.
use mathlib.Core.List.{List, [], ◌∷◌, Permᴰ}
use mathlib.Core.Bool.{Bool, true}
use mathlib.Core.Logic.{◌⊎◌, inl, inr}
use mathlib.Core.Path.{◌≡◌, refl, sym, ap, subst, ◌∙◌}

module _ {A : Type 0} where
  -- `x` stands in the list.
  abbrev pub In : A → List A → Type 0
  In x [] = ⊥
  In x (y ∷ ys) = (x ≡ y) ⊎ In x ys

  module _ (before : A → A → Bool) where
    -- Every member comes before each later one.
    abbrev pub Ascends : List A → Type 0
    Ascends [] = Unit
    Ascends (x ∷ xs) = ((y : A) → In y xs → before x y ≡ true) × Ascends xs

    module _ (asym : (x y : A) → before x y ≡ true → before y x ≡ true → ⊥) where
      heads :
          (x y : A) (xs ys : List A)
          → Ascends (x ∷ xs)
          → Ascends (y ∷ ys)
          → In x (y ∷ ys)
          → In y (x ∷ xs)
          → x ≡ y
      heads x y xs ys a b (inl e) k = e
      heads x y xs ys a b (inr i) (inl e) = sym e
      heads x y xs ys a b (inr i) (inr j) = absurd (asym y x (b.0 x i) (a.0 y j))

      abbrev Within : List A → List A → Type 0
      Within xs ys = (z : A) → In z xs → In z ys

      -- What is left of two ascending lists with the same head has the same members still.
      rest-Within :
          (x y : A) (xs ys : List A)
          → Ascends (x ∷ xs)
          → x ≡ y
          → Within (x ∷ xs) (y ∷ ys)
          → Within xs ys
      rest-Within x y xs ys a e w z i = later (w z (inr i))
        where
          later : In z (y ∷ ys) → In z ys
          later (inl f) =
              let g : before x z ≡ true = a.0 z i in
              let h : before x x ≡ true = subst (λ c. before x c ≡ true) (f ∙ sym e) g in
              absurd (asym x x h h)
          later (inr j) = j

      -- Ascending lists with the same members are one list.
      pub one_order :
          (xs ys : List A) → Ascends xs → Ascends ys → Within xs ys → Within ys xs → xs ≡ ys
      one_order [] [] a b w v = refl
      one_order [] (y ∷ ys) a b w v = absurd (v y (inl refl))
      one_order (x ∷ xs) [] a b w v = absurd (w x (inl refl))
      one_order (x ∷ xs) (y ∷ ys) a b w v =
          let e : x ≡ y = heads x y xs ys a b (w x (inl refl)) (v y (inl refl)) in
          let rest : xs ≡ ys =
            one_order xs ys a.1 b.1 (rest-Within x y xs ys a e w)
              (rest-Within y x ys xs b (sym e) v) in
          ap (λ c. c ∷ xs) e ∙ ap (λ l. y ∷ l) rest

  -- Each member stands in the relation to every later one.
  abbrev pub Pairs : (A → A → Type 0) → List A → Type 0
  Pairs R [] = Unit
  Pairs R (x ∷ xs) = ((y : A) → In y xs → R x y) × Pairs R xs

  pub Perm-In : {xs ys : List A} → Permᴰ xs ys → (z : A) → In z xs → In z ys
  Perm-In Permᴰ.nil z i = i
  Perm-In (Permᴰ.cons e p) z (inl f) = inl (f ∙ e)
  Perm-In (Permᴰ.cons e p) z (inr i) = inr (Perm-In p z i)
  Perm-In (Permᴰ.swap e f) z (inl g) = inr (inl (g ∙ e))
  Perm-In (Permᴰ.swap e f) z (inr (inl g)) = inl (g ∙ f)
  Perm-In (Permᴰ.swap e f) z (inr (inr i)) = inr (inr i)
  Perm-In (Permᴰ.trans p q) z i = Perm-In q z (Perm-In p z i)

  pub Perm-turned : {xs ys : List A} → Permᴰ xs ys → Permᴰ ys xs
  Perm-turned Permᴰ.nil = Permᴰ.nil
  Perm-turned (Permᴰ.cons e p) = Permᴰ.cons (sym e) (Perm-turned p)
  Perm-turned (Permᴰ.swap e f) = Permᴰ.swap (sym f) (sym e)
  Perm-turned (Permᴰ.trans p q) = Permᴰ.trans (Perm-turned q) (Perm-turned p)

  module _ (R : A → A → Type 0) (turn : (x y : A) → R x y → R y x) where
    -- A symmetric relation between the members does not depend on their order.
    pub Perm-Pairs : {xs ys : List A} → Permᴰ xs ys → Pairs R xs → Pairs R ys
    Perm-Pairs Permᴰ.nil h = tt
    Perm-Pairs (Permᴰ.cons e p) (h, hs) =
        ((λ y i. subst (λ a. R a y) e (h y (Perm-In (Perm-turned p) y i))), Perm-Pairs p hs)
    Perm-Pairs (Permᴰ.swap {a = a} {b = b} e f) (h, (hb, hl)) = (
      (λ y i.
          subst (λ c. R c y) f
            (elim i [
              | inl g ↦ subst (λ c. R b c) (e ∙ sym g) (turn a b (h b (inl refl)))
              | inr j ↦ hb y j
            ])),
      ((λ y i. subst (λ c. R c y) e (h y (inr i))), hl),
    )
    Perm-Pairs (Permᴰ.trans p q) h = Perm-Pairs q (Perm-Pairs p h)
