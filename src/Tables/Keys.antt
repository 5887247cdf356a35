-- ===== src/Tables/Keys.antt =====
-- KeyColumns: the members of the key and their order.
use mathlib.Core.List.{Permᴰ}
use ignite3_go_client.Base.{
  ◌<◌, List, [], ◌∷◌, Bool, true, false, ◌≡◌, ◌≢◌, ◌↔◌, ◌⊎◌, inl, inr, refl, sym, ap, ◌∙◌, if_elim,
  arith,
}
use ignite3_go_client.Base.Orders.{In, Pairs, Perm-In, Perm-turned, Perm-Pairs}
use ignite3_go_client.Base.Int.{ℤ, pos, negsuc}
use ignite3_go_client.Tables.{
  TableColumn, TableSchema, Sort, less, by_key_index, key_only, key_columns,
}

pub less_asym : (a b : ℤ) → less a b ≡ true → less b a ≡ true → ⊥
less_asym (pos a) (pos b) h g = ground arith
less_asym (pos a) (negsuc b) h g = cc
less_asym (negsuc a) (pos b) h g = cc
less_asym (negsuc a) (negsuc b) h g = ground arith

less_cotrans : (a b c : ℤ) → less a c ≡ true → (less a b ≡ true) ⊎ (less b c ≡ true)
less_cotrans (pos a) (pos b) (pos c) h = ground arith
less_cotrans (pos a) (negsuc b) (pos c) h = inr refl
less_cotrans (negsuc a) (pos b) (pos c) h = inl refl
less_cotrans (negsuc a) (negsuc b) (pos c) h = inr refl
less_cotrans (negsuc a) (pos b) (negsuc c) h = inl refl
less_cotrans (negsuc a) (negsuc b) (negsuc c) h = ground arith
less_cotrans (pos a) b (negsuc c) h = cc

-- The order of the integers, apart from the comparison of the code.
abbrev pub IsBelow : ℤ → ℤ → Type 0
IsBelow (pos a) (pos b) = a < b
IsBelow (pos a) (negsuc b) = ⊥
IsBelow (negsuc a) (pos b) = Unit
IsBelow (negsuc a) (negsuc b) = b < a

not_less-IsBelow : (a b : ℤ) → a ≢ b → less b a ≡ false → IsBelow a b
not_less-IsBelow (pos a) (pos b) ne h = grind arith
not_less-IsBelow (pos a) (negsuc b) ne h = cc
not_less-IsBelow (negsuc a) (pos b) ne h = tt
not_less-IsBelow (negsuc a) (negsuc b) ne h = grind arith

-- A strict weak order, which sort.Slice asks of the comparison that it is given.
pub record IsStrictWeak (before : TableColumn → TableColumn → Bool) : Type 0 where
  pub asym : (x y : TableColumn) → before x y ≡ true → before y x ≡ true → ⊥
  pub cotrans :
      (x y z : TableColumn) → before x z ≡ true → (before x y ≡ true) ⊎ (before y z ≡ true)

by_key_index-IsStrictWeak : IsStrictWeak by_key_index
by_key_index-IsStrictWeak = record {
  asym = λ x y. less_asym x.key_index y.key_index;
  cotrans = λ x y z. less_cotrans x.key_index y.key_index z.key_index;
}

-- What sort.Slice promises: it permutes the slice, and no member comes before an earlier one. Members that
-- the comparison does not tell apart may stand in any order.
pub record Sorts (sort : Sort) : Type 0 where
  pub permutes :
      (before : TableColumn → TableColumn → Bool) (xs : List TableColumn)
      → IsStrictWeak before
      → Permᴰ xs (sort before xs)
  pub ordered :
      (before : TableColumn → TableColumn → Bool) (xs : List TableColumn)
      → IsStrictWeak before
      → Pairs (λ x y. before y x ≡ false) (sort before xs)

-- No two key columns have the same key index.
abbrev pub KeysDiffer : List TableColumn → Type 0
KeysDiffer = Pairs (λ a b. a.key ≡ true → b.key ≡ true → a.key_index ≢ b.key_index)

abbrev IndexesDiffer : TableColumn → TableColumn → Type 0
IndexesDiffer a b = a.key_index ≢ b.key_index

true-ne-false : true ≢ false
true-ne-false e = cc

key_only-In :
    (cs : List TableColumn) (z : TableColumn) → In z (key_only cs) → In z cs × (z.key ≡ true)
key_only-In [] z = λ i. absurd i
key_only-In (c ∷ cs) z =
    if_elim (λ l. In z l → In z (c ∷ cs) × (z.key ≡ true)) c.key (c ∷ key_only cs) (key_only cs)
      (λ k i. elim i [
        | inl e ↦ (inl e, ap (λ (x : TableColumn). x.key) e ∙ k)
        | inr j ↦ let (there, key) = key_only-In cs z j in (inr there, key)
      ])
      (λ _ i. let (there, key) = key_only-In cs z i in (inr there, key))

In-key_only :
    (cs : List TableColumn) (z : TableColumn) → In z cs → z.key ≡ true → In z (key_only cs)
In-key_only [] z i k = absurd i
In-key_only (c ∷ cs) z (inl e) k =
    if_elim (In z) c.key (c ∷ key_only cs) (key_only cs) (λ _. inl e)
      (λ no. absurd (true-ne-false (sym k ∙ ap (λ (x : TableColumn). x.key) e ∙ no)))
In-key_only (c ∷ cs) z (inr i) k =
    if_elim (In z) c.key (c ∷ key_only cs) (key_only cs) (λ _. inr (In-key_only cs z i k))
      (λ _. In-key_only cs z i k)

key_only-IndexesDiffer : (cs : List TableColumn) → KeysDiffer cs → Pairs IndexesDiffer (key_only cs)
key_only-IndexesDiffer [] h = tt
key_only-IndexesDiffer (c ∷ cs) (h, hs) =
    if_elim (Pairs IndexesDiffer) c.key (c ∷ key_only cs) (key_only cs)
      (λ k. (
        (λ y i. let (there, key) = key_only-In cs y i in h y there k key),
        key_only-IndexesDiffer cs hs,
      ))
      (λ _. key_only-IndexesDiffer cs hs)

ordered-Below :
    (xs : List TableColumn)
    → Pairs IndexesDiffer xs
    → Pairs (λ x y. by_key_index y x ≡ false) xs
    → Pairs (λ a b. IsBelow a.key_index b.key_index) xs
ordered-Below [] d o = tt
ordered-Below (x ∷ xs) (d, ds) (o, os) =
    ((λ y i. not_less-IsBelow x.key_index y.key_index (d y i) (o y i)), ordered-Below xs ds os)

-- Whatever way the sort works, KeyColumns gives exactly the columns of the schema that are key columns,
-- with key indexes that ascend strictly, provided that no two of them have the same key index.
pub key_columns-ascend :
    (sort : Sort) (s : TableSchema)
    → Sorts sort
    → KeysDiffer s.columns
    → Pairs (λ a b. IsBelow a.key_index b.key_index) (key_columns sort s)
      × ((z : TableColumn) → In z (key_columns sort s) ↔ (In z s.columns × (z.key ≡ true)))
unfolding key_columns
key_columns-ascend sort s h differ =
    let same = h.permutes by_key_index (key_only s.columns) by_key_index-IsStrictWeak in
    let apart =
      Perm-Pairs IndexesDiffer (λ x y d. λ e. d (sym e)) same
        (key_only-IndexesDiffer s.columns differ) in
    (
      ordered-Below (key_columns sort s) apart
          (h.ordered by_key_index (key_only s.columns) by_key_index-IsStrictWeak),
      λ z. (
        (λ i. key_only-In s.columns z (Perm-In (Perm-turned same) z i)),
        (λ i. Perm-In same z (In-key_only s.columns z i.0 i.1)),
      ),
    )
