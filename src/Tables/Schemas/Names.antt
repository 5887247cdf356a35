-- ===== src/Tables/Schemas/Names.antt =====
-- Finding a table by its name in the list of tables.
use text.Mathlib.Text.{◌==◌ as str_eq}
use ignite3_go_client.Base.{
  List, [], ◌∷◌, true, Option, String, Bool-cases, inl, inr, ◌⊎◌, ◌≡◌, refl,
}
use ignite3_go_client.Base.Int.{ℤ}
use ignite3_go_client.Base.Result.{ok}
use ignite3_go_client.Tables.Schemas.{Strings, normalize_table_name, keep_fallback, find_table}

-- A table of the list.
abbrev pub Lists : ℤ × String → List (ℤ × String) → Type 0
Lists table [] = ⊥
Lists table (x ∷ xs) = (table ≡ x) ⊎ Lists table xs

module _ (t : Strings) (wanted : String) where
  abbrev pub IsWanted : ℤ × String → Type 0
  IsWanted table = str_eq (normalize_table_name t table.1) wanted ≡ true

  -- Where the list has a table whose normalized name is the wanted one, findTableInList finds a table of
  -- the list with that name: in whatever order the map is visited, and whatever names that are only alike
  -- but for the schema come before it.
  pub find_table-IsWanted :
      (table : ℤ × String) (fallback : Option (ℤ × String)) (tables : List (ℤ × String))
      → Lists table tables
      → IsWanted table
      → (found : ℤ × String) × (find_table t wanted fallback tables ≡ ok found)
        × Lists found tables
        × IsWanted found
  unfolding find_table
  find_table-IsWanted table fallback [] l w = absurd l
  find_table-IsWanted table fallback (x ∷ xs) l w =
      elim (Bool-cases (str_eq (normalize_table_name t x.1) wanted)) [
        | inl here ↦ (x, rw here refl, inl refl, here)
        | inr elsewhere ↦
            let later : Lists table xs = elim l [ inl e ↦ absurd (cc) | inr i ↦ i ] in
            let (found, eq, i, f) =
              find_table-IsWanted table (keep_fallback t wanted fallback x) xs later w in
            (found, rw elsewhere eq, inr i, f)
      ]
