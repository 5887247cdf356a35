-- ===== src/Arguments/Nulls.antt =====
-- NULL among SQL arguments: set_nil, whose get_length is 0 though Bytes writes two bytes for it.
use ignite3_go_client.Base.{
  ℕ, zero, suc, ◌+◌, ◌-◌, ◌*◌, ◌%◌, ◌≤◌, ◌<◌, List, ◌∷◌, ◌++◌, Bytes, none, some, length, get_elem?,
  take, drop, le→ltb_false, lt→ltb, Option, ap, ◌∙◌, ◌≡◌, refl, arith,
}
use ignite3_go_client.Base.Result.{Result, ok, err, panic, ◌>>=◌}
use ignite3_go_client.Wire.{le_bytes, from_le}
use ignite3_go_client.ColumnTypes.{
  TypeId, type_null, type_smallint, type_int, type_bigint, type_varchar, type_varbinary,
}
use ignite3_go_client.Tuples.{
  ColumnInfo, TypeScaleValue, int_mod, index, copy_up, copy_down, read_value, from_header,
  start_offset, entry_offset, end_offset, make_checked, elements_loop, new_tuple, column_count,
}
use ignite3_go_client.Arguments.{
  set_nil, get_length, total_length, entry_size, to_header, offsets, payloads, bytes,
}

abbrev NeverErr {ℓ} : {A : Type ℓ} → Result A → Type 0
NeverErr (ok a) = Unit
NeverErr (err e) = ⊥
NeverErr panic = Unit

bind_panics {ℓ κ} :
    {A : Type ℓ} {B : Type κ} (m : Result A) (f : A → Result B)
    → NeverErr m
    → ((a : A) → f a ≡ panic)
    → (m >>= f) ≡ panic
bind_panics (ok a) f n h = h a
bind_panics (err e) f n h = absurd n
bind_panics panic f n h = refl

bind_NeverErr {ℓ κ} :
    {A : Type ℓ} {B : Type κ} (m : Result A) (f : A → Result B)
    → NeverErr m
    → ((a : A) → NeverErr (f a))
    → NeverErr (m >>= f)
bind_NeverErr (ok a) f n h = h a
bind_NeverErr (err e) f n h = absurd n
bind_NeverErr panic f n h = tt

of_option : (o : Option ℕ) → NeverErr (elim o [ none ↦ panic | some b ↦ ok b ])
of_option none = tt
of_option (some b) = tt

panic_bind {ℓ κ} :
    {A : Type ℓ} {B : Type κ} (m : Result A) (f : A → Result B) → m ≡ panic → (m >>= f) ≡ panic
panic_bind m f h = rw h refl

index-NeverErr : (bin : Bytes) (i : ℕ) → NeverErr (index bin i)
unfolding index
index-NeverErr bin i = of_option (get_elem? bin i)

copy_up-NeverErr : (bin : Bytes) (start n : ℕ) → NeverErr (copy_up bin start n)
unfolding copy_up
copy_up-NeverErr bin start zero = tt
copy_up-NeverErr bin start (suc n) =
    bind_NeverErr (index bin start) _ (index-NeverErr bin start) λ b.
      bind_NeverErr (copy_up bin ((start + 1) % int_mod) n) _
        (copy_up-NeverErr bin ((start + 1) % int_mod) n) (λ rest. tt)

copy_down-NeverErr : (bin : Bytes) (end n : ℕ) → NeverErr (copy_down bin end n)
unfolding copy_down
copy_down-NeverErr bin end zero = tt
copy_down-NeverErr bin end (suc n) =
    bind_NeverErr (index bin ((end + int_mod - 1) % int_mod)) _
      (index-NeverErr bin ((end + int_mod - 1) % int_mod))
      λ b.
        bind_NeverErr (copy_down bin ((end + int_mod - 1) % int_mod) n) _
          (copy_down-NeverErr bin ((end + int_mod - 1) % int_mod) n) (λ rest. tt)

-- No read of a payload ends in an error value.
read_value-NeverErr :
    (bin : Bytes) (base : ℕ) (t : TypeId) (start end : ℕ)
    → NeverErr (read_value bin base t start end)
unfolding read_value
read_value-NeverErr bin base type_smallint start end = copy_down-NeverErr bin _ _
read_value-NeverErr bin base type_int start end = copy_down-NeverErr bin _ _
read_value-NeverErr bin base type_bigint start end = copy_down-NeverErr bin _ _
read_value-NeverErr bin base type_varchar start end =
    bind_NeverErr (copy_up bin _ _) _ (copy_up-NeverErr bin _ _) (λ v. tt)
read_value-NeverErr bin base type_varbinary start end =
    bind_NeverErr (copy_up bin _ _) _ (copy_up-NeverErr bin _ _) (λ v. tt)
read_value-NeverErr bin base type_null start end = copy_up-NeverErr bin _ _
read_value-NeverErr bin base _ start end = copy_up-NeverErr bin _ _

-- A loop whose rest panics does so too.
element_panics :
    (bin : Bytes) (size base i : ℕ) (c : ColumnInfo) (cs : List ColumnInfo) (start end : ℕ)
    → start_offset bin size i ≡ ok start
    → end_offset bin size base i cs ≡ ok end
    → make_checked start end ≡ ok tt
    → elements_loop bin size base (suc i) cs ≡ panic
    → elements_loop bin size base i (c ∷ cs) ≡ panic
unfolding elements_loop
element_panics bin size base i c cs start end s e m h =
    rw (s, e, m)
      (bind_panics (read_value bin base c.type_id start end) _
        (read_value-NeverErr bin base c.type_id start end)
        (λ v. panic_bind (elements_loop bin size base (suc i) cs) _ h))

-- The third entry of a tuple that starts with a NULL argument says 0, below the second one.
module _ (tail : Bytes) where
  abbrev short : Bytes
  short = 0 ∷ 1 ∷ 2 ∷ 0 ∷ tail

  entry_at :
      (i b : ℕ)
      → 2 + i ≤ length short
      → from_le (take 1 (drop (1 + i * 1) short)) ≡ b
      → entry_offset short 1 i ≡ ok b
  unfolding entry_offset
  entry_at i b l h = rw (le→ltb_false (length short) (1 + i * 1 + 1) (omega arith), h) refl

  entry0 : entry_offset short 1 0 ≡ ok 1
  entry0 = entry_at 0 1 (omega arith) (unfold from_le in refl)

  entry1 : entry_offset short 1 1 ≡ ok 2
  entry1 = entry_at 1 2 (omega arith) (unfold from_le in refl)

  entry2 : entry_offset short 1 2 ≡ ok 0
  entry2 = entry_at 2 0 (omega arith) (unfold from_le in refl)

  third_panics :
      (base : ℕ) (c d : ColumnInfo) (cs : List ColumnInfo)
      → elements_loop short 1 base 2 (c ∷ d ∷ cs) ≡ panic
  unfolding elements_loop start_offset end_offset make_checked
  third_panics base c d cs = rw (entry1, entry2) refl

  first_panics :
      (base : ℕ) (a b c d : ColumnInfo) (cs : List ColumnInfo)
      → elements_loop short 1 base 0 (a ∷ b ∷ c ∷ d ∷ cs) ≡ panic
  unfolding start_offset end_offset make_checked
  first_panics base a b c d cs =
      element_panics short 1 base 0 a (b ∷ c ∷ d ∷ cs) 0 1 refl entry0 refl (
        element_panics short 1 base 1 b (c ∷ d ∷ cs) 1 2 entry0 entry1 refl
          (third_panics base c d cs))

small_entries : (t : ℕ) → t < 255 → entry_size t ≡ 1
unfolding entry_size
small_entries t h = rw (lt→ltb t 255 h) refl

null_size :
    (rest : List TypeScaleValue)
    → total_length rest < 255
    → entry_size (total_length (set_nil ∷ rest)) ≡ 1
null_size rest h =
    small_entries (total_length (set_nil ∷ rest))
      (unfold total_length get_length set_nil in omega arith)

null_bytes :
    (rest : List TypeScaleValue)
    → total_length rest < 255
    → bytes (set_nil ∷ rest) ≡ short (offsets 1 0 rest ++ payloads (set_nil ∷ rest))
unfolding bytes
null_bytes rest h =
    rw (null_size rest h) (unfold to_header offsets le_bytes set_nil get_length in refl)

-- A NULL argument before any other makes a tuple, here one of fewer than 255 bytes of arguments,
-- that the reader cannot take apart: its third offset is below its second, and the reader panics.
pub new_tuple-bytes_null :
    (rest : List TypeScaleValue) (a b c d : ColumnInfo) (cs : List ColumnInfo)
    → total_length rest < 255
    → new_tuple (a ∷ b ∷ c ∷ d ∷ cs) (bytes (set_nil ∷ rest)) ≡ panic
unfolding new_tuple from_header
new_tuple-bytes_null rest a b c d cs h =
    ap (new_tuple (a ∷ b ∷ c ∷ d ∷ cs)) (null_bytes rest h)
    ∙ first_panics (offsets 1 0 rest ++ payloads (set_nil ∷ rest))
        (1 + column_count (a ∷ b ∷ c ∷ d ∷ cs) * 1) a b c d cs
