-- ===== src/Tables/Writes.antt =====
-- UpsertAll and DeleteAll: every row is encoded before anything is sent.
use text.Mathlib.Text.{◌==◌ as str_eq}
use text.Mathlib.TextPositions.{eq_refl}
use ignite3_go_client.Base.{
  List, [], ◌∷◌, ◌++◌, Bytes, Bool, true, false, Option, String, All, if◌then◌else◌, ◌≡◌, suc, ◌<◌,
  ◌^◌, length, none, some, ◌≢◌, arith, refl, ap, subst, ◌∙◌,
}
use ignite3_go_client.Base.Result.{
  Result, ok, err, panic, Error, ◌>>=◌, or_wrap, >>=-eq-ok, or_wrap-eq-ok,
}
use ignite3_go_client.Values.{Value, GoLib}
use ignite3_go_client.Base.Int.{ℤ, pos, Fits}
use ignite3_go_client.Tables.Received.{Reader, ReadsBack, read_write, read_write-tuple_write_all}
use ignite3_go_client.Tables.{
  number_of, OpCode, TableSchema, Table, Sort, Row, fill, build_tuple, encode_rows, Packer,
  Operation, tuple_write_all, upsert_all, delete_all, op_tuple_upsert_all, op_tuple_delete_all,
}

-- Each row is encoded as the tuple beside it.
abbrev pub Tuples :
    GoLib → (String → String) → Sort → TableSchema → Bool → List Row → List Bytes → Type 0
Tuples lib to_upper sort s only [] [] = Unit
Tuples lib to_upper sort s only (r ∷ rs) (t ∷ ts) =
    (build_tuple lib to_upper sort s r only ≡ ok t) × Tuples lib to_upper sort s only rs ts
Tuples lib to_upper sort s only _ _ = ⊥

ok_inj : {A : Type 0} {a b : A} → ok a ≡ ok b → a ≡ b
ok_inj e = cc

err-ne-ok : {A : Type 0} {e : Error} {a : A} → err e ≢ ok a
err-ne-ok h = cc

panic-ne-ok : {A : Type 0} {a : A} → ◌≢◌ {A = Result A} panic (ok a)
panic-ne-ok h = cc

module _ (lib : GoLib) (to_upper : String → String) (sort : Sort) where
  encode_rows-Tuples :
      (s : TableSchema) (only : Bool) (m : String) (rows : List Row) (ts : List Bytes)
      → encode_rows lib to_upper sort s only m rows ≡ ok ts
      → Tuples lib to_upper sort s only rows ts
  unfolding encode_rows
  encode_rows-Tuples s only m [] [] e = tt
  encode_rows-Tuples s only m [] (t ∷ ts) e = cc
  encode_rows-Tuples s only m (r ∷ rs) ts e =
      let (t, first, then_rest) =
        >>=-eq-ok (or_wrap m (build_tuple lib to_upper sort s r only)) _ e in
      let (more, rest, whole) = >>=-eq-ok (encode_rows lib to_upper sort s only m rs) _ then_rest in
      subst (Tuples lib to_upper sort s only (r ∷ rs)) (ok_inj whole) (
        or_wrap-eq-ok m (build_tuple lib to_upper sort s r only) first,
        encode_rows-Tuples s only m rs more rest,
      )

  Tuples-encode_rows :
      (s : TableSchema) (only : Bool) (m : String) (rows : List Row) (ts : List Bytes)
      → Tuples lib to_upper sort s only rows ts
      → encode_rows lib to_upper sort s only m rows ≡ ok ts
  unfolding encode_rows
  Tuples-encode_rows s only m [] [] h = refl
  Tuples-encode_rows s only m [] (t ∷ ts) h = absurd h
  Tuples-encode_rows s only m (r ∷ rs) [] h = absurd h
  Tuples-encode_rows s only m (r ∷ rs) (t ∷ ts) (e, h) =
      rw (e, Tuples-encode_rows s only m rs ts h) refl

  Tuples-length :
      (s : TableSchema) (only : Bool) (rows : List Row) (ts : List Bytes)
      → Tuples lib to_upper sort s only rows ts
      → length ts ≡ length rows
  Tuples-length s only [] [] h = refl
  Tuples-length s only [] (t ∷ ts) h = absurd h
  Tuples-length s only (r ∷ rs) [] h = absurd h
  Tuples-length s only (r ∷ rs) (t ∷ ts) (e, h) = ap suc (Tuples-length s only rs ts h)

  module _ (k : Packer) (reader : Reader) (laws : ReadsBack k reader) (t : Table) where
    -- What comes of `rows` for the operation `number`: nothing to send without rows; one operation of that
    -- number, whose payload reads as the table's id, its schema version and the tuples of all rows in their
    -- order; or, where some row is not encoded, no operation at all.
    abbrev pub Sent : ℤ → Bool → List Row → Result (Option Operation) → Type 0
    Sent number only [] made = made ≡ ok none
    Sent number only (row ∷ rows) (ok none) = ⊥
    Sent number only (row ∷ rows) (ok (some op)) =
        (number_of op.code ≡ number)
        × (ts : List Bytes) × Tuples lib to_upper sort t.schema only (row ∷ rows) ts
        × (read_write reader op.data_bytes ≡ some (t.id, t.schema.version, ts))
    Sent number only (row ∷ rows) (err e) =
        ((ts : List Bytes) × Tuples lib to_upper sort t.schema only (row ∷ rows) ts) → ⊥
    Sent number only (row ∷ rows) panic =
        ((ts : List Bytes) × Tuples lib to_upper sort t.schema only (row ∷ rows) ts) → ⊥

    made-Sent :
        (code : OpCode) (only : Bool) (row : Row) (rows : List Row) (encoded : Result (List Bytes))
        → Fits (2 ^ 63) t.id
        → Fits (2 ^ 63) t.schema.version
        → length (row ∷ rows) < 2 ^ 63
        → ((ts : List Bytes)
            → encoded ≡ ok ts
            → Tuples lib to_upper sort t.schema only (row ∷ rows) ts)
        → ((ts : List Bytes)
            → Tuples lib to_upper sort t.schema only (row ∷ rows) ts
            → encoded ≡ ok ts)
        → Sent
            (number_of code)
            only
            (row ∷ rows)
            (do ts ← encoded; ok (tuple_write_all k code t.id t.schema.version ts))
    unfolding tuple_write_all
    made-Sent code only row rows (ok []) fi fv few to from = absurd (to [] refl)
    made-Sent code only row rows (ok (b ∷ bs)) fi fv few to from =
        let h = to (b ∷ bs) refl in
        let count = Tuples-length t.schema only (row ∷ rows) (b ∷ bs) h in
        let (same, back) =
          read_write-tuple_write_all k reader laws code t.id t.schema.version b bs _ fi fv
            (omega arith) refl in
        (ap number_of same, b ∷ bs, h, back)
    made-Sent code only row rows (err e) fi fv few to from = λ h. absurd (err-ne-ok (from h.0 h.1))
    made-Sent code only row rows panic fi fv few to from = λ h. absurd (panic-ne-ok (from h.0 h.1))

    -- UpsertAll makes operation 13 of its rows, and DeleteAll operation 29 of its keys, exactly when each of
    -- them is encoded; the receiver reads the table's id, its schema version, and the tuples in the order of
    -- the rows. If one row is not encoded, there is nothing to send, and neither is there without rows.
    pub upsert_all-Sent :
        (rows : List Row)
        → Fits (2 ^ 63) t.id
        → Fits (2 ^ 63) t.schema.version
        → length rows < 2 ^ 63
        → Sent (pos 13) false rows (upsert_all lib to_upper sort k t rows)
          × Sent (pos 29) true rows (delete_all lib to_upper sort k t rows)
    unfolding upsert_all delete_all
    upsert_all-Sent [] fi fv few = (refl, refl)
    upsert_all-Sent (row ∷ rows) fi fv few = (
      made-Sent op_tuple_upsert_all false row rows
          (encode_rows lib to_upper sort t.schema false "failed to encode row %d" (row ∷ rows)) fi
          fv few (encode_rows-Tuples t.schema false _ (row ∷ rows))
          (Tuples-encode_rows t.schema false _ (row ∷ rows)),
      made-Sent op_tuple_delete_all true row rows
          (encode_rows lib to_upper sort t.schema true "failed to encode key %d" (row ∷ rows)) fi fv
          few (encode_rows-Tuples t.schema true _ (row ∷ rows))
          (Tuples-encode_rows t.schema true _ (row ∷ rows)),
    )

-- No entry of the row has the upper-case name `name`.
abbrev pub Missing : (String → String) → String → Row → Type 0
Missing to_upper name row = All (λ e. str_eq name (to_upper e.0) ≡ false) row

fill-Missing :
    (to_upper : String → String) (row : Row) (m : String → Value) (name : String)
    → Missing to_upper name row
    → fill to_upper row m name ≡ m name
unfolding fill
fill-Missing to_upper [] m name h = refl
fill-Missing to_upper ((k, v) ∷ row) m name (h, hs) =
    fill-Missing to_upper row _ name hs ∙ ap (λ (b : Bool). if b then v else m name) h

fill-last :
    (to_upper : String → String) (front back : Row) (k : String) (v : Value) (m : String → Value)
    → Missing to_upper (to_upper k) back
    → fill to_upper (front ++ ((k, v) ∷ back)) m (to_upper k) ≡ v
unfolding fill
fill-last to_upper [] back k v m h =
    fill-Missing to_upper back _ (to_upper k) h
    ∙ ap (λ (b : Bool). if b then v else m (to_upper k)) (eq_refl (to_upper k))
fill-last to_upper ((j, u) ∷ front) back k v m h = fill-last to_upper front back k v _ h

-- A column takes the value of the last entry of the row that has its name in upper case; a column
-- that the row does not name takes NULL.
pub fill-lookup :
    (to_upper : String → String) (front back : Row) (k : String) (v : Value) (missing : String)
    → Missing to_upper (to_upper k) back
    → Missing to_upper missing (front ++ ((k, v) ∷ back))
    → (fill to_upper (front ++ ((k, v) ∷ back)) (λ _. Value.nil) (to_upper k) ≡ v)
      × (fill to_upper (front ++ ((k, v) ∷ back)) (λ _. Value.nil) missing ≡ Value.nil)
fill-lookup to_upper front back k v missing h g = (
  fill-last to_upper front back k v (λ _. Value.nil) h,
  fill-Missing to_upper (front ++ ((k, v) ∷ back)) (λ _. Value.nil) missing g,
)
