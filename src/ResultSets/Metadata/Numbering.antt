-- ===== src/ResultSets/Metadata/Numbering.antt =====
-- Whatever the server sends, metadata that is read numbers its columns by their places.
use ignite3_go_client.Base.{
  ℕ, zero, suc, List, [], ◌∷◌, ◌++◌, length, ◌≡◌, refl, ◌∙◌, sym, ap, subst, arith, true,
  Bool-cases, inl, inr, if◌then◌else◌,
}
use mathlib.Core.List.{append_assoc, append-nil}
use ignite3_go_client.Base.Int.{ℤ, pos, negsuc}
use ignite3_go_client.Base.Result.{ok, or_wrap, or_wrap-eq-ok, ok_inj, >>=-eq-ok}
use ignite3_go_client.ColumnTypes.{ColumnType, col_types}
use ignite3_go_client.ColumnTypes.Lookup.{same_int, get_column_type_by_id}
use ignite3_go_client.Msgpack.{Decoder}
use ignite3_go_client.ResultSets.{ColumnMetadata}
use ignite3_go_client.ResultSets.Metadata.{
  rounds, read_origin_option, read_column, read_columns, read_metadata,
}

-- The columns carry the numbers from `i` on, and each type is the entry of the table of types under
-- its own number.
abbrev pub AreNumbered : ℕ → List ColumnMetadata → Type 0
AreNumbered i [] = Unit {0}
AreNumbered i (c ∷ cs) =
    ((c.index ≡ pos i) × (get_column_type_by_id col_types c.column_type.type_id ≡ ok c.column_type))
    × AreNumbered (suc i) cs

same_int-eq : (a b : ℤ) → same_int a b ≡ true → a ≡ b
same_int-eq (pos a) (pos b) e = ground arith
same_int-eq (negsuc a) (negsuc b) e = ground arith
same_int-eq (pos a) (negsuc b) e = cc
same_int-eq (negsuc a) (pos b) e = cc

-- A type that is found by a number has that number.
type_id-get_column_type_by_id :
    (ts : List ColumnType) (id : ℤ) (t : ColumnType)
    → get_column_type_by_id ts id ≡ ok t
    → t.type_id ≡ id
unfolding get_column_type_by_id
type_id-get_column_type_by_id [] id t e = cc
type_id-get_column_type_by_id (x ∷ ts) id t e = elim (Bool-cases (same_int x.type_id id)) [
  | inl y ↦
      let f : ok x ≡ ok t =
        subst (λ b. (if b then ok x else get_column_type_by_id ts id) ≡ ok t) y e in
      ap (λ (c : ColumnType). c.type_id) (sym (ok_inj f)) ∙ same_int-eq x.type_id id y
  | inr n ↦
      type_id-get_column_type_by_id ts id t
        (subst (λ b. (if b then ok x else get_column_type_by_id ts id) ≡ ok t) n e)
]

module _ {M : Type 0} (d : Decoder M) where
  read_column-eq-ok :
      (columns : List ColumnMetadata) (i : ℤ) (m : M) (out : List ColumnMetadata × M)
      → read_column d columns i m ≡ ok out
      → (c : ColumnMetadata) × (out.0 ≡ columns ++ c ∷ [])
        × (c.index ≡ i)
        × (get_column_type_by_id col_types c.column_type.type_id ≡ ok c.column_type)
  unfolding read_column
  read_column-eq-ok columns i m out e =
      let (p, _, e1) = >>=-eq-ok (or_wrap _ (d.decode_int64 m)) _ e in
      let (n, _, e2) = >>=-eq-ok (or_wrap _ (d.decode_string p.1)) _ e1 in
      let (b, _, e3) = >>=-eq-ok (or_wrap _ (d.decode_bool n.1)) _ e2 in
      let (ct, _, e4) = >>=-eq-ok (or_wrap _ (d.decode_int64 b.1)) _ e3 in
      let (t, et, e5) = >>=-eq-ok (or_wrap _ (get_column_type_by_id col_types ct.0)) _ e4 in
      let (s, _, e6) = >>=-eq-ok (or_wrap _ (d.decode_int64 ct.1)) _ e5 in
      let (q, _, e7) = >>=-eq-ok (or_wrap _ (d.decode_int64 s.1)) _ e6 in
      let (h, _, e8) = >>=-eq-ok (or_wrap _ (d.decode_bool q.1)) _ e7 in
      let (o, _, e9) = >>=-eq-ok (read_origin_option d columns p.0 n.0 h.0 h.1) _ e8 in
      let found = or_wrap-eq-ok _ (get_column_type_by_id col_types ct.0) et in
      let c : ColumnMetadata = record {
        name = n.0;
        nullable = b.0;
        column_type = t;
        precision = q.0;
        scale = s.0;
        index = i;
        origin = o.0;
      } in
      (
        c,
        sym (
            ap (λ (x : List ColumnMetadata × M). x.0)
              (ok_inj {a = (columns ++ c ∷ [], o.1)} {b = out} e9)),
        refl,
        rw (type_id-get_column_type_by_id col_types ct.0 t found) found,
      )

  read_columns-eq-ok :
      (k i : ℕ) (columns : List ColumnMetadata) (m : M) (out : List ColumnMetadata × M)
      → read_columns d k i columns m ≡ ok out
      → (new : List ColumnMetadata) × (out.0 ≡ columns ++ new)
        × (length new ≡ k)
        × AreNumbered i new
  unfolding read_columns
  read_columns-eq-ok zero i columns m out e = (
    [],
    ap (λ (x : List ColumnMetadata × M). x.0) (sym (ok_inj e)) ∙ sym (append-nil columns),
    refl,
    tt,
  )
  read_columns-eq-ok (suc k) i columns m out e =
      let (a, ea, e1) = >>=-eq-ok (or_wrap _ (read_column d columns (pos i) m)) _ e in
      let (c, ec, ei, et) =
        read_column-eq-ok columns (pos i) m a
          (or_wrap-eq-ok _ (read_column d columns (pos i) m) ea) in
      let (new, en, el, num) = read_columns-eq-ok k (suc i) a.0 a.1 out e1 in
      (
        c ∷ new,
        en ∙ ap (λ x. x ++ new) ec ∙ append_assoc columns (c ∷ []) new,
        ap suc el,
        ((ei, et), num),
      )

  -- Metadata that is read has as many columns as the message announces (none for a negative count),
  -- numbered 0, 1, 2 and so on, each with a type that the table of types has under its number.
  pub read_metadata-AreNumbered :
      (m : M) (columns : List ColumnMetadata) (m' : M)
      → read_metadata d m ≡ ok (columns, m')
      → (count : ℤ) × (m1 : M) × (d.decode_int64 m ≡ ok (count, m1))
        × (length columns ≡ rounds count)
        × AreNumbered 0 columns
  unfolding read_metadata
  read_metadata-AreNumbered m columns m' e =
      let (n, en, e1) = >>=-eq-ok (or_wrap _ (d.decode_int64 m)) _ e in
      let (new, eq, el, num) = read_columns-eq-ok (rounds n.0) 0 [] n.1 (columns, m') e1 in
      (
        n.0,
        n.1,
        or_wrap-eq-ok _ (d.decode_int64 m) en,
        ap length eq ∙ el,
        subst (AreNumbered 0) (sym eq) num,
      )
