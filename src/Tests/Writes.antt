-- ===== src/Tests/Writes.antt =====
-- Rows that are written through a client, and the order of key columns.
use ignite3_go_client.Base.{
  zero, suc, ap, [], ◌∷◌, ◌++◌, Bytes, true, false, Option, some, none, ◌≡◌, ◌≢◌, sym, ◌∙◌, ◌↔◌,
  refl, arith, List, length, take, drop, inl, inr,
}
use ignite3_go_client.Base.Int.{ℤ, pos, negsuc}
use ignite3_go_client.Base.Orders.{In, Pairs}
use ignite3_go_client.Integers.Kinds.{bt_int32}
use ignite3_go_client.ColumnTypes.{type_int}
use ignite3_go_client.Values.{Value}
use ignite3_go_client.Tables.{
  Table, TableColumn, TableSchema, Row, Packer, upsert_all, delete_all, key_columns,
}
use ignite3_go_client.Tables.Keys.{IsBelow, KeysDiffer, key_columns-ascend}
use ignite3_go_client.Tables.Received.{Reader, ReadsBack}
use ignite3_go_client.Tables.Writes.{Sent, upsert_all-Sent}
use ignite3_go_client.Tables.Sends.{
  Writes, table_upsert_all, table_delete_all, table_upsert_all-Writes,
}
use ignite3_go_client.Tests.Samples.{plain_lib}
use ignite3_go_client.Tests.Sorting.{insertion_sort, insertion_sort-Sorts}
use ignite3_go_client.Tests.Tokens.{writer, tokens-IsLawful}
use ignite3_go_client.Tests.Protocols.{protocol, echo, counter, echo_reaches}

abbrev key_column : ℤ → TableColumn
key_column i = record {
  name = "ID";
  type_id = type_int;
  kind = bt_int32;
  key_index = i;
  key = true;
  nullable = false;
  scale = pos 0;
  precision = pos 0;
}

abbrev value_column : TableColumn
value_column = record (key_column (pos 0)) { name = "V"; key = false }

-- Two key columns against their order, and a column that is none.
abbrev two_keys : TableSchema
two_keys = record {
  version = pos 3;
  columns = key_column (pos 1) ∷ value_column ∷ key_column (pos 0) ∷ [];
}

value_column-no_key : value_column.key ≢ true
value_column-no_key e = cc

one-ne-zero : pos 1 ≢ pos 0
one-ne-zero e = cc

two_keys-KeysDiffer : KeysDiffer two_keys.columns
two_keys-KeysDiffer = (
  (λ y i k k'. elim i [
    | inl e ↦ absurd (value_column-no_key (sym (ap (λ (x : TableColumn). x.key) e) ∙ k'))
    | inr (inl e) ↦ λ same. one-ne-zero (same ∙ ap (λ (x : TableColumn). x.key_index) e)
    | inr (inr j) ↦ absurd j
  ]),
  ((λ y i k. absurd (value_column-no_key k)), ((λ y i. absurd i), tt)),
)

key_columns-ascend_example :
    Pairs (λ a b. IsBelow a.key_index b.key_index) (key_columns insertion_sort two_keys)
    × ((z : TableColumn)
        → In z (key_columns insertion_sort two_keys) ↔ (In z two_keys.columns × (z.key ≡ true)))
key_columns-ascend_example =
    key_columns-ascend insertion_sort two_keys insertion_sort-Sorts two_keys-KeysDiffer

-- A table of one key.
abbrev key_table : Table
key_table = record {
  id = pos 9;
  name = "T";
  schema = record { version = pos 3; columns = key_column (pos 0) ∷ [] };
}

-- A length, or a sign, in front of each value
abbrev table_packer : Packer
table_packer = record {
  pack_int64 = λ z. elim z [ pos n ↦ 0 ∷ n ∷ [] | negsuc n ↦ 1 ∷ n ∷ [] ];
  pack_null = 0xc0 ∷ [];
  pack_bytes = λ b. length b ∷ b;
}

abbrev int_from : Bytes → Option (ℤ × Bytes)
int_from (zero ∷ n ∷ rest) = some (pos n, rest)
int_from (suc s ∷ n ∷ rest) = some (negsuc n, rest)
int_from _ = none

abbrev bytes_from : Bytes → Option (Bytes × Bytes)
bytes_from [] = none
bytes_from (n ∷ rest) = some (take n rest, drop n rest)

abbrev null_from : Bytes → Option Bytes
null_from [] = none
null_from (c ∷ rest) = some rest

abbrev table_reader : Reader
table_reader = record { take_int64 = int_from; take_null = null_from; take_bytes = bytes_from }

int_from-back :
    (z : ℤ) (rest : Bytes) → int_from (table_packer.pack_int64 z ++ rest) ≡ some (z, rest)
int_from-back (pos n) rest = refl
int_from-back (negsuc n) rest = refl

bytes_from-back : (b rest : Bytes) → bytes_from (length b ∷ (b ++ rest)) ≡ some (b, rest)
bytes_from-back b rest = rw (take_all b rest, drop_all b rest) refl
  where
    take_all : (b rest : Bytes) → take (length b) (b ++ rest) ≡ b
    take_all [] rest = refl
    take_all (x ∷ b) rest = ap (λ l. x ∷ l) (take_all b rest)

    drop_all : (b rest : Bytes) → drop (length b) (b ++ rest) ≡ rest
    drop_all [] rest = refl
    drop_all (x ∷ b) rest = drop_all b rest

table_reader-ReadsBack : ReadsBack table_packer table_reader
table_reader-ReadsBack = record {
  int64_back = λ z rest h. int_from-back z rest;
  null_back = λ rest. refl;
  bytes_back = bytes_from-back;
}

abbrev key_rows : List Row
key_rows = (("ID", Value.int64 (pos 1)) ∷ []) ∷ (("ID", Value.int64 (pos 2)) ∷ []) ∷ []

upsert_all-Sent_example :
    Sent plain_lib
      (λ s. s)
      insertion_sort
      table_packer
      table_reader
      table_reader-ReadsBack
      key_table
      (pos 13)
      false
      key_rows
      (upsert_all plain_lib (λ s. s) insertion_sort table_packer key_table key_rows)
    × Sent plain_lib
        (λ s. s)
        insertion_sort
        table_packer
        table_reader
        table_reader-ReadsBack
        key_table
        (pos 29)
        true
        key_rows
        (delete_all plain_lib (λ s. s) insertion_sort table_packer key_table key_rows)
upsert_all-Sent_example =
    upsert_all-Sent plain_lib (λ s. s) insertion_sort table_packer table_reader
      table_reader-ReadsBack key_table key_rows (omega arith) (omega arith) (omega arith)

table_upsert_all-Writes_example :
    Writes protocol writer tokens-IsLawful echo counter echo_reaches plain_lib
      (λ s. s)
      insertion_sort
      table_packer
      table_reader
      table_reader-ReadsBack
      key_table
      (pos 13)
      false
      key_rows
      (5, [])
      8
      5
      (table_upsert_all protocol echo plain_lib
        (λ s. s)
        insertion_sort
        table_packer
        key_table
        key_rows
        (record { connected = true; conn = (5, []); request_id = pos 8 }))
    × Writes protocol writer tokens-IsLawful echo counter echo_reaches plain_lib
        (λ s. s)
        insertion_sort
        table_packer
        table_reader
        table_reader-ReadsBack
        key_table
        (pos 29)
        true
        key_rows
        (5, [])
        8
        5
        (table_delete_all protocol echo plain_lib
          (λ s. s)
          insertion_sort
          table_packer
          key_table
          key_rows
          (record { connected = true; conn = (5, []); request_id = pos 8 }))
table_upsert_all-Writes_example =
    table_upsert_all-Writes protocol writer tokens-IsLawful echo counter echo_reaches plain_lib
      (λ s. s) insertion_sort table_packer table_reader table_reader-ReadsBack key_table key_rows
      (5, []) 8 5 (omega arith) (omega arith) (omega arith) (omega arith) refl
