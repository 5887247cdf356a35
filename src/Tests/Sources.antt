-- ===== src/Tests/Sources.antt =====
-- Data source names and schemas.
use text.Mathlib.Text.{◌==◌ as str_eq}
use text.Mathlib.TextEquality.{eq_iff}
use mathlib.Core.List.{Permᴰ}
use ignite3_go_client.Base.Orders.{Pairs}
use ignite3_go_client.Base.{
  List, String, true, false, ◌≢◌, ap, ◌∙◌, inl, inr, if◌then◌else◌, List, [], ◌∷◌, true, false,
  none, String, ◌≡◌, refl, ◌∙◌, arith, inl, inr,
}
use ignite3_go_client.Base.Int.{pos, negsuc, ℤ}
use ignite3_go_client.Base.Result.{ok, err, errorf}
use ignite3_go_client.ColumnTypes.{type_int}
use ignite3_go_client.ColumnTypes.Lookup.{type_of_id}
use ignite3_go_client.Integers.Kinds.{bt_int32}
use ignite3_go_client.Tables.{column_kind_for_type_id}
use ignite3_go_client.Tables.Schemas.{Strings, normalize_table_name, find_table, read_schema_list}
use ignite3_go_client.Tables.Schemas.Names.{Lists, IsWanted, find_table-IsWanted}
use ignite3_go_client.Tables.Schemas.RoundTrip as Schema
use ignite3_go_client.Tables.Schemas.RoundTrip.{Written}
use ignite3_go_client.Driver.DataSources.{
  UrlLib, Settings, defaults, read_params, read_param, setting_of, parse_yes_no, assign,
}
use ignite3_go_client.Driver.DataSources.Order.{NamesDiffer, read_params-order}
use ignite3_go_client.Tests.Tokens.{tokens, writer, tokens-IsLawful}

-- A name with a schema and TLS.
abbrev pub url_lib : UrlLib
url_lib = record {
  parse = λ s. err (errorf "unused");
  atoi = λ s. (pos 0, none);
  parse_int = λ s. (pos 0, none);
  new_version = λ s. err (errorf "unused");
  to_lower = λ s. s;
  trim_space = λ s. s;
  trim_slashes = λ s. s;
}

abbrev schema_param : String × List String
schema_param = ("schema", "S" ∷ [])

abbrev tls_param : String × List String
tls_param = ("tls", "yes" ∷ [])

abbrev with_both : Settings
with_both = record defaults { schema = "S"; tls = true }

params_read : read_params url_lib (schema_param ∷ tls_param ∷ []) defaults ≡ ok with_both
unfolding read_params read_param setting_of parse_yes_no assign
params_read = refl

false-ne-true : false ≢ true
false-ne-true e = cc

schema-ne-tls : ◌≢◌ {A = String} "schema" "tls"
schema-ne-tls e = false-ne-true (((eq_iff "schema" "tls").1 e))

names_differ : Pairs (NamesDiffer url_lib) (schema_param ∷ tls_param ∷ [])
names_differ = (
  (λ b i. elim i [
    | inl e ↦ λ same. schema-ne-tls (same ∙ ap (λ (x : String × List String). x.0) e)
    | inr j ↦ absurd j
  ]),
  ((λ b i. absurd i), tt),
)

-- Keys of one name in upper and lower case are read, and the last decides.
abbrev lowering : UrlLib
lowering = record url_lib { to_lower = λ s. if str_eq s "Schema" then "schema" else s }

both_orders :
    (read_params lowering (("schema", "A" ∷ []) ∷ ("Schema", "B" ∷ []) ∷ []) defaults
      ≡ ok (record defaults { schema = "B" }))
    × (read_params lowering (("Schema", "B" ∷ []) ∷ ("schema", "A" ∷ []) ∷ []) defaults
        ≡ ok (record defaults { schema = "A" }))
unfolding read_params read_param setting_of assign
both_orders = (refl, refl)

read_params-order_example :
    read_params url_lib (tls_param ∷ schema_param ∷ []) defaults ≡ ok with_both
read_params-order_example =
    read_params-order url_lib defaults with_both (Permᴰ.swap refl refl) names_differ params_read

-- A key column with a property that the client does not know.
abbrev key_written : Written
key_written = record {
  column = record {
    name = "ID";
    type_id = type_int;
    kind = bt_int32;
    key_index = pos 0;
    key = true;
    nullable = false;
    scale = pos 0;
    precision = pos 0;
  };
  colocation = negsuc 0;
  extras = "new" ∷ [];
}

key_written-IsWritable : Schema.IsWritable key_written
unfolding type_of_id column_kind_for_type_id
key_written-IsWritable = record {
  typed = refl;
  kind_of = refl;
  key_of = refl;
  type_fits = omega arith;
  key_fits = omega arith;
  colocation_fits = omega arith;
  scale_fits = omega arith;
  precision_fits = omega arith;
  count_fits = omega arith;
}

read_schema_list-put_schemas_example :
    read_schema_list tokens
      (writer.put_int (pos 1) (Schema.put_schemas writer ((pos 3, key_written ∷ []) ∷ []) []))
    ≡ ok (Schema.last_schema none ((pos 3, key_written ∷ []) ∷ []))
read_schema_list-put_schemas_example =
    Schema.read_schema_list-put_schemas tokens writer tokens-IsLawful (pos 3) (key_written ∷ []) []
      [] (omega arith) ((omega arith, omega arith, (key_written-IsWritable, tt)), tt)

-- Names without quotes and dots; every name is qualified by every other.
abbrev strings : Strings
strings = record {
  remove = λ c s. s;
  split = λ s. s ∷ [];
  join = λ parts. elim parts [ [] ↦ "" | ◌∷◌ part rest ↦ part ];
  to_lower = λ s. s;
  trim_space = λ s. s;
  has_suffix = λ s end. true;
  concat = λ s end. end;
}

abbrev known_tables : List (ℤ × String)
known_tables = (pos 1, "other") ∷ (pos 2, "t") ∷ []

t-IsWanted : IsWanted strings "t" (pos 2, "t")
unfolding normalize_table_name
t-IsWanted = refl

find_table-IsWanted_example :
    (found : ℤ × String) × (find_table strings "t" none known_tables ≡ ok found)
    × Lists found known_tables
    × IsWanted strings "t" found
find_table-IsWanted_example =
    find_table-IsWanted strings "t" (pos 2, "t") none known_tables (inr (inl refl)) t-IsWanted
