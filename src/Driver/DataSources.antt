-- ===== src/Driver/DataSources.antt =====
-- Data source names: parseURL and parseYesNo of sql/driver.go. net/url, strconv, semver and strings are
-- the parameter `lib`.
pub mod Order
use text.Mathlib.Text.{◌==◌ as str_eq}
use ignite3_go_client.Base.{
  ℕ, List, [], ◌∷◌, ◌++◌, Bool, true, false, Option, none, some, String, if◌then◌else◌, ◌≡◌, ◌≢◌,
  refl, sym, ap, ◌∙◌,
}
use ignite3_go_client.Base.Int.{ℤ, pos}
use ignite3_go_client.Base.Result.{
  Result, ok, err, panic, Error, errorf, or_wrap, ok_inj, ◌>>=◌, >>=-eq-ok,
}
use ignite3_go_client.ColumnTypes.Lookup.{same_int}

-- A url.URL by the methods that are used; the query is a map from names to lists of values, in the order
-- in which `range` visits it.
pub record Url : Type 0 where
  pub scheme : String
  pub hostname : String
  pub port : String
  pub path : String
  pub query : List (String × List String)

pub record UrlLib : Type 0 where
  pub parse : String → Result Url
  pub atoi : String → ℤ × Option Error
  pub parse_int : String → ℤ × Option Error
  pub new_version : String → Result (ℤ × ℤ × ℤ)
  pub to_lower : String → String
  pub trim_space : String → String
  pub trim_slashes : String → String

-- What the parameters of a name set.
pub record Settings : Type 0 where
  pub schema : String
  pub version : ℤ × ℤ × ℤ
  pub username : String
  pub password : String
  pub tls : Bool
  pub tls_insecure_skip_verify : Bool
  pub page_size : ℤ
  pub timeout : ℤ

abbrev pub defaults : Settings
defaults = record {
  schema = "";
  version = (pos 3, pos 0, pos 0);
  username = "";
  password = "";
  tls = false;
  tls_insecure_skip_verify = false;
  page_size = pos 10000;
  timeout = pos 0;
}

-- An assignment of the switch, with its value.
pub data Setting : Type 0 where
  unchanged : Setting
  schema_is username_is password_is : String → Setting
  version_is : ℤ × ℤ × ℤ → Setting
  tls_is skip_verify_is : Bool → Setting
  page_size_is timeout_is : ℤ → Setting

unfoldable pub assign : Setting → Settings → Settings
assign unchanged s = s
assign (schema_is v) s = record s { schema = v }
assign (username_is v) s = record s { username = v }
assign (password_is v) s = record s { password = v }
assign (version_is v) s = record s { version = v }
assign (tls_is v) s = record s { tls = v }
assign (skip_verify_is v) s = record s { tls_insecure_skip_verify = v }
assign (page_size_is v) s = record s { page_size = v }
assign (timeout_is v) s = record s { timeout = v }

abbrev pub number : ℤ × Option Error → Result ℤ
number (z, none) = ok z
number (z, some e) = err e

module _ (lib : UrlLib) where
  open lib use {parse, atoi, parse_int, new_version, to_lower, trim_space, trim_slashes}

  abbrev pub value_of : List String → String
  value_of [] = ""
  value_of (v ∷ vs) = trim_space v

  unfoldable pub parse_yes_no : String → Result Bool
  parse_yes_no s =
      if str_eq (to_lower (trim_space s)) "yes"
      then ok true
      else if str_eq (to_lower (trim_space s)) "no"
      then ok false
      else err (errorf "invalid boolean value (expected \"yes\" or \"no\"): %s")

  abbrev pub unexpected : Result Setting → Result Setting
  unexpected = or_wrap "unexpected parameter \"%s\" with value \"%s\""

  -- An empty value leaves the default.
  abbrev pub unless_empty : String → Result Setting → Result Setting
  unless_empty val set = if str_eq val "" then ok unchanged else set

  -- `switch strings.ToLower(k)`, on a name in lower case
  unfoldable pub setting_of : String → String → Result Setting
  setting_of k val =
      let version = unexpected (do v ← new_version val; ok (version_is v)) in
      let tls = unexpected (do b ← parse_yes_no val; ok (tls_is b)) in
      let skip = unexpected (do b ← parse_yes_no val; ok (skip_verify_is b)) in
      let size = unexpected (do n ← number (atoi val); ok (page_size_is n)) in
      let timeout = unexpected (do n ← number (parse_int val); ok (timeout_is n)) in
      if str_eq k "schema"
      then ok (schema_is val)
      else if str_eq k "version"
      then unless_empty val version
      else if str_eq k "username"
      then ok (username_is val)
      else if str_eq k "password"
      then ok (password_is val)
      else if str_eq k "tls"
      then tls
      else if str_eq k "tls-insecure-skip-verify"
      then skip
      else if str_eq k "page-size"
      then unless_empty val size
      else if str_eq k "timeout"
      then unless_empty val timeout
      else err (errorf "unknown connection parameter \"%s\" with value \"%v\"")

  -- One round of the loop
  unfoldable pub read_param : String × List String → Result Setting
  read_param (k, v) = setting_of (to_lower k) (value_of v)

  unfoldable pub read_params : List (String × List String) → Settings → Result Settings
  read_params [] s = ok s
  read_params (kv ∷ kvs) s = do x ← read_param kv; read_params kvs (assign x s)

pub record DataSource : Type 0 where
  pub network : String
  pub host : String
  pub port : ℤ
  pub cache : String
  pub url : String
  pub schema : String
  pub settings : Settings
  pub tls_config : Option Bool

abbrev pub or_default : String → String → String
or_default s d = if str_eq s "" then d else s

-- parseURL
unfoldable pub parse_url : UrlLib → String → Result DataSource
parse_url lib name = do
  u ← or_wrap "failed to parse connection name" (lib.parse name)
  s ← read_params lib u.query defaults
  let port = (lib.atoi u.port).0
  ok (record {
    network = or_default u.scheme "tcp";
    host = or_default u.hostname "127.0.0.1";
    port = if same_int port (pos 0) then pos 10800 else port;
    cache = lib.trim_slashes u.path;
    url = name;
    schema = or_default s.schema "PUBLIC";
    settings = s;
    tls_config = if s.tls then some s.tls_insecure_skip_verify else none;
  })
