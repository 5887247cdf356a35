-- ===== src/Tests/Tokens.antt =====
-- A message as a list of values, for the runs in the other tests: it keeps the laws of the formats.
use ignite3_go_client.Base.{
  ℕ, ◌<◌, List, [], ◌∷◌, Bytes, Bool, true, ◌||◌, String, ltb, if◌then◌else◌, lt→ltb, ◌≡◌, refl,
}
use ignite3_go_client.Base.Int.{ℤ, pos, negsuc}
use ignite3_go_client.Base.Result.{Result, ok, err, errorf}
use ignite3_go_client.Msgpack.{Decoder, ErrorObject, no_error, trace_id, other_object}
use ignite3_go_client.Msgpack.Laws.{Encoder, IsLawful}

pub data Token : Type 0 where
  nil_token : Token
  int_token : ℤ → Token
  bool_token : Bool → Token
  text_token : String → Token
  bytes_token : Bytes → Token
  ext_token : Bytes → Token

abbrev pub Tokens : Type 0
Tokens = List Token

abbrev eof {ℓ} : {A : Type ℓ} → Result A
eof = err (errorf "EOF")

abbrev code_of : Token → ℕ
code_of nil_token = 0xc0
code_of (int_token (pos n)) = if ltb n 128 then n else 0xd3
code_of (int_token (negsuc n)) = 0xd3
code_of (bool_token b) = 0xc2
code_of (text_token s) = 0xd9
code_of (bytes_token b) = 0xc4
code_of (ext_token b) = 0xd8

abbrev peek : Tokens → Result ℕ
peek [] = eof
peek (t ∷ m) = ok (code_of t)

abbrev skip_one : Tokens → Result (Unit {0}) × Tokens
skip_one [] = (eof, [])
skip_one (t ∷ m) = (ok tt, m)

abbrev int_of : Tokens → Result (ℤ × Tokens)
int_of (int_token z ∷ m) = ok (z, m)
int_of _ = eof

abbrev nat_of : Tokens → Result (ℕ × Tokens)
nat_of (int_token (pos n) ∷ m) = ok (n, m)
nat_of _ = eof

abbrev bool_of : Tokens → Result (Bool × Tokens)
bool_of (bool_token b ∷ m) = ok (b, m)
bool_of _ = eof

abbrev text_of : Tokens → Result (String × Tokens)
text_of (text_token s ∷ m) = ok (s, m)
text_of _ = eof

abbrev bytes_of : Tokens → Result (Bytes × Tokens)
bytes_of (bytes_token b ∷ m) = ok (b, m)
bytes_of _ = eof

abbrev ext_of : Tokens → Result (Bytes × Tokens)
ext_of (ext_token b ∷ m) = ok (b, m)
ext_of _ = eof

abbrev object_of : Tokens → Result (ErrorObject × Tokens)
object_of (nil_token ∷ m) = ok (no_error, m)
object_of (ext_token b ∷ m) = ok (trace_id b, m)
object_of (_ ∷ m) = ok (other_object, m)
object_of [] = eof

abbrev pub tokens : Decoder Tokens
tokens = record {
  peek_code = peek;
  skip = skip_one;
  decode_int64 = int_of;
  decode_int32 = int_of;
  decode_int8 = int_of;
  decode_uint8 = nat_of;
  decode_bool = bool_of;
  decode_string = text_of;
  decode_bytes = bytes_of;
  decode_slice = λ m. ok ([], m);
  decode_interface = object_of;
  read_full = λ _ m. ext_of m;
  ext_payload = λ b. ok b;
  is_fixed_num = λ c. ltb c 128 || ltb 223 c;
  code_nil = 0xc0;
  code_int8 = 0xd0;
  code_int16 = 0xd1;
  code_int32 = 0xd2;
  code_int64 = 0xd3;
}

abbrev pub writer : Encoder Tokens
writer = record {
  put_nil = λ m. nil_token ∷ m;
  put_int = λ z m. int_token z ∷ m;
  put_bool = λ b m. bool_token b ∷ m;
  put_string = λ s m. text_token s ∷ m;
  put_bytes = λ b m. bytes_token b ∷ m;
  put_ext = λ b m. ext_token b ∷ m;
}

small_code : (n : ℕ) → n < 128 → ◌≡◌ {A = Result ℕ} (ok (if ltb n 128 then n else 0xd3)) (ok n)
small_code n h = rw (lt→ltb n 128 h) refl

small_fixed : (n : ℕ) → n < 128 → (ltb n 128 || ltb 223 n) ≡ true
small_fixed n h = rw (lt→ltb n 128 h) refl

pub tokens-IsLawful : IsLawful tokens writer
tokens-IsLawful = record {
  int_back = λ z m h. refl;
  int32_back = λ z m h. refl;
  bool_back = λ b m. refl;
  string_back = λ s m. refl;
  bytes_back = λ b m. refl;
  ext_back = λ b m h. (b, refl, refl);
  nil_peeked = λ m. refl;
  nil_skipped = λ m. refl;
  string_skipped = λ s m. refl;
  string_IsText = λ s m. record {
    code = 0xd9;
    peeked = refl;
    not_nil = refl;
    not_fixed = refl;
    not_int = refl;
  };
  small_peeked = λ n m h. small_code n h;
  small_fixed = λ n h. small_fixed n h;
  small_skipped = λ n m h. refl;
}
