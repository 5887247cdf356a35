-- ===== src/Msgpack/Laws.antt =====
-- What the client relies on of a msgpack encoder and decoder, as laws of a parameter.
use ignite3_go_client.Base.{
  ℕ, ◌<◌, ◌^◌, Bytes, Bool, true, false, String, ◌==◌, ==_iff, ◌≡◌, refl, length,
}
use ignite3_go_client.Base.Int.{ℤ, pos, Fits}
use ignite3_go_client.Base.Result.{ok}
use ignite3_go_client.Msgpack.{
  Decoder, is_int_code, try_read_packed_nil, try_read_packed_int_with_default,
}

-- A message with one more value in front.
pub record Encoder (M : Type 0) : Type 0 where
  pub put_nil : M → M
  pub put_int : ℤ → M → M
  pub put_bool : Bool → M → M
  pub put_string : String → M → M
  pub put_bytes : Bytes → M → M
  pub put_ext : Bytes → M → M

module _ {M : Type 0} (d : Decoder M) where
  -- The code of the first value is neither that of nil nor one that
  -- TryReadPackedIntWithDefault takes for an integer.
  pub record IsText (m : M) : Type 0 where
    pub code : ℕ
    pub peeked : d.peek_code m ≡ ok code
    pub not_nil : (code == d.code_nil) ≡ false
    pub not_fixed : d.is_fixed_num code ≡ false
    pub not_int : is_int_code d code ≡ false

  -- Values are read back; nil has its own code; the code of an integer below 128 is the integer.
  pub record IsLawful (e : Encoder M) : Type 0 where
    pub int_back : (z : ℤ) (m : M) → Fits (2 ^ 63) z → d.decode_int64 (e.put_int z m) ≡ ok (z, m)
    pub int32_back : (z : ℤ) (m : M) → Fits (2 ^ 31) z → d.decode_int32 (e.put_int z m) ≡ ok (z, m)
    pub bool_back : (b : Bool) (m : M) → d.decode_bool (e.put_bool b m) ≡ ok (b, m)
    pub string_back : (s : String) (m : M) → d.decode_string (e.put_string s m) ≡ ok (s, m)
    pub bytes_back : (b : Bytes) (m : M) → d.decode_bytes (e.put_bytes b m) ≡ ok (b, m)
    pub ext_back :
        (b : Bytes) (m : M)
        → length b ≡ 16
        → (buf : Bytes) × (d.read_full 18 (e.put_ext b m) ≡ ok (buf, m))
          × (d.ext_payload buf ≡ ok b)
    pub nil_peeked : (m : M) → d.peek_code (e.put_nil m) ≡ ok d.code_nil
    pub nil_skipped : (m : M) → (d.skip (e.put_nil m)).1 ≡ m
    pub string_skipped : (s : String) (m : M) → d.skip (e.put_string s m) ≡ (ok tt, m)
    pub string_IsText : (s : String) (m : M) → IsText (e.put_string s m)
    pub small_peeked : (n : ℕ) (m : M) → n < 128 → d.peek_code (e.put_int (pos n) m) ≡ ok n
    pub small_fixed : (n : ℕ) → n < 128 → d.is_fixed_num n ≡ true
    pub small_skipped : (n : ℕ) (m : M) → n < 128 → (d.skip (e.put_int (pos n) m)).1 ≡ m

module _ {M : Type 0} (d : Decoder M) (e : Encoder M) (l : IsLawful d e) where
  same_code : (d.code_nil == d.code_nil) ≡ true
  same_code = (==_iff d.code_nil d.code_nil).1 refl

  pub try_read_packed_nil-nil : (m : M) → try_read_packed_nil d (e.put_nil m) ≡ ok (true, m)
  unfolding try_read_packed_nil
  try_read_packed_nil-nil m = rw (l.nil_peeked m, l.nil_skipped m, same_code) refl

  pub try_read_packed_nil-string :
      (s : String) (m : M) → try_read_packed_nil d (e.put_string s m) ≡ ok (false, e.put_string s m)
  unfolding try_read_packed_nil
  try_read_packed_nil-string s m = let t = l.string_IsText s m in rw (t.peeked, t.not_nil) refl

  pub try_read_packed_int-small :
      (n : ℕ) (m : M) (z : ℤ)
      → n < 128
      → try_read_packed_int_with_default d (e.put_int (pos n) m) z ≡ ok (pos n, m)
  unfolding try_read_packed_int_with_default
  try_read_packed_int-small n m z h =
      rw (l.small_peeked n m h, l.small_fixed n h, l.small_skipped n m h) refl

  pub try_read_packed_int-string :
      (s : String) (m : M) (z : ℤ)
      → try_read_packed_int_with_default d (e.put_string s m) z ≡ ok (z, e.put_string s m)
  unfolding try_read_packed_int_with_default
  try_read_packed_int-string s m z =
      let t = l.string_IsText s m in rw (t.peeked, t.not_fixed, t.not_int) refl
