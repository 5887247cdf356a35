-- ===== src/Temporal/Dates.antt =====
-- DATE elements: which dates the encoder takes, and what the decoder makes of them.
use ignite3_go_client.Base.{
  ℕ, suc, ◌+◌, ◌-◌, ◌*◌, ◌/◌, ◌%◌, ◌^◌, ◌≤◌, ◌<◌, bit_or, [], ◌∷◌, Bytes, true, ◌≡◌, refl, ap, ◌∙◌,
  arith, length, ◌↔◌, le→leb,
}
use ignite3_go_client.Base.Int.{ℤ, pos, negsuc, Fits, Fits-fits, fits-Fits}
use ignite3_go_client.Base.Result.{ok}
use ignite3_go_client.Base.Bits.{bit_or-shifted, bit_and_mask}
use ignite3_go_client.Wire.{le_bytes, from_le}
use ignite3_go_client.Wire.Laws.{length-le_bytes}
use ignite3_go_client.Temporal.{year15, date_word, encode_date, decode_date, between}
use ignite3_go_client.Temporal.Calendar.{midnight, date_utc, days_in_month, date_utc-valid}

-- The three fields of a date word do not overlap.
date_word-sum :
    (y m d : ℕ) (year : ℤ)
    → year15 year ≡ y
    → y < 2 ^ 15
    → m < 16
    → d < 32
    → date_word year (pos m) (pos d) ≡ d + m * 2 ^ 5 + y * 2 ^ 9
unfolding date_word
date_word-sum y m d year e hy hm hd =
    fields (bit_and_mask 5 (d % 2 ^ 32) ∙ omega arith) (bit_and_mask 4 (m % 2 ^ 32) ∙ omega arith)
      (bit_and_mask 15 (year15 year) ∙ omega arith)
  where
    fields :
        {a b c : ℕ}
        → a ≡ d
        → b ≡ m
        → c ≡ y
        → bit_or (bit_or a (b * 2 ^ 5)) (c * 2 ^ 9) ≡ d + m * 2 ^ 5 + y * 2 ^ 9
    fields p q r = rw (
      p,
      q,
      r,
      bit_or-shifted 5 d m (omega arith),
      bit_or-shifted 9 (d + m * 2 ^ 5) y (omega arith),
    )

year15-lt : (year : ℤ) → Fits (2 ^ 14) year → year15 year < 2 ^ 15
year15-lt (pos n) h = omega arith
year15-lt (negsuc n) h = omega arith

three_bytes :
    (x : ℕ)
    → x < 2 ^ 24
    → from_le ((x % 256) ∷ (x / 256 % 256) ∷ (x / 256 / 256 % 256) ∷ 0 ∷ []) ≡ x
unfolding from_le
three_bytes x h = omega arith

date_of : {a b c y m d : ℕ} → a ≡ y → b ≡ m → c ≡ d → date_utc a b c ≡ date_utc y m d
date_of p q r = cc

-- What the decoder makes of the three bytes of such a word.
decode-word :
    (y m d : ℕ)
    → y < 2 ^ 15
    → m < 16
    → d < 32
    → decode_date (le_bytes 3 (d + m * 2 ^ 5 + y * 2 ^ 9)) ≡ ok (date_utc y m d)
unfolding decode_date le_bytes
decode-word y m d hy hm hd =
    let x = d + m * 2 ^ 5 + y * 2 ^ 9 in
    rw (three_bytes x (omega arith)) (
      ap ok (
        date_of (bit_and_mask 15 (x / 2 ^ 9) ∙ omega arith)
          (bit_and_mask 4 (x / 2 ^ 5) ∙ omega arith) (bit_and_mask 5 x ∙ omega arith)))

days-le : (y : ℤ) (m : ℕ) → days_in_month y m ≤ 31
unfolding days_in_month
days-le y m = ground arith

encoded :
    (year : ℤ) (m d : ℕ)
    → Fits (2 ^ 14) year
    → 1 ≤ m
    → m ≤ 12
    → 1 ≤ d
    → d ≤ 31
    → encode_date year (pos m) (pos d) ≡ ok (le_bytes 3 (d + m * 2 ^ 5 + year15 year * 2 ^ 9))
unfolding encode_date
encoded year m d f m1 m12 d1 d31 =
    rw (le→leb 1 m m1, le→leb m 12 m12, le→leb 1 d d1, le→leb d 31 d31, fits-Fits _ year f)
      (ap (λ w. ok (le_bytes 3 w))
        (date_word-sum _ m d year refl (year15-lt year f) (omega arith) (omega arith)))

-- A date of the years 0 to 16383 that exists is encoded in three bytes and read back.
pub decode-encode_date :
    (y m d : ℕ)
    → y < 2 ^ 14
    → 1 ≤ m
    → m ≤ 12
    → 1 ≤ d
    → d ≤ days_in_month (pos y) m
    → (b : Bytes) × (encode_date (pos y) (pos m) (pos d) ≡ ok b)
      × (length b ≡ 3)
      × (decode_date b ≡ ok (midnight (pos y) m d))
decode-encode_date y m d hy m1 m12 d1 dm =
    let d31 : d ≤ 31 = omega (arith, days-le (pos y) m) in
    (
      le_bytes 3 (d + m * 2 ^ 5 + y * 2 ^ 9),
      encoded (pos y) m d hy m1 m12 d1 d31,
      length-le_bytes 3 _,
      decode-word y m d (omega arith) (omega arith) (omega arith)
          ∙ ap ok (date_utc-valid y m d m1 m12 d1 dm),
    )

-- A date of the year -(n + 1), for n below 2 ^ 14, is encoded, and read back 32768 years later, as
-- a date of the year 32767 - n, if that year has it.
pub decode-encode_date_negative :
    (n m d : ℕ)
    → n < 2 ^ 14
    → 1 ≤ m
    → m ≤ 12
    → 1 ≤ d
    → d ≤ days_in_month (pos (2 ^ 15 - suc n)) m
    → (b : Bytes) × (encode_date (negsuc n) (pos m) (pos d) ≡ ok b)
      × (decode_date b ≡ ok (midnight (pos (2 ^ 15 - suc n)) m d))
decode-encode_date_negative n m d hn m1 m12 d1 dm =
    let y : ℕ = 2 ^ 15 - suc n in
    let d31 : d ≤ 31 = omega (arith, days-le (pos y) m) in
    (
      le_bytes 3 (d + m * 2 ^ 5 + y * 2 ^ 9),
      encoded (negsuc n) m d hn m1 m12 d1 d31,
      decode-word y m d (omega arith) (omega arith) (omega arith)
          ∙ ap ok (date_utc-valid y m d m1 m12 d1 dm),
    )

-- `lo ≤ z ≤ hi`
abbrev pub Between : ℕ → ℕ → ℤ → Type 0
Between lo hi (pos n) = (lo ≤ n) × (n ≤ hi)
Between lo hi (negsuc n) = ⊥

Between-between : (lo hi : ℕ) (z : ℤ) → between lo hi z ≡ true → Between lo hi z
Between-between lo hi (pos n) h = ground arith
Between-between lo hi (negsuc n) h = cc

between-Between : (lo hi : ℕ) (z : ℤ) → Between lo hi z → between lo hi z ≡ true
between-Between lo hi (pos n) h = ground arith
between-Between lo hi (negsuc n) h = absurd h

-- The encoder takes a date exactly if its month is 1 to 12, its day 1 to 31 and its year a number of
-- 15 signed bits; it does not ask that the day exists.
pub encode_date_accepts :
    (year month day : ℤ)
    → ((b : Bytes) × (encode_date year month day ≡ ok b))
      ↔ (Between 1 12 month × Between 1 31 day × Fits (2 ^ 14) year)
unfolding encode_date
encode_date_accepts year month day = (λ r. taken r.0 r.1, λ h. given h.0 h.1 h.2)
  where
    taken :
        (b : Bytes)
        → encode_date year month day ≡ ok b
        → Between 1 12 month × Between 1 31 day × Fits (2 ^ 14) year
    taken b e =
        ground
          (arith, Between-between 1 12 month, Between-between 1 31 day, Fits-fits (2 ^ 14) year)

    given :
        Between 1 12 month
        → Between 1 31 day
        → Fits (2 ^ 14) year
        → (b : Bytes) × (encode_date year month day ≡ ok b)
    given m d y = (
      le_bytes 3 (date_word year month day),
      rw (between-Between 1 12 month m, between-Between 1 31 day d, fits-Fits _ year y) refl,
    )
