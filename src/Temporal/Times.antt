-- ===== src/Temporal/Times.antt =====
-- TIME elements: the fields of a time word, and the unit of its fraction.
use ignite3_go_client.Base.{
  ℕ, ◌+◌, ◌-◌, ◌*◌, ◌/◌, ◌%◌, ◌^◌, ◌<◌, bit_or, Bytes, ◌≡◌, ◌≢◌, refl, ap, sym, ◌∙◌, arith, length,
  le→leb, le→ltb_false,
}
use ignite3_go_client.Base.Int.{pos}
use ignite3_go_client.Base.Result.{ok, ◌>>=◌}
use ignite3_go_client.Base.Bits.{bit_or-shifted, bit_and_mask}
use ignite3_go_client.Wire.{le_bytes, from_le}
use ignite3_go_client.Wire.Laws.{length-le_bytes, from_le-le_bytes}
use ignite3_go_client.Temporal.{time_word, encode_time, last_bytes, time_fields, decode_time}
use ignite3_go_client.Temporal.Calendar.{clock, zero_plus, zero_plus_fields, zero_plus-injective}

-- A time of the day in fields, the fraction counted in units of `unit` nanoseconds.
pub record IsTimeOfDay (unit h mi s frac : ℕ) : Type 0 where
  pub hours : h < 24
  pub minutes : mi < 60
  pub seconds : s < 60
  pub fraction : frac * unit < 1_000_000_000

abbrev pub packed : ℕ → ℕ → ℕ → ℕ → ℕ → ℕ
packed bits h mi s frac = frac + s * 2 ^ bits + mi * 2 ^ (bits + 6) + h * 2 ^ (bits + 12)

time_word-packed :
    (h mi s ns : ℕ)
    → h < 24
    → mi < 60
    → s < 60
    → ns < 1_000_000_000
    → time_word (pos h) (pos mi) (pos s) (pos ns) ≡ packed 30 h mi s ns
unfolding time_word
time_word-packed h mi s ns hh hm hs hn =
    fields (omega arith) (bit_and_mask 6 (s % 2 ^ 64) ∙ omega arith)
      (bit_and_mask 6 (mi % 2 ^ 64) ∙ omega arith) (bit_and_mask 5 (h % 2 ^ 64) ∙ omega arith)
  where
    fields :
        {a b c d : ℕ}
        → a ≡ ns
        → b ≡ s
        → c ≡ mi
        → d ≡ h
        → bit_or (bit_or (bit_or a (b * 2 ^ 30)) (c * 2 ^ 36)) (d * 2 ^ 42) ≡ packed 30 h mi s ns
    fields p q r t = rw (
      p,
      q,
      r,
      t,
      bit_or-shifted 30 ns s (omega arith),
      bit_or-shifted 36 (ns + s * 2 ^ 30) mi (omega arith),
      bit_or-shifted 42 (ns + s * 2 ^ 30 + mi * 2 ^ 36) h (omega arith),
    )

sum_of :
    {a b c d x y z w : ℕ} (u : ℕ)
    → a ≡ x
    → b ≡ y
    → c ≡ z
    → d ≡ w
    → zero_plus (a * u + b * 1_000_000_000 + c * 60_000_000_000 + d * 3_600_000_000_000)
      ≡ zero_plus (x * u + y * 1_000_000_000 + z * 60_000_000_000 + w * 3_600_000_000_000)
sum_of u p q r s = cc

fields30 :
    (h mi s frac unit : ℕ)
    → h < 24
    → mi < 60
    → s < 60
    → frac < 2 ^ 30
    → time_fields 30 unit (packed 30 h mi s frac)
      ≡ zero_plus (frac * unit + s * 1_000_000_000 + mi * 60_000_000_000 + h * 3_600_000_000_000)
unfolding time_fields
fields30 h mi s frac unit hh hm hs hf =
    let w = packed 30 h mi s frac in
    sum_of unit (bit_and_mask 30 w ∙ omega arith) (bit_and_mask 6 (w / 2 ^ 30) ∙ omega arith)
      (bit_and_mask 6 (w / 2 ^ 36) ∙ omega arith) (bit_and_mask 5 (w / 2 ^ 42) ∙ omega arith)

fields20 :
    (h mi s frac unit : ℕ)
    → h < 24
    → mi < 60
    → s < 60
    → frac < 2 ^ 20
    → time_fields 20 unit (packed 20 h mi s frac)
      ≡ zero_plus (frac * unit + s * 1_000_000_000 + mi * 60_000_000_000 + h * 3_600_000_000_000)
unfolding time_fields
fields20 h mi s frac unit hh hm hs hf =
    let w = packed 20 h mi s frac in
    sum_of unit (bit_and_mask 20 w ∙ omega arith) (bit_and_mask 6 (w / 2 ^ 20) ∙ omega arith)
      (bit_and_mask 6 (w / 2 ^ 26) ∙ omega arith) (bit_and_mask 5 (w / 2 ^ 32) ∙ omega arith)

fields10 :
    (h mi s frac unit : ℕ)
    → h < 24
    → mi < 60
    → s < 60
    → frac < 2 ^ 10
    → time_fields 10 unit (packed 10 h mi s frac)
      ≡ zero_plus (frac * unit + s * 1_000_000_000 + mi * 60_000_000_000 + h * 3_600_000_000_000)
unfolding time_fields
fields10 h mi s frac unit hh hm hs hf =
    let w = packed 10 h mi s frac in
    sum_of unit (bit_and_mask 10 w ∙ omega arith) (bit_and_mask 6 (w / 2 ^ 10) ∙ omega arith)
      (bit_and_mask 6 (w / 2 ^ 16) ∙ omega arith) (bit_and_mask 5 (w / 2 ^ 22) ∙ omega arith)

last_all : (k v : ℕ) → last_bytes k (le_bytes k v) ≡ ok (le_bytes k v)
unfolding last_bytes
last_all k v =
    let e : length (le_bytes k v) ≡ k = length-le_bytes k v in
    let z : k - k ≡ 0 = omega arith in rw (e, le→ltb_false k k (omega arith), z) refl

-- The decoder reads a word of milliseconds (4 bytes, precision 0 or 6) or of microseconds (5 bytes,
-- precision 9) as the time of the day that was packed into it.
pub decode_time-packed :
    (h mi s ms us : ℕ)
    → IsTimeOfDay 1_000_000 h mi s ms
    → IsTimeOfDay 1_000 h mi s us
    → (decode_time (le_bytes 4 (packed 10 h mi s ms)) (pos 0) ≡ ok (clock h mi s (ms * 1_000_000)))
      × (decode_time (le_bytes 4 (packed 10 h mi s ms)) (pos 6)
          ≡ ok (clock h mi s (ms * 1_000_000)))
      × (decode_time (le_bytes 5 (packed 20 h mi s us)) (pos 9) ≡ ok (clock h mi s (us * 1_000)))
unfolding decode_time
decode_time-packed h mi s ms us tm tu = (milli, milli, micro)
  where
    milli :
        (do
          b ← last_bytes 4 (le_bytes 4 (packed 10 h mi s ms))
          ok (time_fields 10 1_000_000 (from_le b)))
        ≡ ok (clock h mi s (ms * 1_000_000))
    milli =
        rw (last_all, from_le-le_bytes 4 (packed 10 h mi s ms) (omega arith))
          (ap ok (
            fields10 h mi s ms 1_000_000 tm.hours tm.minutes tm.seconds (omega arith)
            ∙ zero_plus_fields h mi s (ms * 1_000_000) tm.hours tm.minutes tm.seconds tm.fraction))

    micro :
        (do
          b ← last_bytes 5 (le_bytes 5 (packed 20 h mi s us))
          ok (time_fields 20 1_000 (from_le b)))
        ≡ ok (clock h mi s (us * 1_000))
    micro =
        rw (last_all, from_le-le_bytes 5 (packed 20 h mi s us) (omega arith))
          (ap ok (
            fields20 h mi s us 1_000 tu.hours tu.minutes tu.seconds (omega arith)
            ∙ zero_plus_fields h mi s (us * 1_000) tu.hours tu.minutes tu.seconds tu.fraction))

-- A time of the day is encoded in six bytes, and read back at precision 12 with its nanoseconds
-- counted as microseconds: the fraction comes back a thousand times as large, added to the time.
pub decode-encode_time :
    (h mi s ns : ℕ)
    → IsTimeOfDay 1 h mi s ns
    → (b : Bytes) × (encode_time (pos h) (pos mi) (pos s) (pos ns) ≡ ok b)
      × (length b ≡ 6)
      × (decode_time b (pos 12)
          ≡ ok (
              zero_plus
                (ns * 1_000 + s * 1_000_000_000 + mi * 60_000_000_000 + h * 3_600_000_000_000)))
decode-encode_time h mi s ns t = (
  le_bytes 6 (packed 30 h mi s ns),
  written,
  length-le_bytes 6 _,
  unfold decode_time in
      rw (last_all, from_le-le_bytes 6 (packed 30 h mi s ns) (omega arith))
        (ap ok (fields30 h mi s ns 1_000 t.hours t.minutes t.seconds (omega arith))),
)
  where
    written : encode_time (pos h) (pos mi) (pos s) (pos ns) ≡ ok (le_bytes 6 (packed 30 h mi s ns))
    written =
        unfold encode_time in
        rw
          (
            le→leb 0 h (omega arith),
            le→leb 0 mi (omega arith),
            le→leb 0 s (omega arith),
            le→leb 0 ns (omega arith),
            le→leb h 23 (omega arith),
            le→leb mi 59 (omega arith),
            le→leb s 59 (omega arith),
            le→leb ns 999_999_999 (omega arith),
          )
          (ap (λ w. ok (le_bytes 6 w))
            (time_word-packed h mi s ns t.hours t.minutes t.seconds (omega arith)))

-- A time of the day whose nanoseconds are not zero is encoded, but what the decoder makes of it at
-- precision 12 is another time.
pub decode-encode_time_defect :
    (h mi s ns : ℕ)
    → IsTimeOfDay 1 h mi s ns
    → 0 < ns
    → (b : Bytes) × (encode_time (pos h) (pos mi) (pos s) (pos ns) ≡ ok b)
      × (decode_time b (pos 12) ≢ ok (clock h mi s ns))
decode-encode_time_defect h mi s ns t p =
    let (b, e, l, d) = decode-encode_time h mi s ns t in
    (
      b,
      e,
      λ x. absurd (
          differ (
            zero_plus-injective _ _ (
              cc (
                sym d ∙ x,
                zero_plus_fields h mi s ns t.hours t.minutes t.seconds (omega arith),
              )))),
    )
  where
    differ :
        ns * 1_000 + s * 1_000_000_000 + mi * 60_000_000_000 + h * 3_600_000_000_000
          ≡ ns + s * 1_000_000_000 + mi * 60_000_000_000 + h * 3_600_000_000_000
        → ⊥
    differ e = omega arith
