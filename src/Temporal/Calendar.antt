-- ===== src/Temporal/Calendar.antt =====
-- What the client uses of Go's package time: time.Date in UTC and Time.Add on the zero time.
use ignite3_go_client.Base.{
  ◌≤◌, ◌<◌, ap, sym, ◌∙◌, ℕ, zero, suc, ◌+◌, ◌-◌, ◌*◌, ◌/◌, ◌%◌, Bool, ◌&&◌, ◌||◌, not, leb, ◌==◌,
  if◌then◌else◌, ◌≡◌, arith,
}
use ignite3_go_client.Base.Int.{ℤ, pos, negsuc}

-- A time.Time in UTC by its accessors.
pub record Civil : Type 0 where
  pub year : ℤ
  pub month : ℕ
  pub day : ℕ
  pub hour : ℕ
  pub minute : ℕ
  pub second : ℕ
  pub nanosecond : ℕ

abbrev pub midnight : ℤ → ℕ → ℕ → Civil
midnight y m d = record {
  year = y;
  month = m;
  day = d;
  hour = 0;
  minute = 0;
  second = 0;
  nanosecond = 0;
}

abbrev magnitude : ℤ → ℕ
magnitude (pos n) = n
magnitude (negsuc n) = suc n

pub is_leap : ℤ → Bool
is_leap y = let n = magnitude y in n % 4 == 0 && (not (n % 100 == 0) || n % 400 == 0)

unfoldable pub days_in_month : ℤ → ℕ → ℕ
unfolding is_leap
days_in_month y m =
    if m == 2
    then (if is_leap y then 29 else 28)
    else if m == 4 || m == 6 || m == 9 || m == 11
    then 30
    else 31

previous_year : ℤ → ℤ
previous_year (pos zero) = negsuc 0
previous_year (pos (suc n)) = pos n
previous_year (negsuc n) = negsuc (suc n)

next_year : ℤ → ℤ
next_year (pos n) = pos (suc n)
next_year (negsuc zero) = pos 0
next_year (negsuc (suc n)) = negsuc n

next_month : ℤ → ℕ → ℕ → Civil
next_month y m d = if m == 12 then midnight (next_year y) 1 d else midnight y (m + 1) d

last_of_previous : ℤ → ℕ → Civil
last_of_previous y m =
    if m == 1
    then midnight (previous_year y) 12 31
    else midnight y (m - 1) (days_in_month y (m - 1))

-- Days 0 to 31 of a month from 1 to 12; a day past the end runs into the next month.
normal_day : ℤ → ℕ → ℕ → Civil
normal_day y m d =
    if d == 0
    then last_of_previous y m
    else if leb d (days_in_month y m)
    then midnight y m d
    else next_month y m (d - days_in_month y m)

-- time.Date(year, month, day, 0, 0, 0, 0, time.UTC) for months 0 to 15 and days 0 to 31.
unfoldable pub date_utc : ℕ → ℕ → ℕ → Civil
unfolding normal_day next_month last_of_previous next_year previous_year days_in_month
date_utc y m d =
    if m == 0
    then normal_day (previous_year (pos y)) 12 d
    else if leb m 12
    then normal_day (pos y) m d
    else normal_day (pos (y + 1)) (m - 12) d

-- time.Time{}.Add of `d` nanoseconds, for less than 31 days.
unfoldable pub zero_plus : ℕ → Civil
zero_plus d = record {
  year = pos 1;
  month = 1;
  day = 1 + d / 86_400_000_000_000;
  hour = d / 3_600_000_000_000 % 24;
  minute = d / 60_000_000_000 % 60;
  second = d / 1_000_000_000 % 60;
  nanosecond = d % 1_000_000_000;
}

-- A date that exists is left as it is.
pub date_utc-valid :
    (y m d : ℕ)
    → 1 ≤ m
    → m ≤ 12
    → 1 ≤ d
    → d ≤ days_in_month (pos y) m
    → date_utc y m d ≡ midnight (pos y) m d
unfolding date_utc normal_day
date_utc-valid y m d m1 m12 d1 dm = ground arith

-- The zero date at a time of the day.
abbrev pub clock : ℕ → ℕ → ℕ → ℕ → Civil
clock h mi s ns = record {
  year = pos 1;
  month = 1;
  day = 1;
  hour = h;
  minute = mi;
  second = s;
  nanosecond = ns;
}

pub zero_plus_fields :
    (h mi s ns : ℕ)
    → h < 24
    → mi < 60
    → s < 60
    → ns < 1_000_000_000
    → zero_plus (ns + s * 1_000_000_000 + mi * 60_000_000_000 + h * 3_600_000_000_000)
      ≡ clock h mi s ns
unfolding zero_plus
zero_plus_fields h mi s ns hh hm hs hn = ground arith

-- Nanoseconds since the start of the first day of the month.
elapsed : Civil → ℕ
elapsed c =
    (c.day - 1) * 86_400_000_000_000
    + c.hour * 3_600_000_000_000
    + c.minute * 60_000_000_000
    + c.second * 1_000_000_000
    + c.nanosecond

elapsed-zero_plus : (d : ℕ) → elapsed (zero_plus d) ≡ d
unfolding elapsed zero_plus
elapsed-zero_plus d = omega arith

pub zero_plus-injective : (d e : ℕ) → zero_plus d ≡ zero_plus e → d ≡ e
zero_plus-injective d e p = sym (elapsed-zero_plus d) ∙ ap elapsed p ∙ elapsed-zero_plus e
