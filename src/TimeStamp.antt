-- ===== src/TimeStamp.antt =====
-- base/time_stamp/time_stamp.h and time_stamp.cc: a number of seconds since the epoch and its text.
-- `time` and `localtime` are system calls: the first is an argument, the second the parameter
-- `localtime`, with the ranges that its manual page documents.
pub mod Print
mod Tests
use moony.Prelude.{
  ℕ, ◌+◌, ◌-◌, ◌%◌, ◌^◌, ◌≤◌, if◌then◌else◌, ltb, List, [], ◌∷◌, ◌++◌, length, replicate,
}
use moony.Prelude.Int.{ℤ, pos, negsuc}
use moony.Prelude.Text.{Text, decimal, decimal_02, snprintf}

-- `struct tm`; `tm_year` counts from 1900.
pub record Tm : Type 0 where
  pub tm_year : ℕ
  pub tm_mon : ℕ
  pub tm_mday : ℕ
  pub tm_hour : ℕ
  pub tm_min : ℕ
  pub tm_sec : ℕ

-- The documented ranges, for years of four digits.
pub record IsTime (t : Tm) : Type 0 where
  pub year : t.tm_year ≤ 8099
  pub month : t.tm_mon ≤ 11
  pub day : t.tm_mday ≤ 31
  pub hour : t.tm_hour ≤ 23
  pub minute : t.tm_min ≤ 59
  pub second : t.tm_sec ≤ 60

-- `micro_seconds_since_epoch_`, which holds seconds.
pub record TimeStamp : Type 0 where
  pub micro_seconds_since_epoch : ℤ

-- `time_stamp()`
unfoldable pub create : TimeStamp
create = record { micro_seconds_since_epoch = pos 0 }

-- A `time_t` that is converted to `int`.
unfoldable pub to_int : ℕ → ℤ
to_int n = if ltb (n % 2 ^ 32) (2 ^ 31) then pos (n % 2 ^ 32) else negsuc (2 ^ 32 - 1 - n % 2 ^ 32)

-- `now`, with the result of `time(NULL)`.
unfoldable pub now : ℕ → TimeStamp
unfolding to_int
now seconds = record { micro_seconds_since_epoch = to_int seconds }

-- `%4d`
unfoldable pub decimal_4 : ℕ → Text
decimal_4 n = replicate (4 - length (decimal n)) b' ' ++ decimal n

-- `%02d`, the character behind it, and the rest.
unfoldable pub two_digits : ℕ → ℕ → Text → Text
two_digits n c rest = decimal_02 n ++ (c ∷ rest)

-- The text that `to_string` hands to `snprintf`.
unfoldable pub time_text : Tm → Text
unfolding two_digits
time_text t =
    decimal_4 (t.tm_year + 1900)
    ++ (b'/'
        ∷ two_digits (t.tm_mon + 1) b'/' (
            two_digits t.tm_mday b' '
              (two_digits (t.tm_hour + 8) b':' (two_digits t.tm_min b':' (decimal_02 t.tm_sec)))))

unfoldable pub to_string : (ℤ → Tm) → TimeStamp → Text
to_string localtime s = snprintf 32 (time_text (localtime s.micro_seconds_since_epoch))
