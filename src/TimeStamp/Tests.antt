-- ===== src/TimeStamp/Tests.antt =====
-- Runs of base/time_stamp/time_stamp.cc, and its theorem at a concrete input.
use moony.Prelude.{◌≤◌, ◌≡◌, refl, arith, length}
use moony.Prelude.Int.{negsuc}
use moony.Prelude.Text.{codes, decimal, decimal_02, snprintf}
use moony.TimeStamp.{Tm, now, to_int, to_string, time_text, two_digits, decimal_4}
use moony.TimeStamp.Print.{to_string_lem}

-- 7 March 2024, 20:05:09.
abbrev evening : Tm
evening = record { tm_year = 124; tm_mon = 2; tm_mday = 7; tm_hour = 20; tm_min = 5; tm_sec = 9 }

-- The hour runs past the day.
to_string_run : to_string (λ s. evening) (now 1709841909) ≡ codes "2024/03/07 28:05:09"
unfolding to_string time_text two_digits decimal_4 decimal_02 decimal snprintf
to_string_run = refl

-- The first second that an `int` cannot hold.
now_wraps : now 2147483648 ≡ record { micro_seconds_since_epoch = negsuc 2147483647 }
unfolding now to_int
now_wraps = refl

to_string_lem_example :
    (to_string (λ s. evening) (now 1709841909) ≡ time_text evening)
    × (length (to_string (λ s. evening) (now 1709841909)) ≤ 20)
unfolding time_text decimal_4
to_string_lem_example = to_string_lem (λ s. evening) (now 1709841909) (omega arith)
