-- ===== src/TimeStamp/Print.antt =====
-- The text of base/time_stamp/time_stamp.cc.
use moony.Prelude.{
  ℕ, ◌+◌, ◌-◌, ◌≤◌, ◌<◌, ◌≡◌, ap, ◌∷◌, ◌++◌, arith, length, length-append, replicate,
  length-replicate,
}
use moony.Prelude.Int.{ℤ}
use moony.Prelude.Text.{
  Text, decimal, decimal_02, snprintf_fits, length-decimal_port, length-decimal_100,
  length-decimal_10,
}
use moony.TimeStamp.{Tm, IsTime, TimeStamp, to_string, time_text, two_digits, decimal_4}

length-decimal_02 : (n : ℕ) → n < 100 → length (decimal_02 n) ≤ 2
unfolding decimal_02
length-decimal_02 n h = ground (arith, length-decimal_100 n h, length-decimal_10 n)

length-decimal_4 : (n : ℕ) → n < 65536 → length (decimal_4 n) ≤ 5
unfolding decimal_4
length-decimal_4 n h = omega (
  arith,
  length-append (replicate (4 - length (decimal n)) b' ') (decimal n),
  length-decimal_port n h,
  length-replicate {A = ℕ} (4 - length (decimal n)) b' ',
)

length-two_digits :
    (n c : ℕ) (rest : Text) → n < 100 → length (two_digits n c rest) ≤ 3 + length rest
unfolding two_digits
length-two_digits n c rest h =
    omega (arith, length-append (decimal_02 n) (c ∷ rest), length-decimal_02 n h)

length-time_text : (t : Tm) → IsTime t → length (time_text t) ≤ 20
unfolding time_text
length-time_text t h =
    let second = decimal_02 t.tm_sec in
    let minute = two_digits t.tm_min b':' second in
    let hour = two_digits (t.tm_hour + 8) b':' minute in
    let day = two_digits t.tm_mday b' ' hour in
    let month = two_digits (t.tm_mon + 1) b'/' day in
    omega (
      arith,
      h.year,
      h.month,
      h.day,
      h.hour,
      h.minute,
      h.second,
      length-append (decimal_4 (t.tm_year + 1900)) (b'/' ∷ month),
      length-decimal_4 (t.tm_year + 1900) (omega (arith, h.year)),
      length-two_digits (t.tm_mon + 1) b'/' day (omega (arith, h.month)),
      length-two_digits t.tm_mday b' ' hour (omega (arith, h.day)),
      length-two_digits (t.tm_hour + 8) b':' minute (omega (arith, h.hour)),
      length-two_digits t.tm_min b':' second (omega (arith, h.minute)),
      length-decimal_02 t.tm_sec (omega (arith, h.second)),
    )

-- For a time of `localtime` with a year of four digits, `to_string` truncates nothing: its text is the
-- year, a slash, the month from 1, a slash, the day, a blank, the hour plus 8, a colon, the minute, a
-- colon and the second, each but the year of two digits at least. It has 20
-- characters at most.
pub to_string_lem :
    (localtime : ℤ → Tm) (s : TimeStamp)
    → IsTime (localtime s.micro_seconds_since_epoch)
    → (let t = localtime s.micro_seconds_since_epoch in
        to_string localtime s
        ≡ decimal_4 (t.tm_year + 1900)
          ++ (b'/'
              ∷ (decimal_02 (t.tm_mon + 1)
                  ++ (b'/'
                      ∷ (decimal_02 t.tm_mday
                          ++ (b' '
                              ∷ (decimal_02 (t.tm_hour + 8)
                                  ++ (b':'
                                      ∷ (decimal_02 t.tm_min
                                          ++ (b':' ∷ decimal_02 t.tm_sec))))))))))
      × (length (to_string localtime s) ≤ 20)
unfolding to_string time_text two_digits
to_string_lem localtime s h =
    let t = localtime s.micro_seconds_since_epoch in
    let whole = snprintf_fits 32 (time_text t) (omega (arith, length-time_text t h)) in
    (whole, omega (arith, ap (length {A = ℕ}) whole, length-time_text t h))
