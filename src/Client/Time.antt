-- ===== src/Client/Time.antt =====
-- `getCurrentTime`.
use cluster_chat_server.Prelude.{
  ℕ, ◌+◌, ◌≤◌, ◌<◌, ◌++◌, ◌∷◌, pos, arith, length, length-append, ltb, if◌then◌else◌,
}
use cluster_chat_server.Prelude.Text.{Bytes, show}
use cluster_chat_server.Prelude.Digits.{length-show, length-show_two}

-- What `localtime` gives; the year counts from 1900 and the month from 0. The sums do not leave `int`
-- for the times of a clock.
pub record Tm : Type 0 where
  pub tm_year : ℕ
  pub tm_mon : ℕ
  pub tm_mday : ℕ
  pub tm_hour : ℕ
  pub tm_min : ℕ
  pub tm_sec : ℕ

-- `%02d`
unfoldable pub padded : ℕ → Bytes
padded n = if ltb (length (show (pos n))) 2 then b'0' ∷ show (pos n) else show (pos n)

unfoldable pub current_time : Tm → Bytes
unfolding padded
current_time t =
    show (pos (t.tm_year + 1900))
    ++ b'-'
      ∷ (padded (t.tm_mon + 1)
          ++ b'-'
            ∷ (padded t.tm_mday
                ++ b' ' ∷ (padded t.tm_hour ++ b':' ∷ (padded t.tm_min ++ b':' ∷ padded t.tm_sec))))

length-padded : (n : ℕ) → n < 100 → length (padded n) ≤ 2
unfolding padded
length-padded n h = ground (arith, length-show_two n h)

-- For a time whose month, day, hour, minute and second are below 99, the text and its NUL fit into
-- `date[60]`.
pub current_time-fits :
    (t : Tm)
    → t.tm_mon < 99
    → t.tm_mday < 99
    → t.tm_hour < 99
    → t.tm_min < 99
    → t.tm_sec < 99
    → length (current_time t) + 1 ≤ 60
unfolding current_time
current_time-fits t a b c d e =
    let s6 = padded t.tm_sec in
    let s5 = padded t.tm_min ++ b':' ∷ s6 in
    let s4 = padded t.tm_hour ++ b':' ∷ s5 in
    let s3 = padded t.tm_mday ++ b' ' ∷ s4 in
    let s2 = padded (t.tm_mon + 1) ++ b'-' ∷ s3 in
    omega (
      arith,
      length-show (pos (t.tm_year + 1900)),
      length-append (show (pos (t.tm_year + 1900))) (b'-' ∷ s2),
      length-append (padded (t.tm_mon + 1)) (b'-' ∷ s3),
      length-append (padded t.tm_mday) (b' ' ∷ s4),
      length-append (padded t.tm_hour) (b':' ∷ s5),
      length-append (padded t.tm_min) (b':' ∷ s6),
      length-padded (t.tm_mon + 1) (omega (arith, a)),
      length-padded t.tm_mday (omega (arith, b)),
      length-padded t.tm_hour (omega (arith, c)),
      length-padded t.tm_min (omega (arith, d)),
      length-padded t.tm_sec (omega (arith, e)),
    )
