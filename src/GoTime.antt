-- ===== src/GoTime.antt =====
-- Go's package time as the source uses it: an instant is a number of nanoseconds since a fixed
-- start, before every instant of the program; a duration is an int64 number of nanoseconds.
use ephemos.Base.{ℕ, ◌+◌, ◌-◌, Bool, ltb, if◌then◌else◌}
use ephemos.Base.Int.{ℤ, pos, pos_part, neg_part, sub_ℕ, ltb_ℤ, max_int64, min_int64}

abbrev pub Time : Type 0
Time = ℕ

abbrev pub Duration : Type 0
Duration = ℤ

-- `t.Sub(u)`, which saturates.
unfoldable pub saturate : ℤ → Duration
saturate d = if ltb_ℤ max_int64 d then max_int64 else if ltb_ℤ d min_int64 then min_int64 else d

unfoldable pub sub_time : Time → Time → Duration
unfolding saturate
sub_time t u = saturate (sub_ℕ t u)

-- `t.Add(d)`; an instant before the start is taken to be the start.
unfoldable pub add_time : Time → Duration → Time
add_time t d = t + pos_part d - neg_part d

unfoldable pub before : Time → Time → Bool
before t u = ltb t u

unfoldable pub after : Time → Time → Bool
after t u = ltb u t

abbrev pub minute : Duration
minute = pos 60_000_000_000

abbrev pub hour : Duration
hour = pos 3_600_000_000_000
