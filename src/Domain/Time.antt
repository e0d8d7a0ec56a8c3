-- ===== src/Domain/Time.antt =====
-- Go's `time.Time` and `time.Duration`, in nanoseconds since the zero `time.Time` (year 1, UTC).
-- A `*time.Time` is an `Option Time`. Times before the zero time do not occur.
use aiyolo.Base.{ℕ, ◌-◌, ◌%◌, Bool, ltb, ◌==◌, if◌then◌else◌}

abbrev pub Time : Type 0
Time = ℕ

abbrev pub is_zero : Time → Bool
is_zero t = t == 0

abbrev pub second : ℕ
second = 1000000000

abbrev pub minute : ℕ
minute = 60000000000

abbrev pub hour : ℕ
hour = 3600000000000

-- `t.After(u)` and `t.Before(u)`.
abbrev pub after : Time → Time → Bool
after t u = ltb u t

abbrev pub before : Time → Time → Bool
before t u = ltb t u

-- `t.Truncate(time.Minute)`, which rounds down from the zero time.
abbrev pub truncate_minute : Time → Time
truncate_minute t = t - t % minute

-- `if t.IsZero() { t = time.Now().UTC() }`
abbrev pub or_now : Time → Time → Time
or_now now t = if is_zero t then now else t
