-- ===== src/Sleep.antt =====
-- jcoz_sleep of src/profiler.cc. The kernel's nanosleep and clock are a parameter.
pub mod Laws
use jcoz.Base.{ℕ, zero, suc, ◌+◌, ◌-◌, ◌≤◌, ◌<◌, ◌≡◌, ◌≢◌, Bool, Option, none, some, if◌then◌else◌}
use jcoz.Base.Int.{ℤ, pos, pos_part, neg_part, sub_ℕ, eqb_ℤ, ◌≤ℤ◌, ◌<ℤ◌}

-- What nanosleep comes to, and the time at which it returns: 0, or -1 with EINTR and the remaining
-- time written, or -1 with EINVAL and nothing written.
pub data Answer : Type 0 where
  slept : ℕ → Answer
  interrupted : ℕ → ℤ → Answer
  invalid : ℕ → Answer

-- The call at a time, on the nanoseconds of the request, whose seconds are 0.
abbrev pub Kernel : Type 0
Kernel = ℕ → ℤ → Answer

-- do { err = nanosleep(&req, &rem); req = rem; } while (err == -1);  The time after it, or out of fuel.
unfoldable pub sleep_loop : Kernel → ℕ → ℕ → ℤ → ℤ → Option ℕ
sleep_loop nanosleep zero now req rem = none
sleep_loop nanosleep (suc fuel) now req rem = elim (nanosleep now req) [
  | slept t ↦ some t
  | interrupted t rest ↦ sleep_loop nanosleep fuel t rest rest
  | invalid t ↦ sleep_loop nanosleep fuel t rem rem
]

-- The measured time between the two readings of the clock.
abbrev pub elapsed : ℕ → Option ℕ → ℤ
elapsed start none = pos 0
elapsed start (some end_time) = sub_ℕ end_time start

-- The fuel is one round for each nanosecond, and two.
unfoldable pub jcoz_sleep : Kernel → ℕ → ℤ → ℤ
unfolding sleep_loop
jcoz_sleep nanosleep now nanoseconds =
    if eqb_ℤ nanoseconds (pos 0)
    then pos 0
    else elapsed now
        (sleep_loop nanosleep (suc (suc (pos_part nanoseconds))) now nanoseconds (pos 0))

abbrev pub nanos_per_second : ℕ
nanos_per_second = 1000000000

-- What POSIX says of one call: below a second it sleeps at least as long as asked, or is interrupted
-- after some time, with what remains; a negative request, or one of a second or more, is refused.
abbrev pub Sleeps : ℕ → ℕ → Answer → Type 0
Sleeps now n (slept t) = now + n ≤ t
Sleeps now n (interrupted t rest) =
    (rest <ℤ pos n) × (pos 0 ≤ℤ rest) × (now + n ≤ t + pos_part rest)
Sleeps now n (invalid t) = ⊥

abbrev pub Refuses : ℕ → Answer → Type 0
Refuses now (slept t) = ⊥
Refuses now (interrupted t rest) = ⊥
Refuses now (invalid t) = now ≤ t

pub record IsPosix (nanosleep : Kernel) : Type 0 where
  pub sleeps : (now n : ℕ) → n < nanos_per_second → Sleeps now n (nanosleep now (pos n))
  pub refuses : (now n : ℕ) → nanos_per_second ≤ n → Refuses now (nanosleep now (pos n))
