-- ===== src/Sleep/Laws.antt =====
-- How long jcoz_sleep sleeps: long enough below a second, and not at all from a second on.
use jcoz.Base.{ℕ, zero, suc, ◌+◌, ◌≤◌, ◌<◌, ◌≡◌, refl, Option, some, arith}
use jcoz.Base.Int.{ℤ, pos, negsuc, ◌≤ℤ◌}
use jcoz.Sleep.{
  Answer, slept, interrupted, invalid, Kernel, sleep_loop, elapsed, jcoz_sleep, nanos_per_second,
  Sleeps, Refuses, IsPosix,
}

-- The loop ends, at the time or later.
abbrev pub EndsBy : ℕ → Option ℕ → Type 0
EndsBy due r = (t : ℕ) × (r ≡ some t) × (due ≤ t)

-- One round, on what the call came to; `again` is the rest of the loop from a shorter request.
sleep_round :
    (nanosleep : Kernel) (fuel now n : ℕ) (rem : ℤ) (a : Answer)
    → nanosleep now (pos n) ≡ a
    → Sleeps now n a
    → ((t m : ℕ) → m < n → EndsBy (t + m) (sleep_loop nanosleep fuel t (pos m) (pos m)))
    → EndsBy (now + n) (sleep_loop nanosleep (suc fuel) now (pos n) rem)
unfolding sleep_loop
sleep_round nanosleep fuel now n rem (slept t) e s again = (t, rw (e, sleep_loop), s)
sleep_round nanosleep fuel now n rem (interrupted t (pos m)) e s again =
    let (t', found, late) = again t m (omega arith) in (t', rw (e, sleep_loop) found, omega arith)
sleep_round nanosleep fuel now n rem (interrupted t (negsuc m)) e s again = absurd (omega arith)
sleep_round nanosleep fuel now n rem (invalid t) e s again = absurd s

refused_round :
    (nanosleep : Kernel) (fuel now n : ℕ) (rem : ℤ) (a : Answer)
    → nanosleep now (pos n) ≡ a
    → Refuses now a
    → (t : ℕ) × (now ≤ t)
      × (nanosleep now (pos n) ≡ invalid t)
      × (sleep_loop nanosleep (suc fuel) now (pos n) rem ≡ sleep_loop nanosleep fuel t rem rem)
unfolding sleep_loop
refused_round nanosleep fuel now n rem (slept t) e s = absurd s
refused_round nanosleep fuel now n rem (interrupted t r) e s = absurd s
refused_round nanosleep fuel now n rem (invalid t) e s = (t, s, e, rw (e, sleep_loop))

module _ (nanosleep : Kernel) (posix : IsPosix nanosleep) where
  -- From a request below a second the loop ends, and no earlier than asked.
  sleep_loop_ends :
      (fuel now n : ℕ) (rem : ℤ)
      → n < fuel
      → n < nanos_per_second
      → EndsBy (now + n) (sleep_loop nanosleep fuel now (pos n) rem)
  sleep_loop_ends zero now n rem h k = absurd (omega arith)
  sleep_loop_ends (suc fuel) now n rem h k =
      sleep_round nanosleep fuel now n rem (nanosleep now (pos n)) refl (posix.sleeps now n k)
        λ t m lt. sleep_loop_ends fuel t m (pos m) (omega arith) (omega arith)

  -- On a kernel that keeps to POSIX, a sleep of less than a second ends and its measured length is
  -- at least the one asked for, whatever interrupts it.
  pub jcoz_sleep_ge : (now n : ℕ) → n < nanos_per_second → pos n ≤ℤ jcoz_sleep nanosleep now (pos n)
  unfolding jcoz_sleep
  jcoz_sleep_ge now n k =
      let (t, e, late) = sleep_loop_ends (suc (suc n)) now n (pos 0) (omega arith) k in ground arith

  -- From a second on the kernel refuses the request, and the loop goes on with a request of 0: the
  -- time that passes is what the two calls take themselves.
  pub jcoz_sleep_refused :
      (now n : ℕ)
      → nanos_per_second ≤ n
      → (t : ℕ) × (nanosleep now (pos n) ≡ invalid t)
        × (jcoz_sleep nanosleep now (pos n)
            ≡ elapsed now (sleep_loop nanosleep (suc n) t (pos 0) (pos 0)))
  unfolding jcoz_sleep
  jcoz_sleep_refused now n k =
      let (t, late, e, same) =
        refused_round nanosleep (suc n) now n (pos 0) (nanosleep now (pos n)) refl
          (posix.refuses now n k) in
      (t, e, ground arith)

-- On a kernel that refuses a second or more in no time, and that sleeps for 0 in no time, a sleep
-- of a second or more does not sleep at all.
pub jcoz_sleep_long :
    (nanosleep : Kernel)
    → ((now n : ℕ) → nanos_per_second ≤ n → nanosleep now (pos n) ≡ invalid now)
    → ((now : ℕ) → nanosleep now (pos 0) ≡ slept now)
    → (now n : ℕ) → nanos_per_second ≤ n
    → jcoz_sleep nanosleep now (pos n) ≡ pos 0
unfolding jcoz_sleep
jcoz_sleep_long nanosleep refuses wakes now n k = ground (arith, refuses now n k, wakes now)

-- A sleep of 0 returns at once.
pub jcoz_sleep_zero : (nanosleep : Kernel) (now : ℕ) → jcoz_sleep nanosleep now (pos 0) ≡ pos 0
unfolding jcoz_sleep
jcoz_sleep_zero nanosleep now = refl
