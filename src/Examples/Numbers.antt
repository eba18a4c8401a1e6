-- ===== src/Examples/Numbers.antt =====
-- Lengths, draws, sleeps and counts.
use jcoz.Base.{ok, List, some, All, length, ◌<◌, ℕ, ◌+◌, ◌*◌, ◌≤◌, ◌≡◌, refl, ap, [], ◌∷◌, arith}
use jcoz.Base.Int.{pos, ◌≤ℤ◌}
use jcoz.Text.{codes}
use jcoz.Sleep.{slept, invalid, jcoz_sleep, nanos_per_second}
use jcoz.Sleep.Laws.{jcoz_sleep_ge, jcoz_sleep_long}
use jcoz.Experiment.{calculate_random_speedup, delay_of, signal_freq}
use jcoz.Experiment.Draw.{twentieths, delay_of-draw}
use jcoz.BciHits.Counts.{Stands, add_hits-Stands}
use jcoz.BciHits.Signatures.{keep_sig, keep_sigs, dump_deallocates, after_dump, methods_of}
use jcoz.Agent.Loops.{
  sampling_times, IsSleep, sum, sampling_ends, experiment_rounds, Over, experiment_ends,
}
use jcoz.BciHits.{add_hit, create_dump}
use jcoz.BciHits.Printed.{print_lines, dump_text}
use jcoz.BciHits.Signatures.Left.{after_dump_leak}
use jcoz.BciHits.OrderedMap.{adjust, lookup}
use jcoz.Jvmti.{allocate, deallocate}
use jcoz.Profiler.{is_member, erase}
use jcoz.BciHits.Laws.{Hit, add_hits}
use jcoz.Examples.{exact, exact-IsPosix, agent}

jcoz_sleep_ge_example : pos 1000000 ≤ℤ jcoz_sleep exact 0 (pos 1000000)
jcoz_sleep_ge_example = jcoz_sleep_ge exact exact-IsPosix 0 1000000 (omega arith)

refuses : (now n : ℕ) → nanos_per_second ≤ n → exact now (pos n) ≡ invalid now
refuses now n h = ground arith

no_time : (now : ℕ) → exact now (pos 0) ≡ slept now
no_time now = ap slept (omega arith)

jcoz_sleep_long_example : jcoz_sleep exact 0 (pos 1500000000) ≡ pos 0
jcoz_sleep_long_example = jcoz_sleep_long exact refuses no_time 0 1500000000 (omega arith)

delay_of-draw_example :
    (delay_of (calculate_random_speedup 31) ≡ pos (twentieths 31 * 50000))
    × (twentieths 31 * 50000 ≤ signal_freq)
delay_of-draw_example = delay_of-draw 31

abbrev hit : Hit
hit = record { class_fqn = codes "app.Main"; method_id = 7; line_number = pos 12; bci = pos 3 }

add_hits-Stands_example : Stands (add_hits (hit ∷ hit ∷ [])) (hit ∷ hit ∷ [])
add_hits-Stands_example = add_hits-Stands (hit ∷ hit ∷ []) (omega arith)

abbrev three_hits : List Hit
three_hits = hit ∷ record hit { method_id = 4 } ∷ hit ∷ []

after_dump_leak_example :
    (length (after_dump three_hits).given + methods_of three_hits ≡ 3)
    × ((after_dump three_hits).errors ≡ 0)
after_dump_leak_example = after_dump_leak three_hits

-- The signature of the first of the three is left.
left_behind : (after_dump three_hits).given ≡ 1 ∷ []
unfolding after_dump keep_sigs keep_sig dump_deallocates add_hits add_hit adjust lookup allocate
    deallocate is_member erase
left_behind = refl

dumped :
    dump_text (add_hits three_hits)
    ≡ ok (
        codes "Bytecode index hits:"
        ∷ (b'\t' ∷ codes "For class app.Main:")
        ∷ (b'\t' ∷ b'\t' ∷ codes "12: (3, 1); ")
        ∷ (b'\t' ∷ codes "For class app.Main:")
        ∷ (b'\t' ∷ b'\t' ∷ codes "12: (3, 2); ")
        ∷ [])
unfolding dump_text print_lines create_dump add_hits add_hit adjust lookup
dumped = refl

sampling_ends_example :
    (times : List ℕ) × (sampling_times (λ round. round * 77777) ≡ some times)
    × All IsSleep times
    × ((15 ≤ length times) × (length times ≤ 30))
    × ((30000000 ≤ sum times) × (sum times < 32000000))
sampling_ends_example = sampling_ends (λ round. round * 77777)

experiment_ends_example :
    (last : ℕ) × (experiment_rounds 6 (λ k. agent) (λ k. k * 1000000) 5000000 0 ≡ some last)
    × (last ≤ 5)
    × Over (λ k. agent) (λ k. k * 1000000) 5000000 last
experiment_ends_example =
    experiment_ends (λ k. agent) (λ k. k * 1000000) 5 (λ k. refl) (λ k. omega arith)
