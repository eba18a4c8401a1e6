-- ===== src/Lifecycle/Death.antt =====
-- OnVMDeath with the agent's thread that Stop waits for, src/entry.cc and src/profiler.cc.
use jcoz.Base.{ℕ, ◌≤◌, ◌≡◌, refl, ap, ◌∙◌, true, some, Bool-cases, inl, inr}
use jcoz.Progress.{LineTables}
use jcoz.Classes.Armed.{IsArmed}
use jcoz.Agent.{stop}
use jcoz.Agent.System.{System, profile_done, Run}
use jcoz.Agent.Stopping.{agent_steps, stop_done}
use jcoz.Lifecycle.{Machine, stop_profiler, on_vm_death}
use jcoz.Lifecycle.Session.{Session, IsQuiet, on_vm_death-IsQuiet}

returns : (m : Machine) → (r : Machine) × (on_vm_death true m ≡ some r)
unfolding on_vm_death stop_profiler
returns m = elim (Bool-cases m.classes.running) [ inl e ↦ rw e (_, refl) | inr e ↦ rw e (_, refl) ]

-- OnVMDeath comes back after any start of the profiler and any prepared classes whose methods are
-- not null, if the agent's thread makes at least eight steps after Stop, from any phase and among
-- any events; then no breakpoint is left, no method is in scope, SIGPROF is ignored and preparing a
-- class changes nothing. Before the start the breakpoints agree with the progress point.
pub on_vm_death_ends :
    {tables : LineTables} {m q : Machine} {t : System} {n : ℕ} (s : System)
    (run : Run (record s { agent = stop s.agent }) n t)
    → Session tables m q
    → IsArmed m.classes.progress
    → 8 ≤ agent_steps run
    → (r : Machine) × (on_vm_death (profile_done t.phase) q ≡ some r) × IsQuiet r
on_vm_death_ends {q = q} {t = t} s run session armed enough =
    let (r, e) = returns q in
    let ends = ap (λ b. on_vm_death b q) (stop_done s run enough) ∙ e in
    (r, ends, on_vm_death-IsQuiet (profile_done t.phase) r session armed ends)
