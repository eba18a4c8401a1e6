-- ===== src/Lifecycle/Disposition.antt =====
-- SignalHandler::SetAction of src/profiler.cc, with the flags and the mask that it asks for, and Start,
-- which installs the handler with it.
use jcoz.Base.{ℕ, ◌≡◌, refl, Bool, true, false, List, [], ◌∷◌, Option, none, some, if◌then◌else◌}
use jcoz.Profiler.{is_member}
use jcoz.Lifecycle.{Action, handler, Machine, start}

-- struct sigaction
pub record SigAction : Type 0 where
  pub action : Action
  pub restart : Bool  -- SA_RESTART
  pub siginfo : Bool  -- SA_SIGINFO
  pub nodefer : Bool  -- SA_NODEFER
  pub mask : List ℕ

abbrev pub sigprof_number : ℕ
sigprof_number = 27

-- sa, as SetAction fills it in
abbrev pub requested : Action → SigAction
requested action = record {
  action = action;
  restart = true;
  siginfo = true;
  nodefer = false;
  mask = [];
}

-- SetAction, by whether sigaction succeeds: what SIGPROF does then, and the old handler that is
-- returned. It has no value where sigaction fails.
unfoldable pub set_action : Bool → Action → SigAction → SigAction × Option SigAction
set_action succeeds action current =
    if succeeds then (requested action, some current) else (current, none)

-- The signals that are blocked while a handler runs.
abbrev pub blocked : SigAction → List ℕ
blocked s = if s.nodefer then s.mask else sigprof_number ∷ s.mask

-- Where sigaction succeeds, SIGPROF goes to the handler as Start has it, the handler is not
-- interrupted by itself, and putting the returned action back restores what there was.
pub set_action_lem :
    (m : Machine) (current : SigAction)
    → let (now, old) = set_action true handler current in
      (now.action ≡ (start m).sigprof)
      × (is_member sigprof_number (blocked now) ≡ true)
      × (old ≡ some current)
unfolding set_action is_member
set_action_lem m current = (refl, refl, refl)
