-- ===== src/Agent/Gone.antt =====
-- The agent's thread leaves the set of user threads, at the start of runAgentThread, src/profiler.cc.
use jcoz.Base.{ℕ, ◌≤◌, ◌≡◌, refl, ap, inl, inr, List, Bool-cases, arith}
use jcoz.Profiler.{Cell, null, live, freed, Profiler, is_member, erase, update, put}
use jcoz.Profiler.Points.{points_of, pending, IsNatural, IsOwned, all_points}
use jcoz.Profiler.Points.Sums.{
  pending_absent, pending-update, pending-erase, no_dup-erase, update_self,
}
use jcoz.Profiler.Points.Owned.{owned-erase, still_live, update_all}
use jcoz.Agent.System.{agent_start}

-- The agent's own object goes, with what it holds.
gone :
    (cells : ℕ → Cell) (t : ℕ) (ts : List ℕ)
    → IsOwned cells ts
    → pending (update cells t null) ts ≤ pending cells ts
gone cells t ts o = elim (Bool-cases (is_member t ts)) [
  | inl m ↦ omega (arith, pending-update cells t null ts o.distinct m)
  | inr m ↦ omega (arith, pending_absent cells t null ts m)
]

gone-erase :
    (cells : ℕ → Cell) (t : ℕ) (ts : List ℕ)
    → IsOwned cells ts
    → pending (update cells t null) (erase t ts) ≤ pending cells ts
gone-erase cells t ts o = omega (
  arith,
  gone cells t ts o,
  pending-erase (update cells t null) t ts (ap points_of (update_self cells t null)),
)

gone-IsOwned :
    (cells : ℕ → Cell) (t : ℕ) (ts : List ℕ) → IsOwned cells ts → IsOwned (update cells t null) ts
gone-IsOwned cells t ts o = record {
  distinct = o.distinct;
  owned = λ s a. o.owned s (still_live cells t null s refl a);
  natural = update_all IsNatural cells t null tt o.natural;
}

gone-erase-IsOwned :
    (cells : ℕ → Cell) (t : ℕ) (ts : List ℕ)
    → IsOwned cells ts
    → IsOwned (update cells t null) (erase t ts)
gone-erase-IsOwned cells t ts o = record {
  distinct = no_dup-erase t ts o.distinct;
  owned = owned-erase cells t null ts refl o.owned;
  natural = update_all IsNatural cells t null tt o.natural;
}

-- Each object is still of a thread in the set, and no point is added.
pub record Leaves (p q : Profiler) : Type 0 where
  pub is_owned : IsOwned q.curr_ut q.user_threads
  pub points : all_points q ≤ all_points p

start_case :
    (self : ℕ) (p : Profiler) (c : Cell)
    → p.curr_ut self ≡ c
    → IsOwned p.curr_ut p.user_threads
    → Leaves p (agent_start self p)
unfolding agent_start put
start_case self p (live u) e o = record {
  is_owned = rw e (gone-erase-IsOwned p.curr_ut self p.user_threads o);
  points = rw e (omega (arith, gone-erase p.curr_ut self p.user_threads o));
}
start_case self p null e o = record {
  is_owned = rw e (gone-IsOwned p.curr_ut self p.user_threads o);
  points = rw e (omega (arith, gone p.curr_ut self p.user_threads o));
}
start_case self p freed e o = record {
  is_owned = rw e (gone-IsOwned p.curr_ut self p.user_threads o);
  points = rw e (omega (arith, gone p.curr_ut self p.user_threads o));
}

pub start-Leaves :
    (self : ℕ) (p : Profiler) → IsOwned p.curr_ut p.user_threads → Leaves p (agent_start self p)
start-Leaves self p o = start_case self p (p.curr_ut self) refl o
