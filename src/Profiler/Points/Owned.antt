-- ===== src/Profiler/Points/Owned.antt =====
-- The state between two events, and the shares in its points.
use jcoz.Base.{
  ℕ, ◌+◌, ◌^◌, ◌<◌, ◌≤◌, ◌≡◌, refl, sym, ap, subst, ◌∙◌, inl, inr, Bool, true, false, List, ◌==◌,
  Bool-cases, ==_iff, arith,
}
use jcoz.Base.Int.{ℤ, pos, pos_part}
use jcoz.Profiler.{
  UserThread, not_begun, Cell, null, live, Profiler, is_member, insert, erase, update, put,
  add_points,
}
use jcoz.Profiler.Threads.{add_user_thread}
use jcoz.Profiler.Objects.{is_live}
use jcoz.Profiler.Points.{points_of, IsNatural, IsOwned, all_points}
use jcoz.Profiler.Points.Sums.{
  pending_absent, pending-update, is_member-erase_other, is_member-insert_more,
  is_member-insert_self, pending-insert, no_dup-insert, update_self,
}

-- A thread whose object goes leaves the set.
pub owned-erase :
    (cells : ℕ → Cell) (t : ℕ) (c : Cell) (ts : List ℕ)
    → is_live c ≡ false
    → ((s : ℕ) → is_live (cells s) ≡ true → is_member s ts ≡ true)
    → (s : ℕ) → is_live (update cells t c s) ≡ true
    → is_member s (erase t ts) ≡ true
owned-erase cells t c ts dead h s a = elim (Bool-cases (s == t)) [
  | inl here ↦ absurd (ground (arith, dead, rw here at a))
  | inr other ↦ is_member-erase_other s t ts other (h s (rw other at a))
]

pub update_all :
    (P : Cell → Type 0) (cells : ℕ → Cell) (t : ℕ) (c : Cell)
    → P c
    → ((s : ℕ) → P (cells s))
    → (s : ℕ) → P (update cells t c s)
update_all P cells t c h k s = elim (Bool-cases (s == t)) [
  | inl here ↦ rw here h
  | inr other ↦ rw other (k s)
]

pub is_member_same :
    (s t : ℕ) (ts : List ℕ) → s == t ≡ true → is_member t ts ≡ true → is_member s ts ≡ true
is_member_same s t ts e m = subst (λ x. is_member x ts ≡ true) (sym ((==_iff s t).0 e)) m

pub owned-update :
    (cells : ℕ → Cell) (t : ℕ) (c : Cell) (old ts : List ℕ)
    → ((s : ℕ) → is_member s old ≡ true → is_member s ts ≡ true)
    → is_member t ts ≡ true
    → ((s : ℕ) → is_live (cells s) ≡ true → is_member s old ≡ true)
    → (s : ℕ) → is_live (update cells t c s) ≡ true
    → is_member s ts ≡ true
owned-update cells t c old ts more m h s a = elim (Bool-cases (s == t)) [
  | inl here ↦ is_member_same s t ts here m
  | inr other ↦ more s (h s (rw other at a))
]

pub still_live :
    (cells : ℕ → Cell) (t : ℕ) (c : Cell) (s : ℕ)
    → is_live c ≡ false
    → is_live (update cells t c s) ≡ true
    → is_live (cells s) ≡ true
still_live cells t c s h a = elim (Bool-cases (s == t)) [
  | inl here ↦ absurd (ground (arith, h, rw here at a))
  | inr other ↦ rw other at a
]

-- A new object for a thread in the set.
pub IsOwned-update :
    (cells : ℕ → Cell) (t : ℕ) (u : UserThread) (ts : List ℕ)
    → is_member t ts ≡ true
    → u.points_hit ≡ pos (pos_part u.points_hit)
    → IsOwned cells ts
    → IsOwned (update cells t (live u)) ts
IsOwned-update cells t u ts m h o = record {
  distinct = o.distinct;
  owned = owned-update cells t (live u) ts ts (λ s m'. m') m o.owned;
  natural = update_all IsNatural cells t (live u) h o.natural;
}

-- The state between two events.
pub record Counts (p : Profiler) (n : ℕ) : Type 0 where
  pub is_owned : IsOwned p.curr_ut p.user_threads
  pub all : all_points p ≡ n

pub start_Counts :
    (p : Profiler) (t thread n : ℕ) (in_main : Bool)
    → is_member t p.user_threads ≡ false
    → Counts p n
    → Counts (add_user_thread p t thread in_main) n
unfolding add_user_thread put
start_Counts p t thread n true free c =
    let new = live (record {
      local_delay = p.global_delay;
      points_hit = pos 0;
      num_signals_received = 0;
      java_thread = thread;
      removal = not_begun;
    }) in
    record {
      is_owned = record {
        distinct = no_dup-insert t p.user_threads c.is_owned.distinct;
        owned =
            owned-update p.curr_ut t new p.user_threads (insert t p.user_threads)
              (is_member-insert_more t p.user_threads) (is_member-insert_self t p.user_threads)
              c.is_owned.owned;
        natural = update_all IsNatural p.curr_ut t new refl c.is_owned.natural;
      };
      all = omega (
        arith,
        c.all,
        pending-insert (update p.curr_ut t new) t p.user_threads
            (ap points_of (update_self p.curr_ut t new)),
        pending_absent p.curr_ut t new p.user_threads free,
      );
    }
start_Counts p t thread n false free c = record {
  is_owned = record {
    distinct = c.is_owned.distinct;
    owned = λ s a. c.is_owned.owned s (still_live p.curr_ut t null s refl a);
    natural = update_all IsNatural p.curr_ut t null tt c.is_owned.natural;
  };
  all = ap (λ k. p.points_hit + k) (pending_absent p.curr_ut t null p.user_threads free) ∙ c.all;
}

abbrev pub limit : ℕ
limit = 2 ^ 63

-- The share of one object in the total.
pub share :
    (p : Profiler) (t : ℕ) (u : UserThread) (n : ℕ)
    → p.curr_ut t ≡ live u
    → Counts p n
    → p.points_hit + pos_part u.points_hit ≤ n
share p t u n found c = omega (
  arith,
  c.all,
  ap points_of found,
  pending-update p.curr_ut t null p.user_threads c.is_owned.distinct
      (c.is_owned.owned t (rw found refl)),
)

pub natural_object :
    (p : Profiler) (t : ℕ) (u : UserThread) (n : ℕ)
    → p.curr_ut t ≡ live u
    → Counts p n
    → u.points_hit ≡ pos (pos_part u.points_hit)
natural_object p t u n found c = subst IsNatural found (c.is_owned.natural t)

-- An atomic_ulong takes on a long that is not negative.
pub taken :
    (points : ℕ) (k : ℤ) (n : ℕ) → k ≡ pos n → points + n < limit → add_points points k ≡ points + n
taken points k n e h = ap (add_points points) e ∙ omega arith
