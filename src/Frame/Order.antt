-- ===== src/Frame/Order.antt =====
-- The operators that std::sort and std::unique are given form a strict total order and its equality.
use jcoz.Base.{◌≡◌, ◌↔◌, ◌⊎◌, subst, true, false, arith}
use jcoz.Base.Int.{eq_of_parts}
use jcoz.Frame.{CallFrame, lt_frame, eq_frame}

eq_frame_sound : (a b : CallFrame) → eq_frame a b ≡ true → a ≡ b
unfolding eq_frame
eq_frame_sound a b h = ground (arith, eq_of_parts a.lineno b.lineno)

eq_frame_refl : (a : CallFrame) → eq_frame a a ≡ true
unfolding eq_frame
eq_frame_refl a = ground arith

pub eq_frame_iff : (a b : CallFrame) → (eq_frame a b ≡ true) ↔ (a ≡ b)
eq_frame_iff a b = (eq_frame_sound a b, λ e. subst (λ x. eq_frame a x ≡ true) e (eq_frame_refl a))

pub lt_frame_irrefl : (a b : CallFrame) → lt_frame a b ≡ true → lt_frame b a ≡ false
unfolding lt_frame
lt_frame_irrefl a b h = ground arith

pub lt_frame_trans :
    (a b c : CallFrame) → lt_frame a b ≡ true → lt_frame b c ≡ true → lt_frame a c ≡ true
unfolding lt_frame
lt_frame_trans a b c h k = ground arith

pub lt_frame_total : (a b : CallFrame) → (lt_frame a b ≡ true) ⊎ (a ≡ b) ⊎ (lt_frame b a ≡ true)
unfolding lt_frame
lt_frame_total a b = ground (arith, eq_of_parts a.lineno b.lineno)
