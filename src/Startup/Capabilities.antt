-- ===== src/Startup/Capabilities.antt =====
-- Which capabilities PrepareJvmti takes for potential, src/entry.cc.
use jcoz.Base.{
  some-injective, ℕ, zero, suc, ◌≡◌, ◌≢◌, ◌↔◌, inl, inr, refl, sym, subst, ◌∙◌, true, false, List,
  [], ◌∷◌, none, some, Option-cases, Bool-cases, if◌then◌else◌, get_elem?, All, arith,
}
use jcoz.Startup.{add_capabilities, Vm, is_lacking, prepare_jvmti}

-- Wherever a byte is needed, the potential one is not 0.
abbrev pub Covers : List ℕ → List ℕ → Type 0
Covers should_have has =
    (i s h : ℕ) → get_elem? should_have i ≡ some s → get_elem? has i ≡ some h → s ≢ 0 → h ≢ 0

Covers-cons : (s h : ℕ) (ss hs : List ℕ) → (s ≢ 0 → h ≢ 0) → Covers ss hs → Covers (s ∷ ss) (h ∷ hs)
Covers-cons s h ss hs first rest zero x y e f n =
    let same = subst (λ k. k ≢ 0) (sym (some-injective s x e)) n in
    subst (λ k. k ≢ 0) (some-injective h y f) (first same)
Covers-cons s h ss hs first rest (suc i) x y e f n = rest i x y e f n

is_lacking-Covers :
    (should_have has : List ℕ) → is_lacking should_have has ≡ false → Covers should_have has
unfolding is_lacking
is_lacking-Covers [] has e = λ i s h x y n. absurd cc
is_lacking-Covers (s ∷ ss) [] e = λ i x h y z n. absurd cc
is_lacking-Covers (s ∷ ss) (h ∷ hs) e =
    Covers-cons s h ss hs (λ n. ground arith) (is_lacking-Covers ss hs (ground arith))

Covers-is_lacking :
    (should_have has : List ℕ) → Covers should_have has → is_lacking should_have has ≡ false
unfolding is_lacking
Covers-is_lacking [] has c = refl
Covers-is_lacking (s ∷ ss) [] c = refl
Covers-is_lacking (s ∷ ss) (h ∷ hs) c =
    let rest = Covers-is_lacking ss hs (λ i x y e f n. c (suc i) x y e f n) in
    let first = c 0 s h refl refl in ground arith

-- What the agent needs of the VM: its capabilities among the potential ones, where JVMTI names those,
-- and granted; and the callbacks and all six events.
abbrev pub Grants : Vm → Type 0
Grants vm =
    (all_caps : List ℕ)
    → vm.potential ≡ some all_caps
    → Covers vm.needed all_caps × (vm.accepts add_capabilities ≡ true)

-- One answer for the potential capabilities, or none.
Grants-some :
    (vm : Vm) (all_caps : List ℕ)
    → vm.potential ≡ some all_caps
    → Covers vm.needed all_caps × (vm.accepts add_capabilities ≡ true)
    → Grants vm
Grants-some vm all_caps e (covers, granted) other f =
    (subst (Covers vm.needed) (some-injective all_caps other (sym e ∙ f)) covers, granted)

prepare_some :
    (vm : Vm) (all_caps : List ℕ)
    → vm.potential ≡ some all_caps
    → (prepare_jvmti vm).0
      ≡ (if is_lacking vm.needed all_caps then false else vm.accepts add_capabilities)
unfolding prepare_jvmti
prepare_some vm all_caps e = ground arith

prepare_none : (vm : Vm) → vm.potential ≡ none → (prepare_jvmti vm).0 ≡ true
unfolding prepare_jvmti
prepare_none vm e = ground arith

pub prepare_iff : (vm : Vm) → ((prepare_jvmti vm).0 ≡ true) ↔ Grants vm
prepare_iff vm = elim (Option-cases vm.potential) [
  | inl e ↦ (λ h all_caps f. absurd (cc (sym e ∙ f)), λ g. prepare_none vm e)
  | inr (all_caps, e) ↦ (
    λ h.
        let passes = sym (prepare_some vm all_caps e) ∙ h in
        Grants-some vm all_caps e
          (is_lacking-Covers vm.needed all_caps (ground arith), ground arith),
    λ g.
        let (covers, granted) = g all_caps e in
        prepare_some vm all_caps e
        ∙ ground (arith, Covers-is_lacking vm.needed all_caps covers, granted),
  )
]

pub prepare_requests : (vm : Vm) → All (λ r. r ≡ add_capabilities) (prepare_jvmti vm).1
unfolding prepare_jvmti
prepare_requests vm = elim (Option-cases vm.potential) [
  | inl e ↦ rw e tt
  | inr (all_caps, e) ↦ rw e (elim (Bool-cases (is_lacking vm.needed all_caps)) [
    | inl f ↦ rw f tt
    | inr f ↦ rw f (refl, tt)
  ])
]
