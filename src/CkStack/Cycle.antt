-- ===== src/CkStack/Cycle.antt =====
-- `ds_ck_stack_upmc_verify`: one cursor goes twice as fast as the other.
use bpf_arena_data_structure.Base.{
  ℕ, zero, suc, ◌+◌, ◌*◌, ◌/◌, ◌-◌, ◌≤◌, ◌<◌, ◌≡◌, refl, ◌≢◌, ◌⊎◌, inl, inr, List, [], ◌∷◌, ap, sym,
  ◌∙◌, subst, arith, length, true, false, not, ◌&&◌, ◌==◌, none, some, if◌then◌else◌, ℕ_discrete,
  Bool-cases,
}
use native.Mathlib.Nat.{div-add-mod, mod-lt}
use bpf_arena_data_structure.Api.{success, corrupt}
use bpf_arena_data_structure.CkStack.{Entry, Stack, answer, verify_loop, verify}
use bpf_arena_data_structure.CkStack.Chain.{Chain}
use bpf_arena_data_structure.CkStack.Refine.{IsValid}

length_unique :
    (m : ℕ → Entry) (a : ℕ) (es fs : List ℕ) → Chain m a es → Chain m a fs → length es ≡ length fs
length_unique m a [] [] c c' = refl
length_unique m a [] (f ∷ fs) c (at, pos, c') = absurd (omega arith)
length_unique m a (e ∷ es) [] (at, pos, c) c' = absurd (omega arith)
length_unique m a (e ∷ es) (f ∷ fs) (at, pos, c) (at', pos', c') =
    ap suc
      (length_unique m (m e).next es fs c (subst (λ x. Chain m (m x).next fs) (sym at' ∙ at) c'))

-- The cursors never meet on entries that end.
verify_loop-Chain :
    (fuel : ℕ) (m : ℕ → Entry) (slow fast : ℕ) (es fs : List ℕ)
    → Chain m slow es
    → Chain m fast fs
    → length fs ≤ length es
    → (verify_loop fuel m slow fast ≡ some success)
      ⊎ ((verify_loop fuel m slow fast ≡ none) × (2 * fuel < length fs))
unfolding verify_loop
verify_loop-Chain zero m slow fast es [] c c' le = inl (rw c' refl)
verify_loop-Chain zero m slow fast es (f ∷ fs) c (at, pos, c') le =
    let more : (fast == 0) ≡ false = ground arith in inr (rw more refl, omega arith)
verify_loop-Chain (suc fuel) m slow fast es [] c c' le = inl (rw c' refl)
verify_loop-Chain (suc fuel) m slow fast [] (f ∷ fs) c c' le = absurd (omega arith)
verify_loop-Chain (suc fuel) m slow fast (e ∷ es) (f ∷ []) c (at, pos, end) le =
    let more : (f == 0) ≡ false = ground arith in inl (rw (at, more, end) refl)
verify_loop-Chain (suc fuel) m slow fast (e ∷ es) (f ∷ g ∷ fs) (from, e_pos, c)
      (at, pos, (to, g_pos, c')) le =
    let more : (f == 0) ≡ false = ground arith in
    let next : (g == 0) ≡ false = ground arith in
    let slow_set : (e == 0) ≡ false = ground arith in
    let apart : (not ((m e).next == 0) && (m e).next == (m g).next) ≡ false =
      elim (ℕ_discrete (m e).next (m g).next) [
        | yes meet ↦ absurd (
            let same = length_unique m (m g).next es fs (subst (λ x. Chain m x es) meet c) c' in
            omega arith)
        | no ne ↦ ground arith
      ] in
    let ih = verify_loop-Chain fuel m (m e).next (m g).next es fs c c' (omega arith) in
    rw (from, at, more, to, next, slow_set, apart)
      (elim ih [ inl done ↦ inl done | inr (stopped, long) ↦ inr (stopped, omega arith) ])

-- The entry that `next` leads to in `i` steps.
unfoldable pub walk : (ℕ → Entry) → (a i : ℕ) → ℕ
walk m a zero = a
walk m a (suc i) = (m (walk m a i)).next

walk-suc : (m : ℕ → Entry) (a i : ℕ) → (m (walk m a i)).next ≡ walk m a (i + 1)
unfolding walk
walk-suc m a i = ap (walk m a) e
  where
    e : suc i ≡ i + 1
    e = omega arith

-- A round on entries that do not end.
verify_loop-round :
    (fuel : ℕ) (m : ℕ → Entry) (a i : ℕ)
    → ((j : ℕ) → walk m a j ≢ 0)
    → let slow = walk m a (i + 1) in
      let fast = walk m a (2 * (i + 1)) in
      verify_loop (suc fuel) m (walk m a i) (walk m a (2 * i))
      ≡ (if slow == fast then some corrupt else verify_loop fuel m slow fast)
unfolding verify_loop
verify_loop-round fuel m a i endless =
    let slow = walk-suc m a i in
    let mid = walk-suc m a (2 * i) in
    let fast : (m (walk m a (2 * i + 1))).next ≡ walk m a (2 * (i + 1)) =
      walk-suc m a (2 * i + 1) ∙ ap (walk m a) (omega arith) in
    let a1 : (walk m a i == 0) ≡ false = let h = endless i in ground arith in
    let a2 : (walk m a (2 * i) == 0) ≡ false = let h = endless (2 * i) in ground arith in
    let a3 : (walk m a (2 * i + 1) == 0) ≡ false = let h = endless (2 * i + 1) in ground arith in
    let a4 : (walk m a (i + 1) == 0) ≡ false = let h = endless (i + 1) in ground arith in
    rw (a1, a2, slow, mid, fast, a3, a4) refl

-- The cursors meet at the latest after `suc k` rounds, if they would be at one entry then.
verify_loop-meet :
    (fuel : ℕ) (m : ℕ → Entry) (a i k : ℕ)
    → ((j : ℕ) → walk m a j ≢ 0)
    → walk m a (i + suc k) ≡ walk m a (2 * (i + suc k))
    → k < fuel
    → verify_loop fuel m (walk m a i) (walk m a (2 * i)) ≡ some corrupt
verify_loop-meet zero m a i k endless meet enough = absurd (omega arith)
verify_loop-meet (suc fuel) m a i zero endless meet enough =
    let one : i + suc 0 ≡ i + 1 = omega arith in
    let at = ap (walk m a) (sym one) ∙ meet ∙ ap (λ n. walk m a (2 * n)) one in
    let same : (walk m a (i + 1) == walk m a (2 * (i + 1))) ≡ true = ground arith in
    verify_loop-round fuel m a i endless ∙ rw same refl
verify_loop-meet (suc fuel) m a i (suc k) endless meet enough =
    let step : i + suc (suc k) ≡ i + 1 + suc k = omega arith in
    let at = ap (walk m a) (sym step) ∙ meet ∙ ap (λ n. walk m a (2 * n)) step in
    let ih = verify_loop-meet fuel m a (i + 1) k endless at (omega arith) in
    verify_loop-round fuel m a i endless
    ∙ elim (Bool-cases (walk m a (i + 1) == walk m a (2 * (i + 1)))) [
      | inl same ↦ rw same refl
      | inr apart ↦ rw apart ih
    ]

-- Entries on a cycle come back after each period.
module _ (m : ℕ → Entry) (a lead period : ℕ) (back : walk m a (lead + period) ≡ walk m a lead) where
  walk-period : (r : ℕ) → walk m a (r + (lead + period)) ≡ walk m a (r + lead)
  unfolding walk
  walk-period zero = ap (walk m a) (omega arith) ∙ back ∙ ap (walk m a) (omega arith)
  walk-period (suc r) =
      ap (walk m a) left ∙ ap (λ x. (m x).next) (walk-period r) ∙ ap (walk m a) right
    where
      left : suc r + (lead + period) ≡ suc (r + (lead + period))
      left = omega arith

      right : suc (r + lead) ≡ suc r + lead
      right = omega arith

  walk-periods : (q j : ℕ) → lead ≤ j → walk m a (j + q * period) ≡ walk m a j
  walk-periods zero j le = ap (walk m a) (omega arith)
  walk-periods (suc q) j le =
      ap (walk m a) (grind arith)
      ∙ walk-period (j + q * period - lead)
      ∙ ap (walk m a) (omega arith)
      ∙ walk-periods q j le

-- `ds_ck_stack_upmc_verify` accepts every valid stack; its loop ends by itself, unless `can_loop` allows
-- fewer rounds than half the entries.
ck_stack_verify_valid :
    (fuel : ℕ) (s : Stack) (es : List ℕ)
    → IsValid s es
    → (verify fuel s ≡ success)
      × ((verify_loop fuel s.entries s.head s.head ≡ some success)
          ⊎ ((verify_loop fuel s.entries s.head s.head ≡ none) × (2 * fuel < length es)))
unfolding verify
ck_stack_verify_valid fuel s es v =
    let r = verify_loop-Chain fuel s.entries s.head s.head es es v.chain v.chain (omega arith) in
    (elim r [ inl done ↦ ap answer done | inr (stopped, long) ↦ ap answer stopped ], r)

-- When the entries never end, but come back after `period` steps from the one `lead` steps behind the
-- head, the loop of `ds_ck_stack_upmc_verify` ends by itself within `lead + period` rounds, and the
-- answer is DS_ERROR_CORRUPT.
pub ck_stack_verify_cycle :
    (fuel : ℕ) (s : Stack) (lead period : ℕ)
    → ((j : ℕ) → walk s.entries s.head j ≢ 0)
    → 0 < period
    → walk s.entries s.head (lead + period) ≡ walk s.entries s.head lead
    → lead + period ≤ fuel
    → (verify_loop fuel s.entries s.head s.head ≡ some corrupt) × (verify fuel s ≡ corrupt)
unfolding verify walk
ck_stack_verify_cycle fuel s lead period endless pos back enough = (ends, ap answer ends)
  where
    q : ℕ
    q = lead / period + 1

    enters : lead < q * period
    enters = omega (arith, div-add-mod lead period, mod-lt lead pos)

    early : q * period ≤ lead + period
    early = omega (arith, div-add-mod lead period)

    meet :
        walk s.entries s.head (0 + suc (q * period - 1))
        ≡ walk s.entries s.head (2 * (0 + suc (q * period - 1)))
    meet =
        ap (walk s.entries s.head) (omega (arith, enters))
        ∙ sym
            (walk-periods s.entries s.head lead period back q (q * period) (omega (arith, enters)))
        ∙ ap (walk s.entries s.head) (omega (arith, enters))

    twice : 2 * 0 ≡ 0
    twice = omega arith

    ends : verify_loop fuel s.entries s.head s.head ≡ some corrupt
    ends =
        sym (ap (verify_loop fuel s.entries s.head) (ap (walk s.entries s.head) twice))
        ∙ verify_loop-meet fuel s.entries s.head 0 (q * period - 1) endless meet
            (omega (arith, enters, early))
