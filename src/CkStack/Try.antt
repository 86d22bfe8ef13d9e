-- ===== src/CkStack/Try.antt =====
-- `ds_ck_stack_upmc_trypush_upmc` and `ds_ck_stack_upmc_trypop_upmc` against the loops.
use bpf_arena_data_structure.Base.{
  ℕ, zero, suc, ◌≡◌, not, Option, none, some, ◌==◌, arith, if◌then◌else◌,
}
use bpf_arena_data_structure.CkStack.{
  Stack, store_entry, push_loop, push_upmc, trypush_upmc, pop_loop, pop_upmc, trypop_upmc,
}

-- What `trypop` hands out for what `pop_upmc` returns.
abbrev handed : ℕ → Option ℕ → Option ℕ
handed entry none = none
handed entry (some old) = if entry == 0 then some old else some entry

trypush-push_upmc :
    (fuel : ℕ) (s : Stack) (entry key value : ℕ)
    → trypush_upmc s entry key value ≡ (not (entry == 0), push_upmc fuel s entry key value)
unfolding trypush_upmc push_upmc push_loop store_entry
trypush-push_upmc zero s entry key value = ground arith
trypush-push_upmc (suc fuel) s entry key value = ground arith

trypop-pop_upmc :
    (fuel : ℕ) (s : Stack) (out : Option ℕ)
    → let (entry, s') = pop_upmc (suc fuel) s in
      trypop_upmc s out ≡ (not (entry == 0), s', handed entry out)
unfolding trypop_upmc pop_upmc pop_loop
trypop-pop_upmc fuel s none = ground arith
trypop-pop_upmc fuel s (some old) = ground arith

-- On a stack that no other call uses, one attempt is enough: `ds_ck_stack_upmc_trypush_upmc` does what
-- `ds_ck_stack_upmc_push_upmc` does and succeeds exactly when it is given an entry, and
-- `ds_ck_stack_upmc_trypop_upmc` does what a first round of `ds_ck_stack_upmc_pop_upmc` does, and
-- succeeds exactly when that returns an entry, which it stores.
ck_stack_try :
    (fuel : ℕ) (s : Stack) (entry key value : ℕ) (out : Option ℕ)
    → let (popped, s') = pop_upmc (suc fuel) s in
      (trypush_upmc s entry key value ≡ (not (entry == 0), push_upmc fuel s entry key value))
      × (trypop_upmc s out ≡ (not (popped == 0), s', handed popped out))
ck_stack_try fuel s entry key value out =
    (trypush-push_upmc fuel s entry key value, trypop-pop_upmc fuel s out)
