-- ===== src/Relay/Log.antt =====
-- The log of what a relay did, and the tests that its handlers make.
use bpf_arena_data_structure.Base.{
  ℕ, ◌+◌, ◌≡◌, ◌≢◌, refl, ◌⊎◌, inl, inr, Bool, true, false, List, [], ◌∷◌, ◌++◌, length,
  length-append, arith, if◌then◌else◌,
}
use bpf_arena_data_structure.Api.{
  DsResult, success, not_found, exists, nomem, invalid, corrupt, busy, full, Kv, u64,
}
use bpf_arena_data_structure.Metrics.{succeeded}

-- The pairs that KU accepted, that the relay took from it, that UK accepted, and that the probe took.
pub record Log : Type 0 where
  pub produced : List Kv
  pub taken : List Kv
  pub forwarded : List Kv
  pub consumed : List Kv

abbrev pub no_log : Log
no_log = record { produced = []; taken = []; forwarded = []; consumed = [] }

abbrev pub note : DsResult → Kv → List Kv → List Kv
note e x log = if succeeded e then log ++ x ∷ [] else log

pub bool_cases : (b : Bool) → (b ≡ true) ⊎ (b ≡ false)
bool_cases true = inl refl
bool_cases false = inr refl

pub if_true : {A : Type 0} (b : Bool) (x y : A) → b ≡ true → (if b then x else y) ≡ x
if_true b x y e = rw e refl

pub if_false : {A : Type 0} (b : Bool) (x y : A) → b ≡ false → (if b then x else y) ≡ y
if_false b x y e = rw e refl

pub true_ne_false : true ≢ false
true_ne_false e = absurd (ground arith)

pub failed_of_ne : (e : DsResult) → e ≢ success → succeeded e ≡ false
failed_of_ne success ne = absurd (ne refl)
failed_of_ne not_found ne = refl
failed_of_ne exists ne = refl
failed_of_ne nomem ne = refl
failed_of_ne invalid ne = refl
failed_of_ne corrupt ne = refl
failed_of_ne busy ne = refl
failed_of_ne full ne = refl

-- The first list is the second one without some of its members, in order.
pub data Thinned : List Kv → List Kv → Type 0 where
  nothing : Thinned [] []
  kept : {xs ys : List Kv} (x : Kv) → Thinned xs ys → Thinned (xs ++ x ∷ []) (ys ++ x ∷ [])
  dropped : {xs ys : List Kv} (x : Kv) → Thinned xs ys → Thinned xs (ys ++ x ∷ [])

-- A counter that goes up with a log.
pub note_count :
    (e : DsResult) (x : Kv) (log : List Kv) (n : ℕ)
    → n ≡ u64 (length log)
    → (if succeeded e then u64 (n + 1) else n) ≡ u64 (length (note e x log))
note_count e x log n c = elim (bool_cases (succeeded e)) [
  | inl ok ↦ rw ok (omega (arith, length-append log (x ∷ [])))
  | inr fail ↦ rw fail c
]

pub thin_step :
    (e e' : DsResult) (x : Kv) {f t : List Kv}
    → Thinned f t
    → Thinned (if succeeded e then note e' x f else f) (note e x t)
thin_step e e' x th = elim (bool_cases (succeeded e)) [
  | inr fail ↦ rw fail th
  | inl ok ↦ elim (bool_cases (succeeded e')) [
    | inl ok' ↦ rw (ok, ok') (kept x th)
    | inr no' ↦ rw (ok, no') (dropped x th)
  ]
]
