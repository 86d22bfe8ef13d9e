-- ===== src/CkStack/Linear/Moves.antt =====
-- Every step of a thread keeps what the threads know of the CK stack.
use bpf_arena_data_structure.Base.{
  ℕ, ◌+◌, ◌<◌, ◌≡◌, refl, List, [], ◌∷◌, ap, sym, ◌∙◌, subst, arith,
}
use bpf_arena_data_structure.Api.{Kv, kv, u64, sub_u64}
use bpf_arena_data_structure.CkStack.{Entry, Stack}
use bpf_arena_data_structure.CkStack.Chain.{Chain, NotIn, pairs}
use bpf_arena_data_structure.CkStack.Threads.{
  Thread, Event, System, Insert, Remove, put, took, saw_none, allocate, store_key, store_value,
  load_head, store_next, push, push_again, push_stop, count_up, see_none, see_head, follow,
  pop_stop, pop, pop_again, pop_none, count_down, load_key, load_value, set_pair, set_next,
}
use bpf_arena_data_structure.CkStack.Linear.Defs.{ThreadInv, Replays, puts, takes, sees_none, Inv}
use bpf_arena_data_structure.CkStack.Linear.Frame.{
  frame-ThreadInv, Changed, none-Names, old-Names, quiet-Changed, write-Changed, head-Names,
  named-owned,
}

-- What was found at a NULL head: no entry is in the stack.
saw_none-Replays :
    (m : ℕ → Entry) (h : ℕ) (es : List ℕ) {t : List Event}
    → Chain m h es
    → h ≡ 0
    → Replays t (pairs m es)
    → Replays (saw_none ∷ t) (pairs m es)
unfolding pairs
saw_none-Replays m h [] c z r = sees_none r
saw_none-Replays m h (e ∷ es) (at, pos, c) z r = absurd (omega arith)

module _ {y : System} {i : ℕ} {es : List ℕ} (v : Inv y es) where
  allocate-Changed :
      (x : Kv) (e : ℕ)
      → 0 < e
      → NotIn e y.granted
      → Changed y i y.stack (e ∷ y.granted) (Thread.got x e) [] [] es
  allocate-Changed x e pos fresh = record {
    chain = v.chain;
    covers = λ a n. v.covers a n.1;
    local = (pos, v.covers e fresh);
    others = λ j ne. v.local j;
    given = λ a p n. n.0;
    given_others = λ j ne a p n. v.given j a p n.1;
    as_owner = λ j ne p. v.given j e pos fresh;
    as_other = λ j ne p same. v.given j e pos fresh (named-owned (y.threads j) p ∙ sym same);
    linear = v.linear;
    faithful = v.faithful;
  }

  -- The entry is put in front of the others.
  push-Changed :
      {x : Kv} {e h : ℕ}
      → Thread.linked x e h ≡ y.threads i
      → ThreadInv y.stack.entries es (Thread.linked x e h)
      → y.stack.head ≡ h
      → Changed y i (record y.stack { head = e }) y.granted Thread.pushed (put x ∷ []) [] (e ∷ es)
  unfolding pairs
  push-Changed {x} {e} {h} at (pos, out, pair, next) same =
      let names = old-Names v at in
      let none_named = none-Names y i in
      record {
        chain = (refl, pos, subst (λ n. Chain y.stack.entries n es) (same ∙ sym next) v.chain);
        covers = λ a n. ((λ q. names.given a (omega arith) n q), v.covers a n);
        local = tt;
        others = λ j ne.
            frame-ThreadInv y.stack.entries y.stack.entries es (e ∷ es) (y.threads j) refl
              (λ p o. ((λ q. names.as_other j ne p q), o)) (v.local j);
        given = none_named.given;
        given_others = λ j ne. v.given j;
        as_owner = none_named.as_owner;
        as_other = none_named.as_other;
        linear =
            subst (λ p. Replays (put x ∷ y.trace) (p ∷ pairs y.stack.entries es)) (sym pair)
              (puts x v.linear);
        faithful = v.faithful;
      }

-- The first entry leaves the stack, and stays as it is.
pop-Changed :
    {y : System} {i : ℕ} (es : List ℕ) {h n : ℕ}
    → Inv y es
    → Thread.followed h n ≡ y.threads i
    → 0 < h
    → n ≡ (y.stack.entries h).next
    → y.stack.head ≡ h
    → (es' : List ℕ) × Changed y i
        (record y.stack { head = n })
        y.granted
        (Thread.popped (y.stack.entries h).pair h)
        (took (y.stack.entries h).pair ∷ [])
        []
        es'
unfolding pairs
pop-Changed [] v at pos next same = let c = v.chain in absurd (omega arith)
pop-Changed {y} {i} (e ∷ es) {h} {n} v at pos next same =
    let (first, e_pos, c) = v.chain in
    let here : h ≡ e = sym same ∙ first in
    let names = old-Names v at in
    (
      es,
      record {
        chain =
            subst (λ a. Chain y.stack.entries a es)
              (ap (λ a. (y.stack.entries a).next) (sym here) ∙ sym next) c;
        covers = λ a o. (v.covers a o).1;
        local = refl;
        others = λ j ne.
            frame-ThreadInv y.stack.entries y.stack.entries (e ∷ es) es (y.threads j) refl
              (λ p o. o.1) (v.local j);
        given = names.given;
        given_others = λ j ne. v.given j;
        as_owner = names.as_owner;
        as_other = names.as_other;
        linear =
            subst
              (λ a. Replays (took (y.stack.entries a).pair ∷ y.trace) (pairs y.stack.entries es))
              (sym here) (takes v.linear);
        faithful = v.faithful;
      },
    )

-- A step of an insertion of thread `i`, which stands at `u`.
pub Insert-Changed :
    {y : System} {i : ℕ} {es : List ℕ} {u : Thread} {s : Stack} {granted : List ℕ} {t : Thread}
    {out : List Event} {got : List (Kv × Kv)}
    → Inv y es
    → u ≡ y.threads i
    → Insert y.stack y.granted u s granted t out got
    → ThreadInv y.stack.entries es u
    → (es' : List ℕ) × Changed y i s granted t out got es'
Insert-Changed {es} v at (allocate x e pos fresh) k = (es, allocate-Changed v x e pos fresh)
Insert-Changed {y} {es} v at (store_key {x} {e}) (pos, out) = (
  es,
  write-Changed v at (set_pair y.stack e (kv x.key (y.stack.entries e).pair.value)).entries
      (Thread.keyed x e) pos out (λ b ne. ground arith) (pos, out, ground arith) (old-Names v at),
)
Insert-Changed {y} {es} v at (store_value {x} {e}) (pos, out, key) = (
  es,
  write-Changed v at (set_pair y.stack e (kv (y.stack.entries e).pair.key x.value)).entries
      (Thread.filled x e) pos out (λ b ne. ground arith) (pos, out, ground arith) (old-Names v at),
)
Insert-Changed {y} {es} v at (load_head {x} {e}) k = (
  es,
  quiet-Changed v at y.stack.count (Thread.loaded x e y.stack.head) [] [] k (old-Names v at)
      v.linear v.faithful,
)
Insert-Changed {y} {es} v at (store_next {x} {e} {h}) (pos, out, pair) = (
  es,
  write-Changed v at (set_next y.stack e h).entries (Thread.linked x e h) pos out
      (λ b ne. ground arith) (pos, out, ground arith, ground arith) (old-Names v at),
)
Insert-Changed {es} v at (push {x} {e} same) k = (e ∷ es, push-Changed v at k same)
Insert-Changed {y} {es} v at (push_again {x} {e} ne) (pos, out, pair, next) = (
  es,
  quiet-Changed v at y.stack.count (Thread.loaded x e y.stack.head) [] [] (pos, out, pair)
      (old-Names v at) v.linear v.faithful,
)
Insert-Changed {y} {i} {es} v at (push_stop ne) k = (
  es,
  quiet-Changed v at y.stack.count Thread.ready [] [] tt (none-Names y i) v.linear v.faithful,
)
Insert-Changed {y} {i} {es} v at count_up k = (
  es,
  quiet-Changed v at (u64 (y.stack.count + 1)) Thread.ready [] [] tt (none-Names y i) v.linear
      v.faithful,
)

-- A step of a removal of thread `i`, which stands at `u`.
pub Remove-Changed :
    {y : System} {i : ℕ} {es : List ℕ} {u : Thread} {s : Stack} {granted : List ℕ} {t : Thread}
    {out : List Event} {got : List (Kv × Kv)}
    → Inv y es
    → u ≡ y.threads i
    → Remove y.stack y.granted u s granted t out got
    → ThreadInv y.stack.entries es u
    → (es' : List ℕ) × Changed y i s granted t out got es'
Remove-Changed {y} {i} {es} v at (see_none z) k = (
  es,
  quiet-Changed v at y.stack.count Thread.ready (saw_none ∷ []) [] tt (none-Names y i)
      (saw_none-Replays y.stack.entries y.stack.head es v.chain z v.linear) v.faithful,
)
Remove-Changed {y} {i} {es} v at (see_head ne) k = (
  es,
  quiet-Changed v at y.stack.count (Thread.seen y.stack.head) [] [] (omega arith) (head-Names i v)
      v.linear v.faithful,
)
Remove-Changed {y} {es} v at (follow {h}) k = (
  es,
  quiet-Changed v at y.stack.count (Thread.followed h (y.stack.entries h).next) [] [] (k, refl)
      (old-Names v at) v.linear v.faithful,
)
Remove-Changed {y} {i} {es} v at pop_stop k = (
  es,
  quiet-Changed v at y.stack.count Thread.ready [] [] tt (none-Names y i) v.linear v.faithful,
)
Remove-Changed {es} v at (pop same) (pos, next) = pop-Changed es v at pos next same
Remove-Changed {y} {i} {es} v at (pop_again ne more) k = (
  es,
  quiet-Changed v at y.stack.count (Thread.seen y.stack.head) [] [] (omega arith) (head-Names i v)
      v.linear v.faithful,
)
Remove-Changed {y} {i} {es} v at (pop_none ne z) k = (
  es,
  quiet-Changed v at y.stack.count Thread.ready (saw_none ∷ []) [] tt (none-Names y i)
      (saw_none-Replays y.stack.entries y.stack.head es v.chain z v.linear) v.faithful,
)
Remove-Changed {y} {es} v at (count_down {x} {e}) k = (
  es,
  quiet-Changed v at (sub_u64 y.stack.count 1) (Thread.counted x e) [] [] k (old-Names v at)
      v.linear v.faithful,
)
Remove-Changed {y} {es} v at (load_key {x} {e}) k = (
  es,
  quiet-Changed v at y.stack.count (Thread.half x e (y.stack.entries e).pair.key) [] []
      (k, ap (λ (p : Kv). p.key) k) (old-Names v at) v.linear v.faithful,
)
Remove-Changed {y} {i} {es} v at (load_value {x} {e} {k = k'}) (pair, key) = (
  es,
  quiet-Changed v at y.stack.count Thread.ready [] ((x, kv k' (y.stack.entries e).pair.value) ∷ [])
      tt (none-Names y i) v.linear (ground arith, v.faithful),
)
