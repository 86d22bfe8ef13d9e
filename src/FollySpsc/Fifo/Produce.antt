-- ===== src/FollySpsc/Fifo/Produce.antt =====
-- A step of `ds_spsc_insert` beside a consumer that stands anywhere.
use bpf_arena_data_structure.Base.{
  ℕ, suc, ◌+◌, ◌-◌, ◌%◌, ◌≡◌, sym, ap, ◌∙◌, List, [], ◌∷◌, ◌++◌, arith, get_or, set, length-set,
  get_or-set_self, get_or-set_ne, append-nil, mod-add-ne,
}
use bpf_arena_data_structure.Api.{Kv, kv, zero_kv}
use bpf_arena_data_structure.Window.{window, window-set_out, window-snoc}
use bpf_arena_data_structure.FollySpsc.{Head, next_record}
use bpf_arena_data_structure.FollySpsc.Inv.{IsValid, used, contents, write_idx-eq-mod, used-lt-size}
use bpf_arena_data_structure.FollySpsc.Threads.{
  Producer, Consumer, Produce, load_write, see_full, see_space, store_key, store_value, publish,
}
use bpf_arena_data_structure.FollySpsc.Fifo.Defs.{Claims, ProducerInv, ConsumerInv, Kept}

-- A write to the producer's slot leaves the pairs that wait.
contents-set :
    {h : Head} {w n : ℕ} (x : Kv)
    → IsValid h
    → Claims h w n
    → contents (record h { cells = set h.cells w x }) ≡ contents h
unfolding contents used
contents-set {h} {w} x v claim =
    window-set_out zero_kv h.cells h.size h.read_idx (used h) w x (λ j lt e.
      mod-add-ne (h.read_idx + j) (used h - j) h.size (omega arith) (omega (arith, used-lt-size v))
        (ap (λ i. i % h.size) (omega arith) ∙ sym (write_idx-eq-mod v) ∙ sym claim.0 ∙ e))

used-publish :
    {h : Head} {w n : ℕ}
    → IsValid h
    → Claims h w n
    → used (record h { write_idx = n }) ≡ suc (used h)
unfolding used next_record
used-publish v claim = ground arith

contents-publish :
    {h : Head} {w n : ℕ}
    → IsValid h
    → Claims h w n
    → contents (record h { write_idx = n }) ≡ contents h ++ get_or h.cells w zero_kv ∷ []
unfolding contents
contents-publish {h} {w} {n} v claim =
    ap (window zero_kv h.cells h.size h.read_idx) (used-publish v claim)
    ∙ window-snoc zero_kv h.cells h.size h.read_idx (used h)
    ∙ ap (λ i. contents h ++ get_or h.cells i zero_kv ∷ []) (sym (write_idx-eq-mod v) ∙ sym claim.0)

set-IsValid :
    {h : Head} (i : ℕ) (x : Kv) → IsValid h → IsValid (record h { cells = set h.cells i x })
set-IsValid {h} i x v = ground (arith, length-set h.cells i x)

get_or-set_claim :
    {h : Head} {w n : ℕ} (x : Kv)
    → IsValid h
    → Claims h w n
    → get_or (set h.cells w x) w zero_kv ≡ x
get_or-set_claim {h} {w} x v claim = get_or-set_self h.cells w x zero_kv (omega arith)

-- What the producer writes is not where the consumer reads.
set-ConsumerInv :
    (h : Head) {w n : ℕ} (y : Kv) (c : Consumer)
    → Claims h w n
    → ConsumerInv h c
    → ConsumerInv (record h { cells = set h.cells w y }) c
set-ConsumerInv h y Consumer.ready claim j = tt
set-ConsumerInv h y (Consumer.loaded r) claim j = j
set-ConsumerInv h y (Consumer.found r) claim j = j
set-ConsumerInv h {w} y (Consumer.keyed r k) claim j =
    ground (arith, get_or-set_ne h.cells w r y zero_kv)
set-ConsumerInv h {w} y (Consumer.copied r x) claim j =
    ground (arith, get_or-set_ne h.cells w r y zero_kv)

publish-IsValid :
    {h : Head} {w n : ℕ} → IsValid h → Claims h w n → IsValid (record h { write_idx = n })
unfolding next_record
publish-IsValid v claim = ground arith

publish-ConsumerInv :
    (h : Head) {w n : ℕ} (c : Consumer)
    → Claims h w n
    → ConsumerInv h c
    → ConsumerInv (record h { write_idx = n }) c
publish-ConsumerInv h Consumer.ready claim j = tt
publish-ConsumerInv h c claim j = ground arith

pub Produce-Kept :
    {h h' : Head} {p p' : Producer} {out : List Kv} {c : Consumer}
    → Produce h p h' p' out
    → Kept h p c
    → Kept h' p' c
Produce-Kept (load_write x) k = ground arith
Produce-Kept (see_full e) k = ground arith
Produce-Kept (see_space e) k = ground arith
Produce-Kept {h} {c} (store_key {x} {w}) k = record {
  valid = set-IsValid w _ k.valid;
  producer = (k.producer, ap (λ (y : Kv). y.key) (get_or-set_claim _ k.valid k.producer));
  consumer = set-ConsumerInv h _ c k.producer k.consumer;
}
Produce-Kept {h} {c} (store_value {x} {w}) k = record {
  valid = set-IsValid w _ k.valid;
  producer =
      (k.producer.0, get_or-set_claim _ k.valid k.producer.0 ∙ ap (λ a. kv a x.value) k.producer.1);
  consumer = set-ConsumerInv h _ c k.producer.0 k.consumer;
}
Produce-Kept {h} {c} publish k = record {
  valid = publish-IsValid k.valid k.producer.0;
  producer = tt;
  consumer = publish-ConsumerInv h c k.producer.0 k.consumer;
}

-- The pairs that wait change by what is published.
pub Produce-contents :
    {h h' : Head} {p p' : Producer} {out : List Kv}
    → Produce h p h' p' out
    → IsValid h
    → ProducerInv h p
    → contents h' ≡ contents h ++ out
Produce-contents {h} (load_write x) v i = sym (append-nil (contents h))
Produce-contents {h} (see_full e) v i = sym (append-nil (contents h))
Produce-contents {h} (see_space e) v i = sym (append-nil (contents h))
Produce-contents {h} (store_key {x} {w}) v i = contents-set _ v i ∙ sym (append-nil (contents h))
Produce-contents {h} (store_value {x} {w}) v i =
    contents-set _ v i.0 ∙ sym (append-nil (contents h))
Produce-contents {h} publish v i = contents-publish v i.0 ∙ ap (λ y. contents h ++ y ∷ []) i.1
