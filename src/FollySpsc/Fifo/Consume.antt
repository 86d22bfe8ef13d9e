-- ===== src/FollySpsc/Fifo/Consume.antt =====
-- A step of `ds_spsc_delete` beside a producer that stands anywhere.
use bpf_arena_data_structure.Base.{ℕ, ◌≡◌, refl, sym, ap, ◌∙◌, List, ◌∷◌, ◌++◌, arith, get_or}
use bpf_arena_data_structure.Api.{Kv, kv, zero_kv}
use bpf_arena_data_structure.FollySpsc.{Head, next_record}
use bpf_arena_data_structure.FollySpsc.Inv.{IsValid, contents}
use bpf_arena_data_structure.FollySpsc.Refine.{contents-popped}
use bpf_arena_data_structure.FollySpsc.Threads.{
  Producer, Consumer, Consume, load_read, see_empty, see_pair, load_key, load_value, release,
}
use bpf_arena_data_structure.FollySpsc.Fifo.Defs.{Holds, ProducerInv, ConsumerInv, Kept}

release-ProducerInv :
    (h : Head) {r : ℕ} (p : Producer)
    → IsValid h
    → Holds h r
    → ProducerInv h p
    → ProducerInv (record h { read_idx = next_record h.size r }) p
unfolding next_record
release-ProducerInv h Producer.ready v own i = tt
release-ProducerInv h p v own i = ground arith

release-IsValid :
    {h : Head} {r : ℕ}
    → IsValid h
    → Holds h r
    → IsValid (record h { read_idx = next_record h.size r })
unfolding next_record
release-IsValid v own = ground arith

pub Consume-Kept :
    {h h' : Head} {c c' : Consumer} {out : List Kv} {p : Producer}
    → Consume h c h' c' out
    → Kept h p c
    → Kept h' p c'
Consume-Kept load_read k = ground arith
Consume-Kept (see_empty e) k = ground arith
Consume-Kept (see_pair e) k = ground arith
Consume-Kept load_key k = ground arith
Consume-Kept {h} (load_value {r}) k = record {
  valid = k.valid;
  producer = k.producer;
  consumer = (k.consumer.0, ap (λ a. kv a (get_or h.cells r zero_kv).value) k.consumer.1);
}
Consume-Kept {h} {p} (release {r}) k = record {
  valid = release-IsValid k.valid k.consumer.0;
  producer = release-ProducerInv h p k.valid k.consumer.0 k.producer;
  consumer = tt;
}

-- The pairs that wait are those taken now, followed by those left.
pub Consume-contents :
    {h h' : Head} {c c' : Consumer} {out : List Kv}
    → Consume h c h' c' out
    → IsValid h
    → ConsumerInv h c
    → contents h ≡ out ++ contents h'
Consume-contents load_read v j = refl
Consume-contents (see_empty e) v j = refl
Consume-contents (see_pair e) v j = refl
Consume-contents load_key v j = refl
Consume-contents load_value v j = refl
Consume-contents {h} (release {r} {x}) v j =
    contents-popped v (λ e. j.0.1 (j.0.0 ∙ e))
    ∙ ap (λ i. get_or h.cells i zero_kv ∷ contents (record h { read_idx = next_record h.size i }))
        (sym j.0.0)
    ∙ ap (λ y. y ∷ contents (record h { read_idx = next_record h.size r })) (sym j.1)
