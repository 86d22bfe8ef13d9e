-- ===== src/CkFifoSpsc/Order/Frame.antt =====
-- What a step of `ds_ck_fifo_spsc_insert` leaves alone.
use bpf_arena_data_structure.Base.{ℕ, ◌≡◌, refl, ◌≢◌, sym, ap, ap₂, ◌∙◌, List, [], ◌∷◌, ◌++◌}
use bpf_arena_data_structure.Api.{Kv}
use bpf_arena_data_structure.CkFifoSpsc.{Entry, Fifo}
use bpf_arena_data_structure.CkFifoSpsc.Inv.{
  nodes, IsValid, NotIn-waiting, NotIn-first, outside-IsValid, contents-outside,
}
use bpf_arena_data_structure.CkFifoSpsc.Threads.{Producer, Consumer}
use bpf_arena_data_structure.CkFifoSpsc.Order.Defs.{
  Owned, HasSome, Apart, ProducerInv, ConsumerInv, StartsWith, hand, waiting, Kept,
}

-- The snapshot is where the garbage ends.
pub eq_nil_of_snapshot :
    {f : Fifo} (gs : List ℕ) {ss : List ℕ} {d : ℕ} {qs : List ℕ}
    → IsValid f gs ss d qs
    → f.head_snapshot ≡ f.garbage
    → gs ≡ []
eq_nil_of_snapshot [] v e = refl
eq_nil_of_snapshot (g ∷ gs) {ss} {d} {qs} v e =
    absurd (NotIn-first g gs ss d qs v.distinct.0 (sym v.at_snapshot ∙ e ∙ v.chain.0))

pub HasSome-snapshot :
    {f : Fifo} (gs ss : List ℕ) {d : ℕ} {qs : List ℕ}
    → IsValid f gs ss d qs
    → f.head_snapshot ≢ f.garbage
    → HasSome gs
HasSome-snapshot (g ∷ gs) ss v ne = tt
HasSome-snapshot [] [] v ne = ne (v.at_snapshot ∙ sym v.chain.0)
HasSome-snapshot [] (s ∷ ss) v ne = ne (v.at_snapshot ∙ sym v.chain.0)

pub HasSome-head :
    {f : Fifo} (ss : List ℕ) {d : ℕ} {qs : List ℕ}
    → IsValid f [] ss d qs
    → f.head ≢ f.garbage
    → HasSome ss
HasSome-head (s ∷ ss) v ne = tt
HasSome-head [] v ne = ne (v.at_head ∙ sym v.chain.0)

-- The consumer reads nothing of an entry outside the chain.
module _ (f : Fifo) (m : ℕ → Entry) (d : ℕ) (same : (m d).pair ≡ (f.entries d).pair) where
  pub same-ConsumerInv :
      (qs : List ℕ) (c : Consumer)
      → ConsumerInv f d qs c
      → ConsumerInv (record f { entries = m }) d qs c
  same-ConsumerInv qs (Consumer.keyed v k) (at, key) = (at, key ∙ ap (λ x. x.key) (sym same))
  same-ConsumerInv qs c i = i

  pub hand_same : (c : Consumer) → hand (record f { entries = m }) d c ≡ hand f d c
  hand_same (Consumer.moved v) = ap (λ x. x ∷ []) same
  hand_same (Consumer.keyed v k) = ap (λ x. x ∷ []) same
  hand_same c = refl

-- A write to an entry outside the chain.
module _ {f : Fifo} {granted : List ℕ} {p : Producer} {c : Consumer} {gs ss : List ℕ} {d : ℕ}
    {qs : List ℕ} (k : Kept f granted p c gs ss d qs) (m : ℕ → Entry) (e : ℕ)
    (same : (b : ℕ) → b ≢ e → m b ≡ f.entries b) (own : Owned granted (nodes gs ss d qs) e) where
  stub_same : (m d).pair ≡ (f.entries d).pair
  stub_same = ap (λ (x : Entry). x.pair) (same d (NotIn-waiting e gs ss d qs own.out).0)

  pub outside-Kept :
      (p' : Producer)
      → ((a : ℕ) → Apart p' a → Apart p a)
      → ProducerInv (record f { entries = m }) granted gs (nodes gs ss d qs) p'
      → Kept (record f { entries = m }) granted p' c gs ss d qs
  outside-Kept p' holds i = record {
    valid = outside-IsValid k.valid m e same own.out;
    covers = k.covers;
    complete = λ a n h. k.complete a n (holds a h);
    producer = i;
    consumer = same-ConsumerInv f m d stub_same qs c k.consumer;
  }

  pub waiting-outside : waiting f d qs c ≡ waiting (record f { entries = m }) d qs c
  waiting-outside =
      ap₂ ◌++◌ (sym (hand_same f m d stub_same c)) (sym (contents-outside k.valid m e same own.out))

StartsWith-append : (e : ℕ) (qs es : List ℕ) → StartsWith e qs → StartsWith e (qs ++ es)
StartsWith-append e [] es h = absurd h
StartsWith-append e (a ∷ qs) es h = h

pub append-ConsumerInv :
    (f : Fifo) (d : ℕ) (qs es : List ℕ) (c : Consumer)
    → ConsumerInv f d qs c
    → ConsumerInv f d (qs ++ es) c
append-ConsumerInv f d qs es (Consumer.found e) i = StartsWith-append e qs es i
append-ConsumerInv f d qs es (Consumer.pointed e v) (i, j) = (StartsWith-append e qs es i, j)
append-ConsumerInv f d qs es c i = i

-- The chain, and what waits in it, after a step of the producer.
abbrev pub Outcome :
    Fifo → Fifo → List ℕ → Producer → Consumer → List ℕ → ℕ → List ℕ → List Kv → Type 0
Outcome f f' granted p c gs d qs out =
    (gs' : List ℕ) × (ss' : List ℕ) × (qs' : List ℕ) × Kept f' granted p c gs' ss' d qs'
    × (waiting f' d qs' c ≡ waiting f d qs c ++ out)
