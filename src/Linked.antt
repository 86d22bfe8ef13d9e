-- ===== src/Linked.antt =====
-- Elements linked from an address to NULL, under a change of one link.
use bpf_arena_data_structure.Base.{ℕ, ◌<◌, ◌≡◌, refl, ◌≢◌, List, [], ◌∷◌, ◌++◌, ap, ap₂, sym, ◌∙◌}
use bpf_arena_data_structure.Api.{Kv}
use bpf_arena_data_structure.Api.Queue.{Queue}

-- The addresses from `a` on, along `next`.
abbrev pub Chain : (next : ℕ → ℕ) → ℕ → List ℕ → Type 0
Chain next a [] = a ≡ 0
Chain next a (e ∷ es) = (a ≡ e) × (0 < e) × Chain next (next e) es

abbrev pub NotIn : ℕ → List ℕ → Type 0
NotIn a [] = Unit
NotIn a (e ∷ es) = (e ≢ a) × NotIn a es

abbrev pub Distinct : List ℕ → Type 0
Distinct [] = Unit
Distinct (e ∷ es) = NotIn e es × Distinct es

unfoldable pub pairs : (pair : ℕ → Kv) → List ℕ → Queue
pairs pair [] = []
pairs pair (e ∷ es) = pair e ∷ pairs pair es

-- All but the dummy.
abbrev pub rest : List ℕ → List ℕ
rest [] = []
rest (e ∷ es) = es

pub NotIn-append : (a : ℕ) (xs ys : List ℕ) → NotIn a xs → NotIn a ys → NotIn a (xs ++ ys)
NotIn-append a [] ys nx ny = ny
NotIn-append a (x ∷ xs) ys (ne, nx) ny = (ne, NotIn-append a xs ys nx ny)

pub NotIn-left : (a : ℕ) (xs ys : List ℕ) → NotIn a (xs ++ ys) → NotIn a xs
NotIn-left a [] ys n = tt
NotIn-left a (x ∷ xs) ys (ne, n) = (ne, NotIn-left a xs ys n)

pub NotIn-right : (a : ℕ) (xs ys : List ℕ) → NotIn a (xs ++ ys) → NotIn a ys
NotIn-right a [] ys n = n
NotIn-right a (x ∷ xs) ys (ne, n) = NotIn-right a xs ys n

-- A change outside the chain.
pub Chain-same :
    (next next' : ℕ → ℕ) (a h : ℕ) (es : List ℕ)
    → ((b : ℕ) → b ≢ a → next' b ≡ next b)
    → NotIn a es
    → Chain next h es
    → Chain next' h es
Chain-same next next' a h [] same out c = c
Chain-same next next' a h (e ∷ es) same (ne, out) (at, pos, c) =
    (at, pos, rw (same e ne) (Chain-same next next' a (next e) es same out c))

pub pairs_same :
    (pair pair' : ℕ → Kv) (a : ℕ) (es : List ℕ)
    → ((b : ℕ) → b ≢ a → pair' b ≡ pair b)
    → NotIn a es
    → pairs pair' es ≡ pairs pair es
unfolding pairs
pairs_same pair pair' a [] same out = refl
pairs_same pair pair' a (e ∷ es) same (ne, out) =
    ap₂ ◌∷◌ (same e ne) (pairs_same pair pair' a es same out)

pub pairs-append :
    (pair : ℕ → Kv) (xs ys : List ℕ) → pairs pair (xs ++ ys) ≡ pairs pair xs ++ pairs pair ys
unfolding pairs
pairs-append pair [] ys = refl
pairs-append pair (x ∷ xs) ys = ap (λ l. pair x ∷ l) (pairs-append pair xs ys)

abbrev pub last : ℕ → List ℕ → ℕ
last e [] = e
last e (f ∷ es) = last f es

pub last-append : (e t : ℕ) (front lag : List ℕ) → last e (front ++ t ∷ lag) ≡ last t lag
last-append e t [] lag = refl
last-append e t (f ∷ front) lag = last-append f t front lag

pub NotIn-last : (a e : ℕ) (es : List ℕ) → NotIn a (e ∷ es) → last e es ≢ a
NotIn-last a e [] (ne, n) = ne
NotIn-last a e (f ∷ es) (ne, n) = NotIn-last a f es n

-- What follows an element of a chain is a chain.
pub Chain-behind :
    (next : ℕ → ℕ) (h t : ℕ) (front lag : List ℕ)
    → Chain next h (front ++ t ∷ lag)
    → Chain next (next t) lag
Chain-behind next h t [] lag (at, pos, c) = c
Chain-behind next h t (e ∷ front) lag (at, pos, c) = Chain-behind next (next e) t front lag c

pub Chain-last :
    (next : ℕ → ℕ) (h e : ℕ) (es : List ℕ) → Chain next h (e ∷ es) → next (last e es) ≡ 0
Chain-last next h e [] (at, pos, c) = c
Chain-last next h e (f ∷ es) (at, pos, c) = Chain-last next (next e) f es c

-- A new element behind the last one.
pub Chain-snoc :
    (next next' : ℕ → ℕ) (h new e : ℕ) (es : List ℕ)
    → ((b : ℕ) → b ≢ last e es → next' b ≡ next b)
    → next' (last e es) ≡ new
    → next' new ≡ 0
    → 0 < new
    → Distinct (e ∷ es)
    → Chain next h (e ∷ es)
    → Chain next' h (e ∷ es ++ new ∷ [])
Chain-snoc next next' h new e [] same to end pos d (at, ep, c) = (at, ep, (to, pos, end))
Chain-snoc next next' h new e (f ∷ es) same to end pos (n, d) (at, ep, c) = (
  at,
  ep,
  rw (same e (λ x. NotIn-last e f es n (sym x)))
      (Chain-snoc next next' (next e) new f es same to end pos d c),
)

pub Distinct-snoc :
    (front : List ℕ) (new : ℕ) → NotIn new front → Distinct front → Distinct (front ++ new ∷ [])
Distinct-snoc [] new n d = (tt, tt)
Distinct-snoc (e ∷ front) new (ne, n) (ef, d) =
    (NotIn-append e front (new ∷ []) ef ((λ x. ne (sym x)), tt), Distinct-snoc front new n d)

-- The same for a chain in which an element `t` is known.
pub Chain-link :
    (next next' : ℕ → ℕ) (h new t : ℕ) (front lag : List ℕ)
    → ((b : ℕ) → b ≢ last t lag → next' b ≡ next b)
    → next' (last t lag) ≡ new
    → next' new ≡ 0
    → 0 < new
    → Distinct (front ++ t ∷ lag)
    → Chain next h (front ++ t ∷ lag)
    → Chain next' h ((front ++ t ∷ lag) ++ new ∷ [])
Chain-link next next' h new t [] lag same to end pos d c =
    Chain-snoc next next' h new t lag same to end pos d c
Chain-link next next' h new t (e ∷ front) lag same to end pos d c =
    let la = last-append e t front lag in
    Chain-snoc next next' h new e (front ++ t ∷ lag) (λ b ne. same b (λ x. ne (x ∙ sym la)))
      (ap next' la ∙ to) end pos d c

pub rest-append :
    (t : ℕ) (front lag new : List ℕ)
    → rest ((front ++ t ∷ lag) ++ new) ≡ rest (front ++ t ∷ lag) ++ new
rest-append t [] lag new = refl
rest-append t (e ∷ front) lag new = refl

pub NotIn-rest : (a : ℕ) (es : List ℕ) → NotIn a es → NotIn a (rest es)
NotIn-rest a [] n = tt
NotIn-rest a (e ∷ es) (ne, n) = n

pub Chain-pos :
    (next : ℕ → ℕ) (h t : ℕ) (front lag : List ℕ) → Chain next h (front ++ t ∷ lag) → 0 < t
Chain-pos next h t [] lag (at, pos, c) = pos
Chain-pos next h t (e ∷ front) lag (at, pos, c) = Chain-pos next (next e) t front lag c
