-- ===== src/KarpRabin/Buckets.antt =====
-- ase/gtcpp/karp_rabin.hpp: the buckets and the free list, and the needle that is allocated.
use ase.Prelude.{
  ℕ, zero, suc, ◌+◌, ◌-◌, ◌^◌, ◌≤◌, ◌<◌, ◌≡◌, refl, sym, ap, ◌∙◌, Option, none, some, List, [], ◌∷◌,
  ◌++◌, arith, length, get_or, All, length-append,
}
use ase.KarpRabin.{Needle, KarpRabin, empty_needle, needle_at, entpos, allocated, allocate_needle}
use ase.KarpRabin.Chains.{Chain, Apart}
use ase.KarpRabin.Prevs.{Prevs, total}
use mathlib.Core.Path.{subst}

abbrev pub Distinct : List ℕ → Type 0
Distinct [] = Unit
Distinct (i ∷ ids) = Apart i ids × Distinct ids

-- The needles of each bucket and those of the free list, in chains that end, those of a bucket linked
-- back as well and in the place of their hash.
pub record IsLinked (kr : KarpRabin) : Type 0 where
  pub bits : ℕ
  pub mask : kr.hash_table_size_mask ≡ 2 ^ bits - 1
  pub size : length kr.table ≡ 2 ^ bits
  pub ids : ℕ → List ℕ
  pub free : List ℕ
  pub chained : (b : ℕ) → Chain kr.needlearr (get_or kr.table b none) (ids b)
  pub freed : Chain kr.needlearr kr.needle_freelist free
  pub distinct : Distinct free
  pub apart : (b : ℕ) → All (λ i. Apart i free) (ids b)
  pub prevs : (b : ℕ) → Prevs kr.needlearr none (ids b)
  pub unique : (b : ℕ) → Distinct (ids b)
  pub placed : (b : ℕ) → All (λ i. entpos ((needle_at kr.needlearr i).hashval) kr ≡ b) (ids b)
  pub counted : total (2 ^ bits) ids + length free ≤ length kr.needlearr

-- The needle that allocate_needle gives: in range, in no bucket, and not in the rest of the free list.
pub record Allocated (kr : KarpRabin) (v : IsLinked kr) (nid : ℕ) (alloc : KarpRabin) : Type 0 where
  pub free' : List ℕ
  pub in_range : nid < length alloc.needlearr
  pub same_table : alloc.table ≡ kr.table
  pub same_mask : alloc.hash_table_size_mask ≡ kr.hash_table_size_mask
  pub grown : length kr.needlearr ≤ length alloc.needlearr
  pub kept :
      (j : ℕ) → j < length kr.needlearr → needle_at alloc.needlearr j ≡ needle_at kr.needlearr j
  pub unused : (b : ℕ) → Apart nid (v.ids b)
  pub free_apart : Apart nid free'
  pub freed' : Chain alloc.needlearr alloc.needle_freelist free'
  pub distinct' : Distinct free'
  pub apart' : (b : ℕ) → All (λ i. Apart i free') (v.ids b)
  pub counted' : suc (total (2 ^ v.bits) v.ids + length free') ≤ length alloc.needlearr

get_or-end :
    (arr : List Needle) (j : ℕ)
    → j < length arr
    → needle_at (arr ++ empty_needle ∷ []) j ≡ needle_at arr j
unfolding needle_at
get_or-end [] j h = absurd (omega arith)
get_or-end (a ∷ arr) zero h = refl
get_or-end (a ∷ arr) (suc j) h = get_or-end arr j (omega arith)

Chain-below :
    (arr : List Needle) (first : Option ℕ) (ids : List ℕ) (n : ℕ)
    → Chain arr first ids
    → length arr ≤ n
    → Apart n ids
Chain-below arr first [] n h le = tt
Chain-below arr first (i ∷ ids) n (here, inside, rest) le =
    (ground (arith, inside, le), Chain-below arr (needle_at arr i).next ids n rest le)

All-front :
    (i : ℕ) (ids free : List ℕ)
    → All (λ j. Apart j (i ∷ free)) ids
    → Apart i ids × All (λ j. Apart j free) ids
All-front i [] free h = (tt, tt)
All-front i (j ∷ ids) free (h, hs) =
    let (a, rest) = All-front i ids free hs in ((ground (arith, h.0), a), (h.1, rest))

All-nothing : (ids : List ℕ) → All (λ j. Apart j []) ids
All-nothing [] = tt
All-nothing (j ∷ ids) = (tt, All-nothing ids)

some_same : (i j : ℕ) → some i ≡ some j → i ≡ j
some_same i j e = ground (arith, e)

allocated-Allocated :
    (kr : KarpRabin) (v : IsLinked kr) (free : List ℕ)
    → free ≡ v.free
    → (o : Option ℕ) → o ≡ kr.needle_freelist
    → Allocated kr v ((allocated o kr).0) ((allocated o kr).1)
unfolding allocated
allocated-Allocated kr v (i ∷ free) same none e =
    let h : Chain kr.needlearr kr.needle_freelist (i ∷ free) =
      subst (λ (f : List ℕ). Chain kr.needlearr kr.needle_freelist f) (sym same) v.freed in
    absurd (ground (arith, h.0, e))
allocated-Allocated kr v [] same none e =
    let longer = length-append kr.needlearr (empty_needle ∷ []) in
    record {
      free' = [];
      in_range = omega (arith, longer);
      same_table = refl;
      same_mask = refl;
      grown = omega (arith, longer);
      kept = get_or-end kr.needlearr;
      unused = λ b.
          Chain-below kr.needlearr _ (v.ids b) (length kr.needlearr) (v.chained b) (omega arith);
      free_apart = tt;
      freed' = sym e;
      distinct' = tt;
      apart' = λ b. All-nothing (v.ids b);
      counted' = omega (arith, longer, v.counted);
    }
allocated-Allocated kr v [] same (some nid) e =
    let h : Chain kr.needlearr kr.needle_freelist [] =
      subst (λ (f : List ℕ). Chain kr.needlearr kr.needle_freelist f) (sym same) v.freed in
    absurd (ground (arith, h, e))
allocated-Allocated kr v (i ∷ free) same (some nid) e =
    let h : Chain kr.needlearr kr.needle_freelist (i ∷ free) =
      subst (λ (f : List ℕ). Chain kr.needlearr kr.needle_freelist f) (sym same) v.freed in
    let d : Distinct (i ∷ free) = subst (λ (f : List ℕ). Distinct f) (sym same) v.distinct in
    let a : (b : ℕ) → All (λ j. Apart j (i ∷ free)) (v.ids b) =
      subst (λ (f : List ℕ). (b : ℕ) → All (λ j. Apart j f) (v.ids b)) (sym same) v.apart in
    let here : i ≡ nid = some_same i nid (sym h.0 ∙ sym e) in
    let size : length (i ∷ free) ≡ length v.free = ap length same in
    rw (sym here) (record {
      free' = free;
      in_range = h.1;
      same_table = refl;
      same_mask = refl;
      grown = omega arith;
      kept = λ j inside. refl;
      unused = λ b. (All-front i (v.ids b) free (a b)).0;
      free_apart = d.0;
      freed' = h.2;
      distinct' = d.1;
      apart' = λ b. (All-front i (v.ids b) free (a b)).1;
      counted' = omega (arith, v.counted, size);
    })

pub allocate_needle-Allocated :
    (kr : KarpRabin) (v : IsLinked kr)
    → Allocated kr v ((allocate_needle kr).0) ((allocate_needle kr).1)
unfolding allocate_needle
allocate_needle-Allocated kr v = allocated-Allocated kr v v.free refl kr.needle_freelist refl
