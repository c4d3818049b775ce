-- ===== src/KarpRabin/Neighbours.antt =====
-- ase/gtcpp/karp_rabin.hpp: the needles before and after one of a bucket, and those of other chains.
use ase.KarpRabin.{Needle, KarpRabin, needle_at, first_needle, is_needle, is_id}
use ase.KarpRabin.Chains.{Chain, Apart}
use ase.KarpRabin.Prevs.{Prevs}
use ase.KarpRabin.Places.{first_inside}
use ase.KarpRabin.Unlink.{lists, before-Apart, after-Apart}
use ase.KarpRabin.Moves.{bytes}
use ase.Prelude.{
  ℕ, ◌<◌, ◌≡◌, refl, sym, ap, ◌∙◌, inl, inr, true, false, Option, none, some, List, [], ◌∷◌, arith,
  ◌==◌, ==_iff, Bool-cases, length, All,
}

pub lists-inside :
    (arr : List Needle) (nid : ℕ) (first : Option ℕ) (ids : List ℕ)
    → lists nid ids ≡ true
    → Chain arr first ids
    → nid < length arr
unfolding lists
lists-inside arr nid first [] h chained = absurd (ground (arith, h))
lists-inside arr nid first (i ∷ ids) h chained = elim (Bool-cases (nid == i)) [
  | inl e ↦ let here : nid ≡ i = (==_iff nid i).0 e in omega (arith, here, chained.1)
  | inr e ↦
      let later : lists nid ids ≡ true = rw e at h in
      lists-inside arr nid (needle_at arr i).next ids later chained.2
]

pub after_inside :
    (arr : List Needle) (nid : ℕ) (first : Option ℕ) (ids : List ℕ)
    → lists nid ids ≡ true
    → Chain arr first ids
    → (i : ℕ) → (needle_at arr nid).next ≡ some i
    → i < length arr
unfolding lists
after_inside arr nid first [] h chained i e = absurd (ground (arith, h))
after_inside arr nid first (k ∷ ids) h chained i e = elim (Bool-cases (nid == k)) [
  | inl f ↦
      let here : nid ≡ k = (==_iff nid k).0 f in
      first_inside arr (needle_at arr k).next ids i chained.2 (rw here at e)
  | inr f ↦
      let later : lists nid ids ≡ true = rw f at h in
      after_inside arr nid (needle_at arr k).next ids later chained.2 i e
]

pub before_inside :
    (arr : List Needle) (nid : ℕ) (first before : Option ℕ) (ids : List ℕ)
    → lists nid ids ≡ true
    → Chain arr first ids
    → Prevs arr before ids
    → ((i : ℕ) → before ≡ some i → i < length arr)
    → (i : ℕ) → (needle_at arr nid).prev ≡ some i
    → i < length arr
unfolding lists
before_inside arr nid first before [] h chained prevs valid i e = absurd (ground (arith, h))
before_inside arr nid first before (k ∷ ids) h chained prevs valid i e =
    elim (Bool-cases (nid == k)) [
      | inl f ↦ let here : nid ≡ k = (==_iff nid k).0 f in valid i (sym prevs.0 ∙ (rw here at e))
      | inr f ↦
          let later : lists nid ids ≡ true = rw f at h in
          before_inside arr nid (needle_at arr k).next (some k) ids later chained.2 prevs.1
            (λ j g. let same : k ≡ j = ground (arith, g) in omega (arith, same, chained.1)) i e
    ]

-- The first needle of a bucket has none before it.
pub first_before :
    (arr : List Needle) (nid : ℕ) (first : Option ℕ) (ids : List ℕ)
    → Chain arr first ids
    → Prevs arr none ids
    → is_id nid first ≡ true
    → (needle_at arr nid).prev ≡ none
unfolding is_id
first_before arr nid first [] chained prevs h =
    let no = rw (chained) at h in absurd (ground (arith, no))
first_before arr nid first (i ∷ ids) chained prevs h =
    let this : (i == nid) ≡ true = rw (chained.0) at h in
    let here : i ≡ nid = (==_iff i nid).0 this in rw (sym here) (prevs.0)

pub All-lists : (P : ℕ → Type 0) (nid : ℕ) (ids : List ℕ) → lists nid ids ≡ true → All P ids → P nid
unfolding lists
All-lists P nid [] h all = absurd (ground (arith, h))
All-lists P nid (i ∷ ids) h all = elim (Bool-cases (nid == i)) [
  | inl e ↦ let here : nid ≡ i = (==_iff nid i).0 e in rw here (all.0)
  | inr e ↦ let later : lists nid ids ≡ true = rw e at h in All-lists P nid ids later all.1
]

pub All-Apart_nil : (ys : List ℕ) → All (λ j. Apart j []) ys
All-Apart_nil [] = tt
All-Apart_nil (y ∷ ys) = (tt, All-Apart_nil ys)

pub All-Apart_cons :
    (x : ℕ) (xs ys : List ℕ)
    → Apart x ys
    → All (λ j. Apart j xs) ys
    → All (λ j. Apart j (x ∷ xs)) ys
All-Apart_cons x xs [] h hs = tt
All-Apart_cons x xs (y ∷ ys) h hs = ((ground (arith, h.0), hs.0), All-Apart_cons x xs ys h.1 hs.1)

pub All-Apart_flip : (xs ys : List ℕ) → All (λ i. Apart i ys) xs → All (λ j. Apart j xs) ys
All-Apart_flip [] ys h = All-Apart_nil ys
All-Apart_flip (x ∷ xs) ys h = All-Apart_cons x xs ys h.0 (All-Apart_flip xs ys h.1)

pub not_before :
    (arr : List Needle) (nid : ℕ) (ids js : List ℕ)
    → lists nid ids ≡ true
    → Prevs arr none ids
    → All (λ j. Apart j ids) js
    → All (λ j. is_id j (needle_at arr nid).prev ≡ false) js
unfolding is_id
not_before arr nid ids [] h prevs apart = tt
not_before arr nid ids (j ∷ js) h prevs apart = (
  before-Apart arr nid j none ids h prevs refl apart.0,
  not_before arr nid ids js h prevs apart.1,
)

pub not_after :
    (arr : List Needle) (nid : ℕ) (first : Option ℕ) (ids js : List ℕ)
    → lists nid ids ≡ true
    → Chain arr first ids
    → All (λ j. Apart j ids) js
    → All (λ j. is_id j (needle_at arr nid).next ≡ false) js
not_after arr nid first ids [] h chained apart = tt
not_after arr nid first ids (j ∷ js) h chained apart = (
  after-Apart arr nid j first ids h chained apart.0,
  not_after arr nid first ids js h chained apart.1,
)

pub nothing_before : (ids : List ℕ) → All (λ j. is_id j none ≡ false) ids
unfolding is_id
nothing_before [] = tt
nothing_before (i ∷ ids) = (refl, nothing_before ids)

pub first_needle-bytes :
    (kr kr' : KarpRabin) (hv : ℕ) (s : List ℕ) (ids : List ℕ)
    → ((j : ℕ) → bytes (needle_at kr'.needlearr j) ≡ bytes (needle_at kr.needlearr j))
    → first_needle kr' hv s ids ≡ first_needle kr hv s ids
unfolding first_needle is_needle
first_needle-bytes kr kr' hv s [] same = refl
first_needle-bytes kr kr' hv s (i ∷ ids) same =
    rw (ap (λ p. p.0) (same i), ap (λ p. p.1) (same i), first_needle-bytes kr kr' hv s ids same)
      refl
