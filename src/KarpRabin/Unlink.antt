-- ===== src/KarpRabin/Unlink.antt =====
-- ase/gtcpp/karp_rabin.hpp: the chains of a bucket when one of its needles is linked out of it.
use ase.KarpRabin.{Needle, needle_at, is_id}
use ase.KarpRabin.Chains.{Chain, Apart, first-Apart}
use ase.KarpRabin.Prevs.{Prevs}
use ase.KarpRabin.Buckets.{Distinct}
use ase.Prelude.{
  ℕ, suc, ◌≤◌, ◌≡◌, refl, ap, inl, inr, Bool, true, false, ◌||◌, Option, some, List, [], ◌∷◌, arith,
  ◌==◌, if◌then◌else◌, ==_iff, Bool-cases, length, All,
}

-- The needles but `nid`.
unfoldable pub without : ℕ → List ℕ → List ℕ
without nid [] = []
without nid (i ∷ ids) = if nid == i then without nid ids else i ∷ without nid ids

unfoldable pub lists : ℕ → List ℕ → Bool
lists nid [] = false
lists nid (i ∷ ids) = (nid == i) || lists nid ids

pub without-Apart : (nid : ℕ) (ids : List ℕ) → Apart nid ids → without nid ids ≡ ids
unfolding without
without-Apart nid [] h = refl
without-Apart nid (i ∷ ids) h = rw (h.0, without-Apart nid ids h.1) refl

pub Apart-without : (nid i : ℕ) (ids : List ℕ) → Apart i ids → Apart i (without nid ids)
unfolding without
Apart-without nid i [] h = tt
Apart-without nid i (j ∷ ids) h = elim (Bool-cases (nid == j)) [
  | inl e ↦ rw e (Apart-without nid i ids h.1)
  | inr e ↦ rw e (h.0, Apart-without nid i ids h.1)
]

pub All-without : (P : ℕ → Type 0) (nid : ℕ) (ids : List ℕ) → All P ids → All P (without nid ids)
unfolding without
All-without P nid [] h = tt
All-without P nid (j ∷ ids) h = elim (Bool-cases (nid == j)) [
  | inl e ↦ rw e (All-without P nid ids h.1)
  | inr e ↦ rw e (h.0, All-without P nid ids h.1)
]

pub without-Distinct : (nid : ℕ) (ids : List ℕ) → Distinct ids → Distinct (without nid ids)
unfolding without
without-Distinct nid [] h = tt
without-Distinct nid (j ∷ ids) h = elim (Bool-cases (nid == j)) [
  | inl e ↦ rw e (without-Distinct nid ids h.1)
  | inr e ↦ rw e (Apart-without nid j ids h.0, without-Distinct nid ids h.1)
]

pub without-Apart_self : (nid : ℕ) (ids : List ℕ) → Apart nid (without nid ids)
unfolding without
without-Apart_self nid [] = tt
without-Apart_self nid (j ∷ ids) = elim (Bool-cases (nid == j)) [
  | inl e ↦ rw e (without-Apart_self nid ids)
  | inr e ↦ rw e (e, without-Apart_self nid ids)
]

pub length-without :
    (nid : ℕ) (ids : List ℕ)
    → lists nid ids ≡ true
    → Distinct ids
    → suc (length (without nid ids)) ≡ length ids
unfolding without lists
length-without nid [] h d = absurd (ground (arith, h))
length-without nid (j ∷ ids) h d = elim (Bool-cases (nid == j)) [
  | inl e ↦
      let here : nid ≡ j = (==_iff nid j).0 e in rw (e, without-Apart nid ids (rw here (d.0))) refl
  | inr e ↦
      let later : lists nid ids ≡ true = rw e at h in
      rw e (ap suc (length-without nid ids later d.1))
]

pub Chain-next :
    (arr arr' : List Needle) (first : Option ℕ) (ids : List ℕ)
    → length arr ≤ length arr'
    → All (λ j. (needle_at arr' j).next ≡ (needle_at arr j).next) ids
    → Chain arr first ids
    → Chain arr' first ids
Chain-next arr arr' first [] size same h = h
Chain-next arr arr' first (i ∷ ids) size same h = (
  h.0,
  omega (arith, h.1, size),
  rw (same.0) (Chain-next arr arr' (needle_at arr i).next ids size same.1 h.2),
)

-- What is before `nid` in a bucket is not `i` when none of its needles is, and what is after it neither.
pub before-Apart :
    (arr : List Needle) (nid i : ℕ) (before : Option ℕ) (ids : List ℕ)
    → lists nid ids ≡ true
    → Prevs arr before ids
    → is_id i before ≡ false
    → Apart i ids
    → is_id i (needle_at arr nid).prev ≡ false
unfolding lists is_id
before-Apart arr nid i before [] h prevs other apart = absurd (ground (arith, h))
before-Apart arr nid i before (j ∷ ids) h prevs other apart = elim (Bool-cases (nid == j)) [
  | inl e ↦ let here : nid ≡ j = (==_iff nid j).0 e in rw (here, prevs.0) other
  | inr e ↦
      let later : lists nid ids ≡ true = rw e at h in
      before-Apart arr nid i (some j) ids later prevs.1 (ground (arith, apart.0)) apart.1
]

pub after-Apart :
    (arr : List Needle) (nid i : ℕ) (first : Option ℕ) (ids : List ℕ)
    → lists nid ids ≡ true
    → Chain arr first ids
    → Apart i ids
    → is_id i (needle_at arr nid).next ≡ false
unfolding lists
after-Apart arr nid i first [] h chained apart = absurd (ground (arith, h))
after-Apart arr nid i first (j ∷ ids) h chained apart = elim (Bool-cases (nid == j)) [
  | inl e ↦
      let here : nid ≡ j = (==_iff nid j).0 e in
      rw here (first-Apart arr (needle_at arr j).next i ids chained.2 apart.1)
  | inr e ↦
      let later : lists nid ids ≡ true = rw e at h in
      after-Apart arr nid i (needle_at arr j).next ids later chained.2 apart.1
]
