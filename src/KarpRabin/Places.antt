-- ===== src/KarpRabin/Places.antt =====
-- ase/gtcpp/karp_rabin.hpp: the places of the needles in the table, and the bucket that find_needle visits.
use native.Mathlib.Nat.{mod-lt, one-le-pow}
use ase.KarpRabin.{
  Needle, KarpRabin, is_id, needle_at, entpos, first_of, bucket, is_needle, first_needle, first_in,
  find_needle,
}
use ase.KarpRabin.Chains.{first-Apart, Chain, Apart, chain-Chain, Same}
use ase.KarpRabin.Prevs.{total-le}
use ase.KarpRabin.Buckets.{IsLinked}
use ase.Prelude.Bits.{bit_and_low}
use ase.Prelude.{
  ℕ, ◌^◌, ◌<◌, ◌≡◌, refl, sym, ap, ◌∙◌, inl, inr, false, Option, none, some, List, [], ◌∷◌, arith,
  ◌==◌, ==_iff, Bool-cases, length, get_or, All,
}

pub first_inside :
    (arr : List Needle) (first : Option ℕ) (ids : List ℕ) (i : ℕ)
    → Chain arr first ids
    → first ≡ some i
    → i < length arr
first_inside arr first [] i h e = absurd (ground (arith, h, e))
first_inside arr first (j ∷ ids) i h e =
    let here : j ≡ i = ground (arith, h.0, e) in omega (arith, here, h.1)

pub first_needle-Same :
    (kr kr' : KarpRabin) (nid hv : ℕ) (s : List ℕ) (first : Option ℕ) (ids : List ℕ)
    → ((j : ℕ)
        → (nid == j) ≡ false
        → j < length kr.needlearr
        → Same (needle_at kr'.needlearr j) (needle_at kr.needlearr j))
    → Apart nid ids
    → Chain kr.needlearr first ids
    → first_needle kr' hv s ids ≡ first_needle kr hv s ids
unfolding first_needle is_needle
first_needle-Same kr kr' nid hv s first [] same apart h = refl
first_needle-Same kr kr' nid hv s first (i ∷ ids) same apart h =
    let t = same i apart.0 h.1 in
    rw
      (
        t.same_hashval,
        t.same_buffer,
        first_needle-Same kr kr' nid hv s (needle_at kr.needlearr i).next ids same apart.1 h.2,
      )
      refl

pub entpos-lt : (kr : KarpRabin) (hv : ℕ) → IsLinked kr → entpos hv kr < length kr.table
unfolding entpos
entpos-lt kr hv v =
    rw (v.size, v.mask, bit_and_low v.bits hv) (mod-lt hv (one-le-pow v.bits 2 (omega arith)))

pub find_needle-ids :
    (kr : KarpRabin) (hv : ℕ) (s : List ℕ) (v : IsLinked kr)
    → find_needle kr hv s ≡ first_needle kr hv s (v.ids (entpos hv kr))
unfolding find_needle bucket first_of first_in
find_needle-ids kr hv s v =
    let b = entpos hv kr in
    let inside : b < 2 ^ v.bits = omega (arith, entpos-lt kr hv v, v.size) in
    rw
      (chain-Chain (length kr.needlearr) kr.needlearr (get_or kr.table b none) (v.ids b)
        (v.chained b) (omega (arith, v.counted, total-le (2 ^ v.bits) v.ids b inside)))
      refl

pub not_first :
    (arr : List Needle) (first : Option ℕ) (ids js : List ℕ)
    → Chain arr first ids
    → All (λ j. Apart j ids) js
    → All (λ j. is_id j first ≡ false) js
not_first arr first ids [] h apart = tt
not_first arr first ids (j ∷ js) h apart =
    (first-Apart arr first j ids h apart.0, not_first arr first ids js h apart.1)

pub placed-Apart :
    (kr : KarpRabin) (e b : ℕ) (j : ℕ) (ids : List ℕ)
    → (e == b) ≡ false
    → entpos ((needle_at kr.needlearr j).hashval) kr ≡ b
    → All (λ i. entpos ((needle_at kr.needlearr i).hashval) kr ≡ e) ids
    → Apart j ids
placed-Apart kr e b j [] f here h = tt
placed-Apart kr e b j (i ∷ ids) f here h = (
  elim (Bool-cases (j == i)) [
    | inl g ↦
        let same : j ≡ i = (==_iff j i).0 g in
        let both : e ≡ b =
          sym h.0 ∙ sym (ap (λ n. entpos ((needle_at kr.needlearr n).hashval) kr) same) ∙ here in
        absurd (ground (arith, f, both))
    | inr g ↦ g
  ],
  placed-Apart kr e b j ids f here h.1,
)

pub placed-Apart-All :
    (kr : KarpRabin) (e b : ℕ) (js ids : List ℕ)
    → (e == b) ≡ false
    → All (λ i. entpos ((needle_at kr.needlearr i).hashval) kr ≡ b) js
    → All (λ i. entpos ((needle_at kr.needlearr i).hashval) kr ≡ e) ids
    → All (λ j. Apart j ids) js
placed-Apart-All kr e b [] ids f here h = tt
placed-Apart-All kr e b (j ∷ js) ids f here h =
    (placed-Apart kr e b j ids f here.0 h, placed-Apart-All kr e b js ids f here.1 h)

-- No needle is in two buckets.
pub Apart-buckets :
    (kr : KarpRabin) (v : IsLinked kr) (e b : ℕ)
    → (e == b) ≡ false
    → All (λ j. Apart j (v.ids e)) (v.ids b)
Apart-buckets kr v e b f = placed-Apart-All kr e b (v.ids b) (v.ids e) f (v.placed b) (v.placed e)
