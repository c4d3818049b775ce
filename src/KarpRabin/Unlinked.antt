-- ===== src/KarpRabin/Unlinked.antt =====
-- ase/gtcpp/karp_rabin.hpp: the bucket that a needle is linked out of is one chain again.
use ase.KarpRabin.{Needle, needle_at, is_id}
use ase.KarpRabin.Chains.{Chain, Apart}
use ase.KarpRabin.Prevs.{Prevs, Prevs-same}
use ase.KarpRabin.Buckets.{Distinct}
use ase.KarpRabin.Unlink.{without, lists, without-Apart, Chain-next, before-Apart, after-Apart}
use ase.Prelude.{
  ℕ, ◌≤◌, ◌≡◌, refl, inl, inr, true, false, Option, some, List, [], ◌∷◌, arith, ◌==◌, if◌then◌else◌,
  ==_iff, ==_self, Bool-cases, length, All,
}

-- The needles before and after `nid` are linked to each other, and no other needle has changed its links.
pub record Unlinked (arr : List Needle) (nid : ℕ) (arr' : List Needle) : Type 0 where
  pub size : length arr ≤ length arr'
  pub nexts :
      (j : ℕ)
      → (nid == j) ≡ false
      → (needle_at arr' j).next ≡ (
          if is_id j (needle_at arr nid).prev
          then (needle_at arr nid).next
          else (needle_at arr j).next)
  pub backs :
      (j : ℕ)
      → (nid == j) ≡ false
      → (needle_at arr' j).prev ≡ (
          if is_id j (needle_at arr nid).next
          then (needle_at arr nid).prev
          else (needle_at arr j).prev)

module _ (arr : List Needle) (nid : ℕ) (arr' : List Needle) (u : Unlinked arr nid arr') where
  pub kept_nexts :
      (ids : List ℕ)
      → Apart nid ids
      → All (λ j. is_id j (needle_at arr nid).prev ≡ false) ids
      → All (λ j. (needle_at arr' j).next ≡ (needle_at arr j).next) ids
  kept_nexts [] apart other = tt
  kept_nexts (j ∷ ids) apart other =
      (rw (u.nexts j apart.0, other.0) refl, kept_nexts ids apart.1 other.1)

  pub kept_backs :
      (ids : List ℕ)
      → Apart nid ids
      → All (λ j. is_id j (needle_at arr nid).next ≡ false) ids
      → All (λ j. (needle_at arr' j).prev ≡ (needle_at arr j).prev) ids
  kept_backs [] apart other = tt
  kept_backs (j ∷ ids) apart other =
      (rw (u.backs j apart.0, other.0) refl, kept_backs ids apart.1 other.1)

  same_next :
      (i : ℕ) (ids : List ℕ)
      → (nid == i) ≡ false
      → lists nid ids ≡ true
      → Chain arr (needle_at arr i).next ids
      → Prevs arr (some i) ids
      → Apart i ids
      → (needle_at arr' i).next ≡ (
          if is_id nid (needle_at arr i).next
          then (needle_at arr nid).next
          else (needle_at arr i).next)
  unfolding lists is_id
  same_next i [] other h chained prevs apart = absurd (ground (arith, h))
  same_next i (k ∷ ids) other h chained prevs apart = elim (Bool-cases (nid == k)) [
    | inl e ↦
        let here : nid ≡ k = (==_iff nid k).0 e in
        let before : (needle_at arr nid).prev ≡ some i = rw here (prevs.0) in
        rw (u.nexts i other, before, ==_self i, chained.0, here, ==_self k) refl
    | inr e ↦
        let later : lists nid ids ≡ true = rw e at h in
        let not_before : is_id i (needle_at arr nid).prev ≡ false =
          before-Apart arr nid i (some k) ids later prevs.1 (ground (arith, apart.0)) apart.1 in
        let not_here : (k == nid) ≡ false = ground (arith, e) in
        rw (u.nexts i other, not_before, chained.0, not_here) refl
  ]

  pub unlinked-Chain :
      (first before : Option ℕ) (ids : List ℕ)
      → lists nid ids ≡ true
      → Chain arr first ids
      → Prevs arr before ids
      → Distinct ids
      → All (λ j. is_id j before ≡ false) ids
      → Chain arr' (if is_id nid first then (needle_at arr nid).next else first) (without nid ids)
  unfolding lists is_id without
  unlinked-Chain first before [] h chained prevs distinct apart = absurd (ground (arith, h))
  unlinked-Chain first before (i ∷ ids) h chained prevs distinct apart =
      elim (Bool-cases (nid == i)) [
        | inl e ↦
            let here : nid ≡ i = (==_iff nid i).0 e in
            let others : Apart nid ids = rw here (distinct.0) in
            let front : (needle_at arr nid).prev ≡ before = rw here (prevs.0) in
            let rest : Chain arr (needle_at arr nid).next ids = rw here (chained.2) in
            let back : (i == nid) ≡ true = ground (arith, e) in
            rw (e, chained.0, back, without-Apart nid ids others)
              (Chain-next arr arr' (needle_at arr nid).next ids u.size
                (kept_nexts ids others (rw front (apart.1))) rest)
        | inr e ↦
            let later : lists nid ids ≡ true = rw e at h in
            let not_here : (i == nid) ≡ false = ground (arith, e) in
            rw (e, chained.0, not_here)
              (
                refl,
                omega (arith, chained.1, u.size),
                rw (same_next i ids e later chained.2 prevs.1 distinct.0) (
                    unlinked-Chain (needle_at arr i).next (some i) ids later chained.2 prevs.1
                      distinct.1 distinct.0),
              )
      ]

  first_back :
      (before : Option ℕ) (ids : List ℕ)
      → Chain arr (needle_at arr nid).next ids
      → (needle_at arr nid).prev ≡ before
      → Prevs arr (some nid) ids
      → Apart nid ids
      → Distinct ids
      → Prevs arr' before ids
  unfolding is_id
  first_back before [] chained front prevs apart distinct = tt
  first_back before (k ∷ ids) chained front prevs apart distinct = (
    rw (u.backs k apart.0, chained.0, ==_self k) front,
    Prevs-same arr arr' (some k) ids (kept_backs ids apart.1 (rw (chained.0) (distinct.0))) prevs.1,
  )

  pub unlinked-Prevs :
      (first before : Option ℕ) (ids : List ℕ)
      → lists nid ids ≡ true
      → Chain arr first ids
      → Prevs arr before ids
      → Distinct ids
      → Prevs arr' before (without nid ids)
  unfolding lists without
  unlinked-Prevs first before [] h chained prevs distinct = absurd (ground (arith, h))
  unlinked-Prevs first before (i ∷ ids) h chained prevs distinct = elim (Bool-cases (nid == i)) [
    | inl e ↦
        let here : nid ≡ i = (==_iff nid i).0 e in
        let others : Apart nid ids = rw here (distinct.0) in
        rw (e, without-Apart nid ids others)
          (first_back before ids (rw here (chained.2)) (rw here (prevs.0)) (rw here (prevs.1))
            others distinct.1)
    | inr e ↦
        let later : lists nid ids ≡ true = rw e at h in
        rw e (
          rw
              (
                u.backs i e,
                after-Apart arr nid i (needle_at arr i).next ids later chained.2 distinct.0,
              )
              (prevs.0),
          unlinked-Prevs (needle_at arr i).next (some i) ids later chained.2 prevs.1 distinct.1,
        )
  ]
