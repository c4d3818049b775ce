-- ===== src/KarpRabin/Prevs.antt =====
-- ase/gtcpp/karp_rabin.hpp: the links back, and what an update of a needle leaves of them.
use ase.KarpRabin.{Needle, needle_at, set_next, set_prev, set_bytes, where_valid, is_id}
use ase.KarpRabin.Chains.{needle_at-set, linked_needles, length-set_prev, length-where_valid}
use ase.Prelude.{
  ℕ, zero, suc, ◌+◌, ◌≤◌, ◌<◌, ◌≡◌, refl, sym, ◌∙◌, inl, inr, false, Option, none, some, List, [],
  ◌∷◌, arith, ◌==◌, if◌then◌else◌, ==_iff, Bool-cases, length, set, All, length-set,
}

-- Each of the needles `ids` links back to the one before it, the first to `before`.
abbrev pub Prevs : List Needle → Option ℕ → List ℕ → Type 0
Prevs arr before [] = Unit
Prevs arr before (i ∷ ids) = ((needle_at arr i).prev ≡ before) × Prevs arr (some i) ids

pub Prevs-same :
    (arr arr' : List Needle) (before : Option ℕ) (ids : List ℕ)
    → All (λ j. (needle_at arr' j).prev ≡ (needle_at arr j).prev) ids
    → Prevs arr before ids
    → Prevs arr' before ids
Prevs-same arr arr' before [] same h = tt
Prevs-same arr arr' before (i ∷ ids) same h =
    (same.0 ∙ h.0, Prevs-same arr arr' (some i) ids same.1 h.1)

set-prev :
    (arr : List Needle) (i : ℕ) (v : Needle) (j : ℕ)
    → i < length arr
    → (needle_at (set arr i v) j).prev ≡ (if i == j then v.prev else (needle_at arr j).prev)
set-prev arr i v j h = elim (Bool-cases (i == j)) [
  | inl e ↦ rw (needle_at-set arr i v j h, e) refl
  | inr e ↦ rw (needle_at-set arr i v j h, e) refl
]

set-prev-same :
    (arr : List Needle) (i : ℕ) (v : Needle) (j : ℕ)
    → i < length arr
    → v.prev ≡ (needle_at arr i).prev
    → (needle_at (set arr i v) j).prev ≡ (needle_at arr j).prev
set-prev-same arr i v j h same = elim (Bool-cases (i == j)) [
  | inl e ↦ let here : i ≡ j = (==_iff i j).0 e in rw (needle_at-set arr i v j h, e, sym here) same
  | inr e ↦ rw (needle_at-set arr i v j h, e) refl
]

pub prev-set_prev :
    (prev : Option ℕ) (i : ℕ) (arr : List Needle) (j : ℕ)
    → i < length arr
    → (needle_at (set_prev prev i arr) j).prev ≡ (if i == j then prev else (needle_at arr j).prev)
unfolding set_prev
prev-set_prev prev i arr j h = set-prev arr i _ j h

pub prev-set_next :
    (next : Option ℕ) (i : ℕ) (arr : List Needle) (j : ℕ)
    → i < length arr
    → (needle_at (set_next next i arr) j).prev ≡ (needle_at arr j).prev
unfolding set_next
prev-set_next next i arr j h = set-prev-same arr i _ j h refl

pub prev-where_valid :
    (prev o : Option ℕ) (arr : List Needle) (j : ℕ)
    → ((i : ℕ) → o ≡ some i → i < length arr)
    → (needle_at (where_valid (set_prev prev) o arr) j).prev
      ≡ (if is_id j o then prev else (needle_at arr j).prev)
unfolding where_valid is_id
prev-where_valid prev none arr j valid = refl
prev-where_valid prev (some i) arr j valid = prev-set_prev prev i arr j (valid i refl)

pub length-set_next :
    (next : Option ℕ) (i : ℕ) (arr : List Needle) → length (set_next next i arr) ≡ length arr
unfolding set_next
length-set_next next i arr = length-set arr i _

-- The links back of the needles as linked leaves them.
pub prev-linked_needles :
    (hashval : ℕ) (str : List ℕ) (entfirst : Option ℕ) (nid : ℕ) (arr : List Needle) (j : ℕ)
    → nid < length arr
    → ((i : ℕ) → entfirst ≡ some i → i < length arr)
    → (needle_at (linked_needles hashval str entfirst nid arr) j).prev
      ≡ (if is_id j entfirst then some nid else if nid == j then none else (needle_at arr j).prev)
unfolding set_bytes
prev-linked_needles hashval str entfirst nid arr j h valid =
    let a1 = set_next entfirst nid arr in
    let a2 = set_prev none nid a1 in
    let a3 = where_valid (set_prev (some nid)) entfirst a2 in
    let size1 = length-set_next entfirst nid arr in
    let size2 = length-set_prev none nid a1 in
    let size3 = length-where_valid (some nid) entfirst a2 in
    set-prev-same a3 nid _ j (omega (arith, h, size1, size2, size3)) refl
    ∙ prev-where_valid (some nid) entfirst a2 j (λ i e. omega (arith, valid i e, size1, size2))
    ∙ rw (prev-set_prev none nid a1 j (omega (arith, h, size1)), prev-set_next entfirst nid arr j h)
        refl

-- How many needles the first `n` buckets have.
unfoldable pub total : ℕ → (ℕ → List ℕ) → ℕ
total zero ids = 0
total (suc n) ids = length (ids n) + total n ids

pub total-le : (n : ℕ) (ids : ℕ → List ℕ) (b : ℕ) → b < n → length (ids b) ≤ total n ids
unfolding total
total-le zero ids b h = absurd (omega arith)
total-le (suc n) ids b h = elim (Bool-cases (b == n)) [
  | inl e ↦ let here : b ≡ n = (==_iff b n).0 e in rw here (omega arith)
  | inr e ↦ let below : b < n = ground (arith, e, h) in omega (arith, total-le n ids b below)
]

total-others :
    (n : ℕ) (ids ids' : ℕ → List ℕ)
    → ((b : ℕ) → b < n → length (ids' b) ≡ length (ids b))
    → total n ids' ≡ total n ids
unfolding total
total-others zero ids ids' same = refl
total-others (suc n) ids ids' same =
    omega (arith, same n (omega arith), total-others n ids ids' (λ b h. same b (omega arith)))

-- One bucket has one needle more.
pub total-more :
    (n : ℕ) (ids ids' : ℕ → List ℕ) (e : ℕ)
    → e < n
    → length (ids' e) ≡ suc (length (ids e))
    → ((b : ℕ) → (e == b) ≡ false → length (ids' b) ≡ length (ids b))
    → total n ids' ≡ suc (total n ids)
unfolding total
total-more zero ids ids' e h more same = absurd (omega arith)
total-more (suc n) ids ids' e h more same = elim (Bool-cases (e == n)) [
  | inl f ↦
      let here : e ≡ n = (==_iff e n).0 f in
      let rest = total-others n ids ids' (λ b below. same b (ground (arith, here, below))) in
      let top : length (ids' n) ≡ suc (length (ids n)) = rw (sym here) more in
      omega (arith, top, rest)
  | inr f ↦ omega (arith, same n f, total-more n ids ids' e (ground (arith, f, h)) more same)
]
