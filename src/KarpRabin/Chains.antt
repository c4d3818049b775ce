-- ===== src/KarpRabin/Chains.antt =====
-- ase/gtcpp/karp_rabin.hpp: the chains of needles, and what an update of a needle leaves of them.
use ase.Prelude.{
  ℕ, zero, suc, ◌≤◌, ◌<◌, ◌≡◌, refl, sym, ◌∙◌, inl, inr, false, Option, none, some, List, [], ◌∷◌,
  arith, ◌==◌, if◌then◌else◌, ==_iff, ==_self, Bool-cases, length, get_or, set, All, length-set,
}
use ase.KarpRabin.{
  Needle, empty_needle, needle_at, set_next, set_prev, set_bytes, where_valid, behind, chain, is_id,
}

-- The chain of the needles `ids` from the id `first` on, each linked to the next.
abbrev pub Chain : List Needle → Option ℕ → List ℕ → Type 0
Chain arr first [] = first ≡ none
Chain arr first (i ∷ ids) =
    (first ≡ some i) × (i < length arr) × Chain arr (needle_at arr i).next ids

-- None of `ids` is `i`.
abbrev pub Apart : ℕ → List ℕ → Type 0
Apart i ids = All (λ j. (i == j) ≡ false) ids

pub chain-Chain :
    (fuel : ℕ) (arr : List Needle) (first : Option ℕ) (ids : List ℕ)
    → Chain arr first ids
    → length ids ≤ fuel
    → chain fuel arr first ≡ some ids
unfolding chain behind
chain-Chain zero arr first [] h enough = rw h refl
chain-Chain (suc fuel) arr first [] h enough = rw h refl
chain-Chain zero arr first (i ∷ ids) h enough = absurd (omega arith)
chain-Chain (suc fuel) arr first (i ∷ ids) (here, inside, rest) enough =
    rw (here, chain-Chain fuel arr _ ids rest (omega arith)) refl

pub first-Apart :
    (arr : List Needle) (first : Option ℕ) (j : ℕ) (ids : List ℕ)
    → Chain arr first ids
    → Apart j ids
    → is_id j first ≡ false
unfolding is_id
first-Apart arr first j [] h apart = rw h refl
first-Apart arr first j (i ∷ ids) h apart = rw (h.0) (ground (arith, apart.0))

-- Needles that differ in `prev` at most.
pub record Same (a b : Needle) : Type 0 where
  pub same_next : a.next ≡ b.next
  pub same_hashval : a.hashval ≡ b.hashval
  pub same_buffer : a.buffer ≡ b.buffer

pub Same-self : (a : Needle) → Same a a
Same-self a = record { same_next = refl; same_hashval = refl; same_buffer = refl }

pub Same-trans : (a b c : Needle) → Same a b → Same b c → Same a c
Same-trans a b c s t = record {
  same_next = s.same_next ∙ t.same_next;
  same_hashval = s.same_hashval ∙ t.same_hashval;
  same_buffer = s.same_buffer ∙ t.same_buffer;
}

-- A chain without the needle `nid` when no other needle has changed but in `prev`.
pub Chain-Same :
    (nid : ℕ) (arr arr' : List Needle) (first : Option ℕ) (ids : List ℕ)
    → length arr ≤ length arr'
    → ((j : ℕ) → (nid == j) ≡ false → j < length arr → Same (needle_at arr' j) (needle_at arr j))
    → Apart nid ids
    → Chain arr first ids
    → Chain arr' first ids
Chain-Same nid arr arr' first [] size same apart h = h
Chain-Same nid arr arr' first (i ∷ ids) size same apart (here, inside, rest) =
    let s = same i apart.0 inside in
    (
      here,
      omega (arith, inside, size),
      rw (s.same_next) (Chain-Same nid arr arr' (needle_at arr i).next ids size same apart.1 rest),
    )

pub get_or-set :
    {A : Type 0} (xs : List A) (i : ℕ) (v : A) (j : ℕ) (d : A)
    → i < length xs
    → get_or (set xs i v) j d ≡ (if i == j then v else get_or xs j d)
get_or-set [] i v j d h = absurd (omega arith)
get_or-set (x ∷ xs) zero v zero d h = refl
get_or-set (x ∷ xs) zero v (suc j) d h =
    let other : (0 == suc j) ≡ false = ground arith in rw other refl
get_or-set (x ∷ xs) (suc i) v zero d h =
    let other : (suc i == 0) ≡ false = ground arith in rw other refl
get_or-set (x ∷ xs) (suc i) v (suc j) d h =
    let below : (suc i == suc j) ≡ (i == j) = ground arith in
    rw below (get_or-set xs i v j d (omega arith))

pub needle_at-set :
    (arr : List Needle) (i : ℕ) (v : Needle) (j : ℕ)
    → i < length arr
    → needle_at (set arr i v) j ≡ (if i == j then v else needle_at arr j)
unfolding needle_at
needle_at-set arr i v j h = get_or-set arr i v j empty_needle h

set_self :
    (arr : List Needle) (i : ℕ) (v : Needle) (j : ℕ)
    → i < length arr
    → Same v (needle_at arr i)
    → Same (needle_at (set arr i v) j) (needle_at arr j)
set_self arr i v j h same = elim (Bool-cases (i == j)) [
  | inl e ↦ let here : i ≡ j = (==_iff i j).0 e in rw (needle_at-set arr i v j h, e, sym here) same
  | inr e ↦ rw (needle_at-set arr i v j h, e) (Same-self _)
]

pub set_prev-Same :
    (prev : Option ℕ) (i : ℕ) (arr : List Needle) (j : ℕ)
    → i < length arr
    → Same (needle_at (set_prev prev i arr) j) (needle_at arr j)
unfolding set_prev
set_prev-Same prev i arr j h =
    set_self arr i _ j h (record { same_next = refl; same_hashval = refl; same_buffer = refl })

pub length-set_prev :
    (prev : Option ℕ) (i : ℕ) (arr : List Needle) → length (set_prev prev i arr) ≡ length arr
unfolding set_prev
length-set_prev prev i arr = length-set arr i _

pub where_valid-Same :
    (prev o : Option ℕ) (arr : List Needle) (j : ℕ)
    → ((i : ℕ) → o ≡ some i → i < length arr)
    → Same (needle_at (where_valid (set_prev prev) o arr) j) (needle_at arr j)
unfolding where_valid
where_valid-Same prev none arr j valid = Same-self _
where_valid-Same prev (some i) arr j valid = set_prev-Same prev i arr j (valid i refl)

pub length-where_valid :
    (prev o : Option ℕ) (arr : List Needle)
    → length (where_valid (set_prev prev) o arr) ≡ length arr
unfolding where_valid set_prev
length-where_valid prev none arr = refl
length-where_valid prev (some i) arr = length-set arr i _

-- The needles as linked leaves them.
abbrev pub linked_needles : ℕ → List ℕ → Option ℕ → ℕ → List Needle → List Needle
linked_needles hashval str entfirst nid arr =
    set_bytes hashval str nid
      (where_valid (set_prev (some nid)) entfirst (set_prev none nid (set_next entfirst nid arr)))

pub length-linked_needles :
    (hashval : ℕ) (str : List ℕ) (entfirst : Option ℕ) (nid : ℕ) (arr : List Needle)
    → length (linked_needles hashval str entfirst nid arr) ≡ length arr
unfolding set_bytes set_prev set_next
length-linked_needles hashval str entfirst nid arr =
    length-set (where_valid (set_prev (some nid)) entfirst _) nid _
    ∙ length-where_valid (some nid) entfirst _
    ∙ length-set (set arr nid _) nid _
    ∙ length-set arr nid _

pub linked_needles-Same :
    (hashval : ℕ) (str : List ℕ) (entfirst : Option ℕ) (nid : ℕ) (arr : List Needle) (j : ℕ)
    → nid < length arr
    → ((i : ℕ) → entfirst ≡ some i → i < length arr)
    → Same (needle_at (linked_needles hashval str entfirst nid arr) j) (
        if nid == j
        then record { next = entfirst; prev = none; hashval = hashval; buffer = str }
        else needle_at arr j)
unfolding set_bytes set_next
linked_needles-Same hashval str entfirst nid arr j h valid =
    let a1 = set_next entfirst nid arr in
    let a2 = set_prev none nid a1 in
    let a3 = where_valid (set_prev (some nid)) entfirst a2 in
    let size1 : length a1 ≡ length arr = length-set arr nid _ in
    let size2 : length a2 ≡ length arr = length-set_prev none nid a1 ∙ size1 in
    let size3 : length a3 ≡ length arr = length-where_valid (some nid) entfirst a2 ∙ size2 in
    let back = λ (i : ℕ).
      Same-trans (needle_at a3 i) (needle_at a2 i) (needle_at a1 i)
        (where_valid-Same (some nid) entfirst a2 i (λ e h'. omega (arith, valid e h', size2)))
        (set_prev-Same none nid a1 i (omega (arith, h, size1))) in
    let inside : nid < length a3 = omega (arith, h, size3) in
    let new = record (needle_at a3 nid) { hashval = hashval; buffer = str } in
    let linked : (needle_at a1 nid).next ≡ entfirst =
      rw (needle_at-set arr nid (record (needle_at arr nid) { next = entfirst }) nid h, ==_self nid)
        refl in
    elim (Bool-cases (nid == j)) [
      | inl e ↦
          rw (needle_at-set a3 nid new j inside, e)
            (record {
              same_next = (back nid).same_next ∙ linked;
              same_hashval = refl;
              same_buffer = refl;
            })
      | inr e ↦
          let other : needle_at a1 j ≡ needle_at arr j =
            rw (needle_at-set arr nid (record (needle_at arr nid) { next = entfirst }) j h, e)
              refl in
          rw (needle_at-set a3 nid new j inside, e) (rw (sym other) (back j))
    ]
