-- ===== src/KarpRabin/Moves.antt =====
-- ase/gtcpp/karp_rabin.hpp: the needles as unregister_needle leaves them.
use ase.KarpRabin.{Needle, needle_at, set_next, set_prev, where_valid, is_id}
use ase.KarpRabin.Chains.{
  needle_at-set, where_valid-Same, set_prev-Same, length-set_prev, length-where_valid,
}
use ase.KarpRabin.Prevs.{prev-set_prev, prev-set_next, prev-where_valid, length-set_next}
use ase.Prelude.{
  ℕ, ◌<◌, ◌≡◌, refl, ◌∙◌, inl, inr, false, Option, none, some, List, arith, ◌==◌, if◌then◌else◌,
  ==_iff, ==_self, Bool-cases, length,
}

next-set_next :
    (next : Option ℕ) (i : ℕ) (arr : List Needle) (j : ℕ)
    → i < length arr
    → (needle_at (set_next next i arr) j).next ≡ (if i == j then next else (needle_at arr j).next)
unfolding set_next
next-set_next next i arr j h = elim (Bool-cases (i == j)) [
  | inl e ↦ rw (needle_at-set arr i _ j h, e) refl
  | inr e ↦ rw (needle_at-set arr i _ j h, e) refl
]

next-where_valid :
    (next o : Option ℕ) (arr : List Needle) (j : ℕ)
    → ((i : ℕ) → o ≡ some i → i < length arr)
    → (needle_at (where_valid (set_next next) o arr) j).next
      ≡ (if is_id j o then next else (needle_at arr j).next)
unfolding where_valid is_id
next-where_valid next none arr j valid = refl
next-where_valid next (some i) arr j valid = next-set_next next i arr j (valid i refl)

prev-where_valid_next :
    (next o : Option ℕ) (arr : List Needle) (j : ℕ)
    → ((i : ℕ) → o ≡ some i → i < length arr)
    → (needle_at (where_valid (set_next next) o arr) j).prev ≡ (needle_at arr j).prev
unfolding where_valid
prev-where_valid_next next none arr j valid = refl
prev-where_valid_next next (some i) arr j valid = prev-set_next next i arr j (valid i refl)

length-where_valid_next :
    (next o : Option ℕ) (arr : List Needle)
    → length (where_valid (set_next next) o arr) ≡ length arr
unfolding where_valid
length-where_valid_next next none arr = refl
length-where_valid_next next (some i) arr = length-set_next next i arr

abbrev pub bytes : Needle → ℕ × List ℕ
bytes n = (n.hashval, n.buffer)

bytes-set_next :
    (next : Option ℕ) (i : ℕ) (arr : List Needle) (j : ℕ)
    → i < length arr
    → bytes (needle_at (set_next next i arr) j) ≡ bytes (needle_at arr j)
unfolding set_next
bytes-set_next next i arr j h = elim (Bool-cases (i == j)) [
  | inl e ↦ let here : i ≡ j = (==_iff i j).0 e in rw (needle_at-set arr i _ j h, e, here) refl
  | inr e ↦ rw (needle_at-set arr i _ j h, e) refl
]

bytes-set_prev :
    (prev : Option ℕ) (i : ℕ) (arr : List Needle) (j : ℕ)
    → i < length arr
    → bytes (needle_at (set_prev prev i arr) j) ≡ bytes (needle_at arr j)
bytes-set_prev prev i arr j h =
    let s = set_prev-Same prev i arr j h in rw (s.same_hashval, s.same_buffer) refl

bytes-where_valid_next :
    (next o : Option ℕ) (arr : List Needle) (j : ℕ)
    → ((i : ℕ) → o ≡ some i → i < length arr)
    → bytes (needle_at (where_valid (set_next next) o arr) j) ≡ bytes (needle_at arr j)
unfolding where_valid
bytes-where_valid_next next none arr j valid = refl
bytes-where_valid_next next (some i) arr j valid = bytes-set_next next i arr j (valid i refl)

bytes-where_valid :
    (prev o : Option ℕ) (arr : List Needle) (j : ℕ)
    → ((i : ℕ) → o ≡ some i → i < length arr)
    → bytes (needle_at (where_valid (set_prev prev) o arr) j) ≡ bytes (needle_at arr j)
bytes-where_valid prev o arr j valid =
    let s = where_valid-Same prev o arr j valid in rw (s.same_hashval, s.same_buffer) refl

-- What is before a needle and what is after it linked to each other, and the needle put before a free list.
abbrev pub moved : Option ℕ → Option ℕ → List Needle → List Needle
moved before after arr =
    where_valid (set_prev before) after (where_valid (set_next after) before arr)

abbrev pub freed_needles : Option ℕ → ℕ → List Needle → List Needle
freed_needles free nid arr = set_prev none nid (set_next free nid arr)

module _ (before after free : Option ℕ) (nid : ℕ) (arr : List Needle) (inside : nid < length arr)
    (before_inside : (i : ℕ) → before ≡ some i → i < length arr)
    (after_inside : (i : ℕ) → after ≡ some i → i < length arr) where
  abbrev left : List Needle
  left = freed_needles free nid (moved before after arr)

  first_size : length (where_valid (set_next after) before arr) ≡ length arr
  first_size = length-where_valid_next after before arr

  moved_size : length (moved before after arr) ≡ length arr
  moved_size =
      length-where_valid before after (where_valid (set_next after) before arr) ∙ first_size

  pub left_size : length left ≡ length arr
  left_size =
      length-set_prev none nid (set_next free nid (moved before after arr))
      ∙ length-set_next free nid (moved before after arr)
      ∙ moved_size

  inside_moved : nid < length (moved before after arr)
  inside_moved = omega (arith, inside, moved_size)

  inside_freed : nid < length (set_next free nid (moved before after arr))
  inside_freed = omega (arith, inside_moved, length-set_next free nid (moved before after arr))

  after_first : (i : ℕ) → after ≡ some i → i < length (where_valid (set_next after) before arr)
  after_first i e = omega (arith, after_inside i e, first_size)

  pub left_next :
      (j : ℕ)
      → (nid == j) ≡ false
      → (needle_at left j).next ≡ (if is_id j before then after else (needle_at arr j).next)
  left_next j other =
      (set_prev-Same none nid (set_next free nid (moved before after arr)) j inside_freed).same_next
      ∙ rw (next-set_next free nid (moved before after arr) j inside_moved, other)
          ((where_valid-Same before after (where_valid (set_next after) before arr) j
              after_first).same_next
            ∙ next-where_valid after before arr j before_inside)

  pub left_nid : (needle_at left nid).next ≡ free
  left_nid =
      (set_prev-Same none nid (set_next free nid (moved before after arr)) nid
        inside_freed).same_next
      ∙ rw (next-set_next free nid (moved before after arr) nid inside_moved, ==_self nid) refl

  pub left_prev :
      (j : ℕ)
      → (nid == j) ≡ false
      → (needle_at left j).prev ≡ (if is_id j after then before else (needle_at arr j).prev)
  left_prev j other =
      rw
        (
          prev-set_prev none nid (set_next free nid (moved before after arr)) j inside_freed,
          other,
          prev-set_next free nid (moved before after arr) j inside_moved,
          prev-where_valid before after (where_valid (set_next after) before arr) j after_first,
          prev-where_valid_next after before arr j before_inside,
        )
        refl

  pub left_bytes : (j : ℕ) → bytes (needle_at left j) ≡ bytes (needle_at arr j)
  left_bytes j =
      bytes-set_prev none nid (set_next free nid (moved before after arr)) j inside_freed
      ∙ bytes-set_next free nid (moved before after arr) j inside_moved
      ∙ bytes-where_valid before after (where_valid (set_next after) before arr) j after_first
      ∙ bytes-where_valid_next after before arr j before_inside
