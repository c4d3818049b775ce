-- ===== src/KarpRabin/Removed.antt =====
-- ase/gtcpp/karp_rabin.hpp: what unregister_needle leaves.
use ase.KarpRabin.{
  Needle, KarpRabin, needle_at, entpos, is_id, where_valid, deallocate_needle, unregister_needle,
}
use ase.KarpRabin.Chains.{get_or-set}
use ase.KarpRabin.Buckets.{IsLinked}
use ase.KarpRabin.Places.{entpos-lt}
use ase.KarpRabin.Unlink.{lists}
use ase.KarpRabin.Unlinked.{Unlinked}
use ase.KarpRabin.Moves.{
  bytes, moved, freed_needles, left_size, left_next, left_nid, left_prev, left_bytes,
}
use ase.KarpRabin.Neighbours.{lists-inside, after_inside, before_inside, first_before}
use ase.Prelude.{
  ℕ, zero, suc, ◌<◌, ◌≡◌, refl, ap, inl, inr, true, Option, none, some, List, [], ◌∷◌, arith, ◌==◌,
  if◌then◌else◌, Bool-cases, length, get_or, set, length-set,
}

-- The needles and the table as unregister_needle leaves them.
unfoldable pub unlinked : ℕ → KarpRabin → KarpRabin
unlinked nid kr =
    let n = needle_at kr.needlearr nid in
    let place = entpos n.hashval kr in
    let first = get_or kr.table place none in
    record kr {
      table = set kr.table place (if is_id nid first then n.next else first);
      needlearr = freed_needles kr.needle_freelist nid (moved n.prev n.next kr.needlearr);
      needle_freelist = some nid;
    }

set_unchanged : (table : List (Option ℕ)) (i : ℕ) → set table i (get_or table i none) ≡ table
set_unchanged [] i = refl
set_unchanged (x ∷ table) zero = refl
set_unchanged (x ∷ table) (suc i) = ap (λ t. x ∷ t) (set_unchanged table i)

-- The automaton without the needle in its bucket, which is the first of the free list.
pub record Removed (kr : KarpRabin) (nid place : ℕ) (new : KarpRabin) : Type 0 where
  pub new_size : length new.needlearr ≡ length kr.needlearr
  pub new-Unlinked : Unlinked kr.needlearr nid new.needlearr
  pub new_bytes : (j : ℕ) → bytes (needle_at new.needlearr j) ≡ bytes (needle_at kr.needlearr j)
  pub new_table :
      (b : ℕ)
      → get_or new.table b none ≡ (
          if place == b
          then if is_id nid (get_or kr.table place none)
            then (needle_at kr.needlearr nid).next
            else get_or kr.table place none
          else get_or kr.table b none)
  pub new_table_size : length new.table ≡ length kr.table
  pub first_free : new.needle_freelist ≡ some nid
  pub next_free : (needle_at new.needlearr nid).next ≡ kr.needle_freelist
  pub same_mask : new.hash_table_size_mask ≡ kr.hash_table_size_mask
  pub same_entpos : (hv : ℕ) → entpos hv new ≡ entpos hv kr

module _ (kr : KarpRabin) (v : IsLinked kr) (nid : ℕ) where
  abbrev ndl : Needle
  ndl = needle_at kr.needlearr nid

  abbrev place : ℕ
  place = entpos ndl.hashval kr

  abbrev first : Option ℕ
  first = get_or kr.table place none

  pub unregister-unlinked : unregister_needle nid kr ≡ unlinked nid kr
  unfolding unregister_needle deallocate_needle unlinked where_valid
  unregister-unlinked = elim (Bool-cases (is_id nid first)) [
    | inl e ↦
        let none_before : ndl.prev ≡ none =
          first_before kr.needlearr nid first (v.ids place) (v.chained place) (v.prevs place) e in
        rw (e, none_before) refl
    | inr e ↦ rw (e, set_unchanged kr.table place) refl
  ]

  module _ (listed : lists nid (v.ids place) ≡ true) where
    abbrev new : KarpRabin
    new = unlinked nid kr

    pub inside : nid < length kr.needlearr
    inside = lists-inside kr.needlearr nid first (v.ids place) listed (v.chained place)

    prev_inside : (i : ℕ) → ndl.prev ≡ some i → i < length kr.needlearr
    prev_inside i e =
        before_inside kr.needlearr nid first none (v.ids place) listed (v.chained place)
          (v.prevs place) (λ j f. absurd (ground (arith, f))) i e

    next_inside : (i : ℕ) → ndl.next ≡ some i → i < length kr.needlearr
    next_inside i e = after_inside kr.needlearr nid first (v.ids place) listed (v.chained place) i e

    unlinked_size : length new.needlearr ≡ length kr.needlearr
    unfolding unlinked
    unlinked_size =
        left_size ndl.prev ndl.next kr.needle_freelist nid kr.needlearr inside prev_inside
          next_inside

    left-Unlinked : Unlinked kr.needlearr nid new.needlearr
    unfolding unlinked
    left-Unlinked = record {
      size = omega (arith, unlinked_size);
      nexts =
          left_next ndl.prev ndl.next kr.needle_freelist nid kr.needlearr inside prev_inside
            next_inside;
      backs =
          left_prev ndl.prev ndl.next kr.needle_freelist nid kr.needlearr inside prev_inside
            next_inside;
    }

    unlinked_bytes : (j : ℕ) → bytes (needle_at new.needlearr j) ≡ bytes (needle_at kr.needlearr j)
    unfolding unlinked
    unlinked_bytes j =
        left_bytes ndl.prev ndl.next kr.needle_freelist nid kr.needlearr inside prev_inside
          next_inside j

    unlinked_table :
        (b : ℕ)
        → get_or new.table b none ≡ (
            if place == b
            then if is_id nid first then ndl.next else first
            else get_or kr.table b none)
    unfolding unlinked
    unlinked_table b = get_or-set kr.table place _ b none (entpos-lt kr ndl.hashval v)

    pub unlinked-Removed : Removed kr nid place (unlinked nid kr)
    unfolding unlinked entpos
    unlinked-Removed = record {
      new_size = unlinked_size;
      new-Unlinked = left-Unlinked;
      new_bytes = unlinked_bytes;
      new_table = unlinked_table;
      new_table_size = length-set kr.table place _;
      first_free = refl;
      next_free =
          left_nid ndl.prev ndl.next kr.needle_freelist nid kr.needlearr inside prev_inside
            next_inside;
      same_mask = refl;
      same_entpos = λ hv. refl;
    }
