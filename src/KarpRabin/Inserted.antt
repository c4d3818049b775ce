-- ===== src/KarpRabin/Inserted.antt =====
-- ase/gtcpp/karp_rabin.hpp: the automaton with a new needle before those of its bucket.
use ase.KarpRabin.{KarpRabin, is_id, needle_at, entpos, first_of, linked}
use ase.KarpRabin.Chains.{Same, length-linked_needles, linked_needles-Same, get_or-set}
use ase.KarpRabin.Prevs.{prev-linked_needles}
use ase.KarpRabin.Buckets.{IsLinked, Allocated}
use ase.Prelude.{
  ℕ, ◌-◌, ◌^◌, ◌<◌, ◌≡◌, refl, sym, ap, ◌∙◌, false, none, some, List, arith, bit_and, ◌==◌,
  if◌then◌else◌, ==_self, length, get_or, length-set,
}
use ase.KarpRabin.Places.{first_inside, entpos-lt}

-- The automaton that linked makes of the one that allocate_needle gave.
pub record Inserted (kr : KarpRabin) (v : IsLinked kr) (nid : ℕ) (alloc : KarpRabin) (hashval : ℕ)
    (str : List ℕ) (new : KarpRabin) : Type 0 where
  pub new_size : length new.needlearr ≡ length alloc.needlearr
  pub new_needle :
      Same
        (needle_at new.needlearr nid)
        (record { next = first_of hashval kr; prev = none; hashval = hashval; buffer = str })
  pub others :
      (j : ℕ)
      → (nid == j) ≡ false
      → j < length alloc.needlearr
      → Same (needle_at new.needlearr j) (needle_at alloc.needlearr j)
  pub others_before :
      (j : ℕ)
      → (nid == j) ≡ false
      → j < length kr.needlearr
      → Same (needle_at new.needlearr j) (needle_at kr.needlearr j)
  pub new_table :
      (b : ℕ)
      → get_or new.table b none
        ≡ (if entpos hashval kr == b then some nid else get_or kr.table b none)
  pub new_mask : new.hash_table_size_mask ≡ 2 ^ v.bits - 1
  pub new_table_size : length new.table ≡ 2 ^ v.bits
  pub new_prev :
      (j : ℕ)
      → (needle_at new.needlearr j).prev ≡ (
          if is_id j (first_of hashval kr)
          then some nid
          else if nid == j
          then none
          else (needle_at alloc.needlearr j).prev)
  pub same_entpos : (hv : ℕ) → entpos hv new ≡ entpos hv kr
  pub same_free : new.needle_freelist ≡ alloc.needle_freelist

module _ (kr : KarpRabin) (v : IsLinked kr) (nid : ℕ) (alloc : KarpRabin)
    (a : Allocated kr v nid alloc) (hashval : ℕ) (str : List ℕ) where
  unfoldable pub new : KarpRabin
  new = linked nid hashval str (first_of hashval kr) alloc

  place : entpos hashval alloc ≡ entpos hashval kr
  unfolding entpos
  place = ap (λ m. bit_and hashval m) a.same_mask

  valid : (i : ℕ) → first_of hashval kr ≡ some i → i < length alloc.needlearr
  unfolding first_of
  valid i e = omega (
    arith,
    a.grown,
    first_inside kr.needlearr _ (v.ids (entpos hashval kr)) i (v.chained (entpos hashval kr)) e,
  )

  linked_size : length new.needlearr ≡ length alloc.needlearr
  unfolding new linked
  linked_size = length-linked_needles hashval str (first_of hashval kr) nid alloc.needlearr

  linked_needle :
      Same
        (needle_at new.needlearr nid)
        (record { next = first_of hashval kr; prev = none; hashval = hashval; buffer = str })
  unfolding new linked
  linked_needle =
      let same =
        linked_needles-Same hashval str (first_of hashval kr) nid alloc.needlearr nid a.in_range
          valid in
      rw (==_self nid) at same

  linked_others :
      (j : ℕ)
      → (nid == j) ≡ false
      → j < length alloc.needlearr
      → Same (needle_at new.needlearr j) (needle_at alloc.needlearr j)
  unfolding new linked
  linked_others j e inside =
      let same =
        linked_needles-Same hashval str (first_of hashval kr) nid alloc.needlearr j a.in_range
          valid in
      rw e at same

  linked_others_before :
      (j : ℕ)
      → (nid == j) ≡ false
      → j < length kr.needlearr
      → Same (needle_at new.needlearr j) (needle_at kr.needlearr j)
  linked_others_before j e inside =
      rw (sym (a.kept j inside)) (linked_others j e (omega (arith, inside, a.grown)))

  linked_table :
      (b : ℕ)
      → get_or new.table b none
        ≡ (if entpos hashval kr == b then some nid else get_or kr.table b none)
  unfolding new linked
  linked_table b =
      rw (place, a.same_table)
        (get_or-set kr.table (entpos hashval kr) (some nid) b none (entpos-lt kr hashval v))

  linked_mask : new.hash_table_size_mask ≡ 2 ^ v.bits - 1
  unfolding new linked
  linked_mask = a.same_mask ∙ v.mask

  linked_table_size : length new.table ≡ 2 ^ v.bits
  unfolding new linked
  linked_table_size = length-set alloc.table _ _ ∙ ap length a.same_table ∙ v.size

  linked_prev :
      (j : ℕ)
      → (needle_at new.needlearr j).prev ≡ (
          if is_id j (first_of hashval kr)
          then some nid
          else if nid == j
          then none
          else (needle_at alloc.needlearr j).prev)
  unfolding new linked
  linked_prev j =
      prev-linked_needles hashval str (first_of hashval kr) nid alloc.needlearr j a.in_range valid

  linked_same_entpos : (hv : ℕ) → entpos hv new ≡ entpos hv kr
  unfolding new linked entpos
  linked_same_entpos hv = ap (λ m. bit_and hv m) a.same_mask

  pub linked-Inserted : Inserted kr v nid alloc hashval str new
  unfolding new linked
  linked-Inserted = record {
    new_size = linked_size;
    new_needle = linked_needle;
    others = linked_others;
    others_before = linked_others_before;
    new_table = linked_table;
    new_mask = linked_mask;
    new_table_size = linked_table_size;
    new_prev = linked_prev;
    same_entpos = linked_same_entpos;
    same_free = refl;
  }
