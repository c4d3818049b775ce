-- ===== src/KarpRabin/Register.antt =====
-- ase/gtcpp/karp_rabin.hpp: register_needle, and what find_needle gives behind it.
use ase.KarpRabin.{
  KarpRabin, found, is_id, needle_at, entpos, first_of, is_needle, first_needle, find_needle,
  linked, insert_needle,
}
use ase.KarpRabin.Chains.{first-Apart, Chain, Apart, Chain-Same}
use ase.KarpRabin.Prevs.{Prevs, Prevs-same, total, total-more}
use ase.KarpRabin.Buckets.{Distinct, IsLinked, Allocated, allocate_needle-Allocated}
use ase.Search.{starts}
use ase.Prelude.{
  ℕ, ◌+◌, ◌^◌, ◌≤◌, ◌≡◌, refl, ap, ◌∙◌, inl, inr, Bool, true, false, ◌&&◌, Option, none, some, List,
  [], ◌∷◌, arith, ◌==◌, if◌then◌else◌, ==_iff, ==_self, Bool-cases, length, get_or, All,
}
use ase.KarpRabin.Places.{first_needle-Same, entpos-lt, find_needle-ids, not_first, Apart-buckets}
use ase.KarpRabin.Inserted.{new, Inserted, linked-Inserted}

module _ (kr : KarpRabin) (v : IsLinked kr) (nid : ℕ) (alloc : KarpRabin)
    (a : Allocated kr v nid alloc) (hashval : ℕ) (str : List ℕ) (new : KarpRabin)
    (w : Inserted kr v nid alloc hashval str new) where
  unfoldable new_ids : ℕ → List ℕ
  new_ids b = if entpos hashval kr == b then nid ∷ v.ids b else v.ids b

  old-Chain : (b : ℕ) → Chain new.needlearr (get_or kr.table b none) (v.ids b)
  old-Chain b =
      let size = w.new_size in
      Chain-Same nid kr.needlearr new.needlearr (get_or kr.table b none) (v.ids b)
        (omega (arith, a.grown, size)) w.others_before (a.unused b) (v.chained b)

  new-Chain :
      (b : ℕ) (c : Bool)
      → (entpos hashval kr == b) ≡ c
      → Chain new.needlearr
          (if c then some nid else get_or kr.table b none)
          (if c then nid ∷ v.ids b else v.ids b)
  unfolding first_of
  new-Chain b true e =
      let here : entpos hashval kr ≡ b = (==_iff (entpos hashval kr) b).0 e in
      let size = w.new_size in
      (refl, omega (arith, a.in_range, size), rw (w.new_needle.same_next, here) (old-Chain b))
  new-Chain b false e = old-Chain b

  new-Apart : (b : ℕ) (c : Bool) → All (λ i. Apart i a.free') (if c then nid ∷ v.ids b else v.ids b)
  new-Apart b true = (a.free_apart, a.apart' b)
  new-Apart b false = a.apart' b

  new_free : Chain new.needlearr new.needle_freelist a.free'
  unfolding new linked
  new_free =
      let size = w.new_size in
      rw (w.same_free) (
        Chain-Same nid alloc.needlearr new.needlearr alloc.needle_freelist a.free'
          (omega (arith, size)) w.others a.free_apart a.freed')

  old_prevs :
      (first : Option ℕ) (ids : List ℕ)
      → Chain kr.needlearr first ids
      → Apart nid ids
      → All (λ j. is_id j (first_of hashval kr) ≡ false) ids
      → All (λ j. (needle_at new.needlearr j).prev ≡ (needle_at kr.needlearr j).prev) ids
  old_prevs first [] h apart behind = tt
  old_prevs first (j ∷ ids) h apart behind = (
    rw (w.new_prev j, behind.0, apart.0) (ap (λ n. n.prev) (a.kept j h.1)),
    old_prevs (needle_at kr.needlearr j).next ids h.2 apart.1 behind.1,
  )

  behind_first :
      (i : ℕ) (ids : List ℕ)
      → first_of hashval kr ≡ some i
      → Apart i ids
      → All (λ j. is_id j (first_of hashval kr) ≡ false) ids
  unfolding is_id
  behind_first i [] e h = tt
  behind_first i (j ∷ ids) e h = (rw e (h.0), behind_first i ids e h.1)

  front-Prevs :
      (ids : List ℕ)
      → Chain kr.needlearr (first_of hashval kr) ids
      → Prevs kr.needlearr none ids
      → Apart nid ids
      → Distinct ids
      → Prevs new.needlearr (some nid) ids
  unfolding is_id
  front-Prevs [] h prevs apart unique = tt
  front-Prevs (i ∷ ids) h prevs apart unique = (
    rw (w.new_prev i, h.0, ==_self i) refl,
    Prevs-same kr.needlearr new.needlearr (some i) ids
        (old_prevs (needle_at kr.needlearr i).next ids h.2 apart.1
          (behind_first i ids h.0 unique.0))
        prevs.1,
  )

  elsewhere :
      (b : ℕ)
      → (entpos hashval kr == b) ≡ false
      → All (λ j. is_id j (first_of hashval kr) ≡ false) (v.ids b)
  unfolding first_of
  elsewhere b e =
      not_first kr.needlearr (first_of hashval kr) (v.ids (entpos hashval kr)) (v.ids b)
        (v.chained (entpos hashval kr)) (Apart-buckets kr v (entpos hashval kr) b e)

  new-Prevs :
      (b : ℕ) (c : Bool)
      → (entpos hashval kr == b) ≡ c
      → Prevs new.needlearr none (if c then nid ∷ v.ids b else v.ids b)
  unfolding first_of
  new-Prevs b true e =
      let here : entpos hashval kr ≡ b = (==_iff (entpos hashval kr) b).0 e in
      let first : first_of hashval kr ≡ get_or kr.table b none =
        ap (λ p. get_or kr.table p none) here in
      (
        rw
            (
              w.new_prev nid,
              first-Apart kr.needlearr (first_of hashval kr) nid (v.ids (entpos hashval kr))
                  (v.chained (entpos hashval kr)) (a.unused (entpos hashval kr)),
              ==_self nid,
            )
            refl,
        front-Prevs (v.ids b) (rw first (v.chained b)) (v.prevs b) (a.unused b) (v.unique b),
      )
  new-Prevs b false e =
      Prevs-same kr.needlearr new.needlearr none (v.ids b)
        (old_prevs (get_or kr.table b none) (v.ids b) (v.chained b) (a.unused b) (elsewhere b e))
        (v.prevs b)

  new_unique : (b : ℕ) (c : Bool) → Distinct (if c then nid ∷ v.ids b else v.ids b)
  new_unique b true = (a.unused b, v.unique b)
  new_unique b false = v.unique b

  old_placed :
      (b : ℕ) (first : Option ℕ) (ids : List ℕ)
      → Chain kr.needlearr first ids
      → Apart nid ids
      → All (λ i. entpos ((needle_at kr.needlearr i).hashval) kr ≡ b) ids
      → All (λ i. entpos ((needle_at new.needlearr i).hashval) new ≡ b) ids
  old_placed b first [] h apart placed = tt
  old_placed b first (i ∷ ids) h apart placed =
      let o = w.others_before i apart.0 h.1 in
      (
        w.same_entpos ((needle_at new.needlearr i).hashval) ∙ rw (o.same_hashval) (placed.0),
        old_placed b (needle_at kr.needlearr i).next ids h.2 apart.1 placed.1,
      )

  new_placed :
      (b : ℕ) (c : Bool)
      → (entpos hashval kr == b) ≡ c
      → All
          (λ i. entpos ((needle_at new.needlearr i).hashval) new ≡ b)
          (if c then nid ∷ v.ids b else v.ids b)
  new_placed b true e =
      let n = w.new_needle in
      (
        w.same_entpos ((needle_at new.needlearr nid).hashval)
            ∙ rw (n.same_hashval) ((==_iff (entpos hashval kr) b).0 e),
        old_placed b (get_or kr.table b none) (v.ids b) (v.chained b) (a.unused b) (v.placed b),
      )
  new_placed b false e =
      old_placed b (get_or kr.table b none) (v.ids b) (v.chained b) (a.unused b) (v.placed b)

  new_counted : total (2 ^ v.bits) new_ids + length a.free' ≤ length new.needlearr
  unfolding new_ids
  new_counted =
      let e = entpos hashval kr in
      let more =
        total-more (2 ^ v.bits) v.ids new_ids e (omega (arith, entpos-lt kr hashval v, v.size))
          (rw (==_self e) refl) (λ b f. rw f refl) in
      omega (arith, more, a.counted', w.new_size)

  new-IsLinked : IsLinked new
  unfolding new_ids
  new-IsLinked = record {
    bits = v.bits;
    mask = w.new_mask;
    size = w.new_table_size;
    ids = new_ids;
    free = a.free';
    chained = λ b. rw (w.new_table b) (new-Chain b (entpos hashval kr == b) refl);
    freed = new_free;
    distinct = a.distinct';
    apart = λ b. new-Apart b (entpos hashval kr == b);
    prevs = λ b. new-Prevs b (entpos hashval kr == b) refl;
    unique = λ b. new_unique b (entpos hashval kr == b);
    placed = λ b. new_placed b (entpos hashval kr == b) refl;
    counted = new_counted;
  }

  other_hash :
      (hv b : ℕ) → entpos hv kr ≡ b → (entpos hashval kr == b) ≡ false → (hashval == hv) ≡ false
  other_hash hv b e f = elim (Bool-cases (hashval == hv)) [
    | inl g ↦
        let same : entpos hashval kr ≡ b = ap (λ h. entpos h kr) ((==_iff hashval hv).0 g) ∙ e in
        absurd (ground (arith, f, same))
    | inr g ↦ g
  ]

  find-ids :
      (hv : ℕ) (s : List ℕ) (b : ℕ) (c : Bool)
      → entpos hv kr ≡ b
      → (entpos hashval kr == b) ≡ c
      → first_needle new hv s (if c then nid ∷ v.ids b else v.ids b)
        ≡ (if (hashval == hv) && starts str s then found nid else first_needle kr hv s (v.ids b))
  unfolding first_needle is_needle
  find-ids hv s b true e f =
      let n = w.new_needle in
      let rest =
        first_needle-Same kr new nid hv s (get_or kr.table b none) (v.ids b) w.others_before
          (a.unused b) (v.chained b) in
      rw (n.same_hashval, n.same_buffer, rest) refl
  find-ids hv s b false e f =
      let other : (hashval == hv) ≡ false = other_hash hv b e f in
      let rest =
        first_needle-Same kr new nid hv s (get_or kr.table b none) (v.ids b) w.others_before
          (a.unused b) (v.chained b) in
      rw (other, rest) refl

  find-new :
      (hv : ℕ) (s : List ℕ)
      → find_needle new hv s
        ≡ (if (hashval == hv) && starts str s then found nid else find_needle kr hv s)
  unfolding new_ids new-IsLinked
  find-new hv s = rw (find_needle-ids kr hv s v) (
      find_needle-ids new hv s new-IsLinked
      ∙ ap (λ b. first_needle new hv s (new_ids b)) (w.same_entpos hv)
      ∙ find-ids hv s (entpos hv kr) (entpos hashval kr == entpos hv kr) refl refl)

-- A needle registered, on buckets and a free list whose chains end: they still do, and a search for any
-- hash and bytes finds the new needle if these are its own, and else what it found before. The new
-- needle is one of the free list if there is any.
pub insert_needle-find_needle :
    (kr : KarpRabin) (hashval : ℕ) (str : List ℕ)
    → IsLinked kr
    → IsLinked ((insert_needle hashval str kr).1)
      × ((hv : ℕ) (s : List ℕ)
          → find_needle ((insert_needle hashval str kr).1) hv s ≡ (
              if (hashval == hv) && starts str s
              then found ((insert_needle hashval str kr).0)
              else find_needle kr hv s))
unfolding insert_needle new
insert_needle-find_needle kr hashval str v =
    let a = allocate_needle-Allocated kr v in
    let w = linked-Inserted kr v _ _ a hashval str in
    (new-IsLinked kr v _ _ a hashval str _ w, find-new kr v _ _ a hashval str _ w)
