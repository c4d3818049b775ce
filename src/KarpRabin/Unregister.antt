-- ===== src/KarpRabin/Unregister.antt =====
-- ase/gtcpp/karp_rabin.hpp: unregister_needle, and what find_needle gives behind it.
use ase.KarpRabin.{
  Needle, KarpRabin, needle_at, entpos, first_needle, find_needle, is_id, unregister_needle,
}
use ase.KarpRabin.Chains.{Chain, Apart}
use ase.KarpRabin.Prevs.{Prevs, Prevs-same, total, total-more}
use ase.KarpRabin.Buckets.{Distinct, IsLinked}
use ase.KarpRabin.Places.{entpos-lt, find_needle-ids, placed-Apart, Apart-buckets}
use ase.KarpRabin.Unlink.{
  without, lists, without-Apart, All-without, without-Distinct, without-Apart_self, length-without,
  Chain-next,
}
use ase.KarpRabin.Unlinked.{kept_nexts, kept_backs, unlinked-Chain, unlinked-Prevs}
use ase.KarpRabin.Neighbours.{
  All-lists, All-Apart_cons, not_before, not_after, first_needle-bytes, All-Apart_flip,
  nothing_before,
}
use ase.Prelude.{
  ℕ, ◌+◌, ◌^◌, ◌≤◌, ◌≡◌, refl, sym, ap, ◌∙◌, inl, inr, Bool, true, false, Option, none, List, [],
  ◌∷◌, arith, ◌==◌, if◌then◌else◌, ==_iff, ==_self, Bool-cases, length, get_or, All,
}
use ase.KarpRabin.Removed.{Removed, unregister-unlinked, inside, unlinked-Removed}

module _ (kr : KarpRabin) (v : IsLinked kr) (nid : ℕ) where
  abbrev ndl : Needle
  ndl = needle_at kr.needlearr nid

  abbrev place : ℕ
  place = entpos ndl.hashval kr

  abbrev first : Option ℕ
  first = get_or kr.table place none

  module _ (listed : lists nid (v.ids place) ≡ true) (new : KarpRabin)
      (w : Removed kr nid place new) where
    unfoldable new_ids : ℕ → List ℕ
    new_ids b = if place == b then without nid (v.ids b) else v.ids b

    free-Apart : Apart nid v.free
    free-Apart = All-lists (λ i. Apart i v.free) nid (v.ids place) listed (v.apart place)

    other-Apart : (b : ℕ) → (place == b) ≡ false → Apart nid (v.ids b)
    other-Apart b e = placed-Apart kr b place nid (v.ids b) (ground (arith, e)) refl (v.placed b)

    kept-Chain :
        (o : Option ℕ) (ids : List ℕ)
        → Apart nid ids
        → All (λ j. Apart j (v.ids place)) ids
        → Chain kr.needlearr o ids
        → Chain new.needlearr o ids
    kept-Chain o ids apart others chained =
        Chain-next kr.needlearr new.needlearr o ids (omega (arith, w.new_size))
          (kept_nexts kr.needlearr nid new.needlearr w.new-Unlinked ids apart
            (not_before kr.needlearr nid (v.ids place) ids listed (v.prevs place) others))
          chained

    new-Chain :
        (b : ℕ) (c : Bool)
        → (place == b) ≡ c
        → Chain new.needlearr
            (if c then if is_id nid first then ndl.next else first else get_or kr.table b none)
            (if c then without nid (v.ids b) else v.ids b)
    new-Chain b true e =
        let here : place ≡ b = (==_iff place b).0 e in
        rw (sym here) (
          unlinked-Chain kr.needlearr nid new.needlearr w.new-Unlinked first none (v.ids place)
            listed (v.chained place) (v.prevs place) (v.unique place)
            (nothing_before (v.ids place)))
    new-Chain b false e =
        kept-Chain (get_or kr.table b none) (v.ids b) (other-Apart b e)
          (Apart-buckets kr v place b e) (v.chained b)

    new-Prevs :
        (b : ℕ) (c : Bool)
        → (place == b) ≡ c
        → Prevs new.needlearr none (if c then without nid (v.ids b) else v.ids b)
    new-Prevs b true e =
        let here : place ≡ b = (==_iff place b).0 e in
        rw (sym here) (
          unlinked-Prevs kr.needlearr nid new.needlearr w.new-Unlinked first none (v.ids place)
            listed (v.chained place) (v.prevs place) (v.unique place))
    new-Prevs b false e =
        Prevs-same kr.needlearr new.needlearr none (v.ids b)
          (kept_backs kr.needlearr nid new.needlearr w.new-Unlinked (v.ids b) (other-Apart b e) (
            not_after kr.needlearr nid first (v.ids place) (v.ids b) listed (v.chained place)
              (Apart-buckets kr v place b e)))
          (v.prevs b)

    new_free : Chain new.needlearr new.needle_freelist (nid ∷ v.free)
    new_free = (
      w.first_free,
      omega (arith, inside kr v nid listed, w.new_size),
      rw (w.next_free) (
          kept-Chain kr.needle_freelist v.free free-Apart
            (All-Apart_flip (v.ids place) v.free (v.apart place)) v.freed),
    )

    new-Apart :
        (b : ℕ) (c : Bool)
        → (place == b) ≡ c
        → All (λ i. Apart i (nid ∷ v.free)) (if c then without nid (v.ids b) else v.ids b)
    new-Apart b true e =
        All-Apart_cons nid v.free (without nid (v.ids b)) (without-Apart_self nid (v.ids b))
          (All-without (λ i. Apart i v.free) nid (v.ids b) (v.apart b))
    new-Apart b false e = All-Apart_cons nid v.free (v.ids b) (other-Apart b e) (v.apart b)

    new_unique : (b : ℕ) (c : Bool) → Distinct (if c then without nid (v.ids b) else v.ids b)
    new_unique b true = without-Distinct nid (v.ids b) (v.unique b)
    new_unique b false = v.unique b

    still_placed :
        (b : ℕ) (ids : List ℕ)
        → All (λ i. entpos ((needle_at kr.needlearr i).hashval) kr ≡ b) ids
        → All (λ i. entpos ((needle_at new.needlearr i).hashval) new ≡ b) ids
    still_placed b [] h = tt
    still_placed b (i ∷ ids) h = (
      w.same_entpos ((needle_at new.needlearr i).hashval)
          ∙ rw (ap (λ p. p.0) (w.new_bytes i)) (h.0),
      still_placed b ids h.1,
    )

    new_placed :
        (b : ℕ) (c : Bool)
        → All
            (λ i. entpos ((needle_at new.needlearr i).hashval) new ≡ b)
            (if c then without nid (v.ids b) else v.ids b)
    new_placed b true = still_placed b (without nid (v.ids b)) (
        All-without (λ i. entpos ((needle_at kr.needlearr i).hashval) kr ≡ b) nid (v.ids b)
          (v.placed b))
    new_placed b false = still_placed b (v.ids b) (v.placed b)

    new_counted : total (2 ^ v.bits) new_ids + length (nid ∷ v.free) ≤ length new.needlearr
    unfolding new_ids
    new_counted =
        let fewer =
          total-more (2 ^ v.bits) new_ids v.ids place
            (omega (arith, entpos-lt kr ndl.hashval v, v.size))
            (rw (==_self place) (sym (length-without nid (v.ids place) listed (v.unique place))))
            (λ b f. rw f refl) in
        omega (arith, fewer, v.counted, w.new_size)

    new-IsLinked : IsLinked new
    unfolding new_ids
    new-IsLinked = record {
      bits = v.bits;
      mask = w.same_mask ∙ v.mask;
      size = w.new_table_size ∙ v.size;
      ids = new_ids;
      free = nid ∷ v.free;
      chained = λ b. rw (w.new_table b) (new-Chain b (place == b) refl);
      freed = new_free;
      distinct = (free-Apart, v.distinct);
      apart = λ b. new-Apart b (place == b) refl;
      prevs = λ b. new-Prevs b (place == b) refl;
      unique = λ b. new_unique b (place == b);
      placed = λ b. new_placed b (place == b);
      counted = new_counted;
    }

    ids-without : (b : ℕ) → new_ids b ≡ without nid (v.ids b)
    unfolding new_ids
    ids-without b = elim (Bool-cases (place == b)) [
      | inl e ↦ rw e refl
      | inr e ↦ rw (e, without-Apart nid (v.ids b) (other-Apart b e)) refl
    ]

    find-rest :
        (hv : ℕ) (s : List ℕ)
        → find_needle new hv s ≡ first_needle kr hv s (without nid (v.ids (entpos hv kr)))
    unfolding new-IsLinked
    find-rest hv s =
        find_needle-ids new hv s new-IsLinked
        ∙ ap (λ b. first_needle new hv s (new_ids b)) (w.same_entpos hv)
        ∙ first_needle-bytes kr new hv s (new_ids (entpos hv kr)) w.new_bytes
        ∙ ap (λ ids. first_needle kr hv s ids) (ids-without (entpos hv kr))

-- A needle unregistered, on buckets and a free list whose chains end and are linked back as well, where the
-- bucket of the needle's hash has it: the chains still do, and a search for any hash and bytes, which
-- gave the first needle of their bucket that fits, now gives the first of the others that fits.
pub unregister_needle-find_needle :
    (kr : KarpRabin) (v : IsLinked kr) (nid : ℕ)
    → lists nid (v.ids (entpos ((needle_at kr.needlearr nid).hashval) kr)) ≡ true
    → IsLinked (unregister_needle nid kr)
      × ((hv : ℕ) (s : List ℕ)
          → (find_needle kr hv s ≡ first_needle kr hv s (v.ids (entpos hv kr)))
            × (find_needle (unregister_needle nid kr) hv s
                ≡ first_needle kr hv s (without nid (v.ids (entpos hv kr)))))
unregister_needle-find_needle kr v nid listed =
    let w = unlinked-Removed kr v nid listed in
    rw (unregister-unlinked kr v nid) (
      new-IsLinked kr v nid listed _ w,
      λ hv s. (find_needle-ids kr hv s v, find-rest kr v nid listed _ w hv s),
    )
