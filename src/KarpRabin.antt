-- ===== src/KarpRabin.antt =====
-- ase/gtcpp/karp_rabin.hpp: the search for needles of one length with a rolling hash. hashval_type is an
-- unsigned int of 32 bits, a needle id is an int, with -1 (invalid_needle_id) as none. The needles are
-- linked into buckets and a free list by their ids.
pub mod Finding
pub mod Hash
pub mod Windows
pub mod Chains
pub mod Prevs
pub mod Buckets
pub mod Places
pub mod Inserted
pub mod Register
pub mod Unlink
pub mod Unlinked
pub mod Moves
pub mod Neighbours
pub mod Removed
pub mod Unregister
pub mod Sizes
pub mod Naive
mod Runs
use ase.Search.{starts}
use ase.Prelude.{
  ℕ, zero, suc, ◌+◌, ◌-◌, ◌*◌, ◌/◌, ◌%◌, ◌^◌, ◌≤◌, ◌<◌, min, ◌≡◌, refl, sym, ap, ◌∙◌, ◌≢◌, ◌↔◌, ◌⊎◌,
  inl, inr, Bool, true, false, ◌&&◌, ◌||◌, not, Option, none, some, List, [], ◌∷◌, ◌++◌, map,
  append-nil, append_assoc, arith, bit_and, bit_or, ltb, leb, ◌==◌, if◌then◌else◌, ltb→lt, lt→ltb,
  leb→le, le→leb, ==_iff, ==_self, tests, Bool-cases, Option-cases, length, get_or, get_elem?, set,
  take, drop, replicate, All, length-append, length-take, length-drop, length-replicate, length-set,
  take-append-drop, take-append, drop-append, All-append,
}

pub record Needle : Type 0 where
  pub next : Option ℕ
  pub prev : Option ℕ
  pub hashval : ℕ
  pub buffer : List ℕ

pub record KarpRabin : Type 0 where
  pub hash_table_size_mask : ℕ
  pub table : List (Option ℕ)
  pub needlearr : List Needle
  pub needle_freelist : Option ℕ

-- What find_needle returns; a chain of needles longer than there are needles has no end.
pub data FoundNeedle : Type 0 where
  found : ℕ → FoundNeedle
  not_found : FoundNeedle
  endless : FoundNeedle

abbrev pub word : ℕ
word = 4294967296

-- karp_rabin_detail::pow
unfoldable pub pow : ℕ → ℕ → ℕ
pow x zero = 1
pow x (suc n) = pow x n * x % word

-- The loop of stream_hash from the hash `v` on.
unfoldable pub stream_hash_loop : ℕ → ℕ → List ℕ → ℕ
stream_hash_loop mul v [] = v
stream_hash_loop mul v (c ∷ s) = stream_hash_loop mul ((v * mul % word + c) % word) s

unfoldable pub stream_hash : ℕ → List ℕ → ℕ
stream_hash mul s = stream_hash_loop mul 0 s

unfoldable pub stream_hash_diff : ℕ → ℕ → ℕ → ℕ → ℕ → ℕ
stream_hash_diff mul mul_pow_n hashval s0 sn =
    ((hashval * mul % word + word - mul_pow_n * s0 % word) % word + sn) % word

-- align_pow2: shifts until the power is at least `x`; 32 shifts are enough (KarpRabin.Hash).
unfoldable pub align_loop : ℕ → ℕ → ℕ → Option ℕ
align_loop zero i x = if ltb i x then none else some i
align_loop (suc fuel) i x =
    let rest = align_loop fuel (i * 2 % word) x in if ltb i x then rest else some i

unfoldable pub align_pow2 : ℕ → Option ℕ
align_pow2 x = align_loop 32 1 x

-- needle_type()
unfoldable pub empty_needle : Needle
empty_needle = record { next = none; prev = none; hashval = 0; buffer = [] }

unfoldable pub needle_at : List Needle → ℕ → Needle
needle_at arr i = get_or arr i empty_needle

unfoldable pub set_next : Option ℕ → ℕ → List Needle → List Needle
set_next next i arr = set arr i (record (needle_at arr i) { next = next })

unfoldable pub set_prev : Option ℕ → ℕ → List Needle → List Needle
set_prev prev i arr = set arr i (record (needle_at arr i) { prev = prev })

-- An update at an id that may be invalid_needle_id, which leaves the needles as they are.
unfoldable pub where_valid : (ℕ → List Needle → List Needle) → Option ℕ → List Needle → List Needle
where_valid update none arr = arr
where_valid update (some i) arr = update i arr

unfoldable pub entpos : ℕ → KarpRabin → ℕ
entpos hashval kr = bit_and hashval kr.hash_table_size_mask

unfoldable pub first_of : ℕ → KarpRabin → Option ℕ
first_of hashval kr = get_or kr.table (entpos hashval kr) none

unfoldable pub behind : ℕ → Option (List ℕ) → Option (List ℕ)
behind i none = none
behind i (some ids) = some (i ∷ ids)

-- The ids that a loop over a chain of needles visits.
unfoldable pub chain : ℕ → List Needle → Option ℕ → Option (List ℕ)
chain fuel arr none = some []
chain zero arr (some i) = none
chain (suc fuel) arr (some i) = behind i (chain fuel arr (needle_at arr i).next)

-- Those of the bucket of a hash. No chain visits a needle twice, so that their number is enough fuel.
unfoldable pub bucket : ℕ → KarpRabin → Option (List ℕ)
bucket hashval kr = chain (length kr.needlearr) kr.needlearr (first_of hashval kr)

-- The test of a needle against the bytes at `s`, with memcmp.
unfoldable pub is_needle : KarpRabin → ℕ → List ℕ → ℕ → Bool
is_needle kr hv s i =
    ((needle_at kr.needlearr i).hashval == hv) && starts (needle_at kr.needlearr i).buffer s

unfoldable pub first_needle : KarpRabin → ℕ → List ℕ → List ℕ → FoundNeedle
first_needle kr hv s [] = not_found
first_needle kr hv s (i ∷ ids) =
    let rest = first_needle kr hv s ids in if is_needle kr hv s i then found i else rest

unfoldable pub first_in : KarpRabin → ℕ → List ℕ → Option (List ℕ) → FoundNeedle
first_in kr hv s none = endless
first_in kr hv s (some ids) = first_needle kr hv s ids

-- find_needle with a hash.
unfoldable pub find_needle : KarpRabin → ℕ → List ℕ → FoundNeedle
find_needle kr hv s = first_in kr hv s (bucket hv kr)

-- allocate_needle: a needle of the free list, or a new one.
unfoldable pub allocated : Option ℕ → KarpRabin → ℕ × KarpRabin
allocated none kr =
    (length kr.needlearr, record kr { needlearr = kr.needlearr ++ empty_needle ∷ [] })
allocated (some nid) kr = (nid, record kr { needle_freelist = (needle_at kr.needlearr nid).next })

unfoldable pub allocate_needle : KarpRabin → ℕ × KarpRabin
allocate_needle kr = allocated kr.needle_freelist kr

unfoldable pub deallocate_needle : ℕ → KarpRabin → KarpRabin
deallocate_needle nid kr = record kr {
  needlearr = set_prev none nid (set_next kr.needle_freelist nid kr.needlearr);
  needle_freelist = some nid;
}

-- The hash of a needle and its bytes.
unfoldable pub set_bytes : ℕ → List ℕ → ℕ → List Needle → List Needle
set_bytes hashval str i arr =
    set arr i (record (needle_at arr i) { hashval = hashval; buffer = str })

unfoldable pub linked : ℕ → ℕ → List ℕ → Option ℕ → KarpRabin → KarpRabin
linked nid hashval str entfirst kr = record kr {
  needlearr = set_bytes hashval str nid (
      where_valid (set_prev (some nid)) entfirst
        (set_prev none nid (set_next entfirst nid kr.needlearr)));
  table = set kr.table (entpos hashval kr) (some nid);
}

-- register_needle behind its test: the new needle is the first of its bucket.
unfoldable pub insert_needle : ℕ → List ℕ → KarpRabin → ℕ × KarpRabin
insert_needle hashval str kr =
    let entfirst = first_of hashval kr in
    let (nid, alloc) = allocate_needle kr in (nid, linked nid hashval str entfirst alloc)

unfoldable pub registered : FoundNeedle → ℕ × KarpRabin → KarpRabin → Option (Option ℕ × KarpRabin)
registered (found i) new kr = some (none, kr)
registered not_found (nid, new) kr = some (some nid, new)
registered endless new kr = none

unfoldable pub is_id : ℕ → Option ℕ → Bool
is_id nid none = false
is_id nid (some i) = i == nid

-- unregister_needle: out of its bucket and into the free list.
unfoldable pub unregister_needle : ℕ → KarpRabin → KarpRabin
unregister_needle nid kr =
    let ndl = needle_at kr.needlearr nid in
    let place = entpos ndl.hashval kr in
    let is_first = is_id nid (get_or kr.table place none) in
    deallocate_needle nid (
      if is_first
      then record kr {
        table = set kr.table place ndl.next;
        needlearr = where_valid (set_prev none) ndl.next kr.needlearr;
      }
      else record kr {
        needlearr =
            where_valid (set_prev ndl.prev) ndl.next
              (where_valid (set_next ndl.next) ndl.prev kr.needlearr);
      })

module _ (needle_len mul : ℕ) where
  unfoldable pub register_needle : List ℕ → Bool → KarpRabin → Option (Option ℕ × KarpRabin)
  register_needle str allow_dup kr =
      let hashval = stream_hash mul (take needle_len str) in
      let new = insert_needle hashval (take needle_len str) kr in
      if allow_dup
      then some (some (new.0), new.1)
      else registered (find_needle kr hashval str) new kr

  -- Its constructor: needles that are the same are all registered.
  unfoldable pub insert_all : List (List ℕ) → KarpRabin → KarpRabin
  insert_all [] kr = kr
  insert_all (str ∷ strarr) kr =
      insert_all strarr
        ((insert_needle (stream_hash mul (take needle_len str)) (take needle_len str) kr).1)

  unfoldable pub new_of : List (List ℕ) → Option ℕ → Option KarpRabin
  new_of strarr none = none
  new_of strarr (some size) = some (
      insert_all strarr (record {
        hash_table_size_mask = size - 1;
        table = replicate size none;
        needlearr = [];
        needle_freelist = none;
      }))

  unfoldable pub new_karp_rabin : List (List ℕ) → ℕ → Option KarpRabin
  new_karp_rabin strarr hash_table_size = new_of strarr (align_pow2 hash_table_size)
