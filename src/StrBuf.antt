-- ===== src/StrBuf.antt =====
-- ase/asestrbuf.cpp: the string buffer. Its allocated bytes are `mem`, of which the first `used` are
-- its contents (buf_end - bufalloc); `junk` stands for a byte of fresh memory.
pub mod Contents
mod Runs
use ase.Prelude.{
  ℕ, zero, suc, ◌+◌, ◌-◌, ◌*◌, ◌/◌, ◌%◌, ◌^◌, ◌≤◌, ◌<◌, min, ◌≡◌, refl, sym, ap, ◌∙◌, ◌≢◌, ◌↔◌, ◌⊎◌,
  inl, inr, Bool, true, false, ◌&&◌, ◌||◌, not, Option, none, some, List, [], ◌∷◌, ◌++◌, map,
  append-nil, append_assoc, arith, bit_and, bit_or, ltb, leb, ◌==◌, if◌then◌else◌, ltb→lt, lt→ltb,
  leb→le, le→leb, ==_iff, ==_self, tests, Bool-cases, Option-cases, length, get_or, get_elem?, set,
  take, drop, replicate, All, length-append, length-take, length-drop, length-replicate, length-set,
  take-append-drop, take-append, drop-append, All-append,
}

pub record Buffer : Type 0 where
  pub mem : List ℕ
  pub used : ℕ

abbrev pub alloc_size_min : ℕ
alloc_size_min = 32

-- assert_valid
unfoldable pub IsValid : Buffer → Type 0
IsValid b = b.used ≤ length b.mem

-- What lies between begin() and end().
unfoldable pub contents : Buffer → List ℕ
contents b = take b.used b.mem

unfoldable pub at_least_min : ℕ → ℕ
at_least_min size = if ltb alloc_size_min size then size else alloc_size_min

-- memcpy of `str` to the offset `i` of the memory.
unfoldable pub copy_to : List ℕ → ℕ → List ℕ → List ℕ
copy_to mem i str = take i mem ++ (str ++ drop (i + length str) mem)

unfoldable pub clear : Buffer → Buffer
clear b = record b { used = 0 }

-- remove_front: memmove of the bytes behind the first `len` to the front.
unfoldable pub remove_front : ℕ → Buffer → Buffer
remove_front len b =
    let savesize = b.used - len in
    record { mem = copy_to b.mem 0 (take savesize (drop len b.mem)); used = savesize }

unfoldable pub truncate : ℕ → Buffer → Buffer
truncate len b = record b { used = if leb b.used len then b.used else len }

unfoldable pub append_done : ℕ → Buffer → Buffer
append_done len_written b = record b { used = b.used + len_written }

module _ (junk : ℕ) where
  -- The constructor.
  unfoldable pub new_buffer : ℕ → Buffer
  new_buffer initial_alloc_size = record {
    mem = replicate (at_least_min initial_alloc_size) junk;
    used = 0;
  }

  unfoldable pub reset : ℕ → Buffer → Buffer
  reset initial_alloc_size b =
      let len = at_least_min initial_alloc_size in
      record { mem = if len == length b.mem then b.mem else replicate len junk; used = 0 }

  -- make_space: realloc keeps the old bytes when more are needed than are left.
  unfoldable pub make_space : ℕ → Buffer → Buffer
  make_space len b = record b {
    mem =
        if leb (b.used + len) (length b.mem)
        then b.mem
        else b.mem ++ replicate (b.used + len - length b.mem) junk;
  }

  unfoldable pub append : List ℕ → Buffer → Buffer
  append str b =
      let p = make_space (length str) b in
      append_done (length str) (record p { mem = copy_to p.mem p.used str })
