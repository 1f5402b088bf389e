-- ===== src/PhysicalAlloc/FreeList.antt =====
-- What a free list in memory stands for: a sequence of chunks, one link at the start of each.
use ukoos.Prelude.{
  ℕ, ◌+◌, ◌-◌, ◌*◌, ◌%◌, ◌^◌, ◌≤◌, ◌<◌, ◌≡◌, ◌⊎◌, sym, ◌∙◌, subst, false, arith, ◌==◌, lt→ltb,
  le→leb, ==_refl, if◌then◌else◌, ok, List, [], ◌∷◌,
}
use ukoos.Align.{bits_of_paddr, paddr_of_bits, paddr_offset}
use ukoos.PhysicalAlloc.{
  Memory, Link, page_size, physical_map_len, ptr_of_paddr, store_word, copy_to_physical,
  copy_from_physical,
}

pub record Chunk : Type 0 where
  pub start : ℕ
  pub pages : ℕ

abbrev pub IsChunk : Chunk → Type 0
IsChunk c =
    (0 < c.start)
    × (c.start % page_size ≡ 0)
    × (0 < c.pages)
    × (c.start + c.pages * page_size ≤ physical_map_len)

abbrev pub FreeList : Memory → ℕ → List Chunk → Type 0
FreeList m head [] = head ≡ 0
FreeList m head (c ∷ cs) =
    (head ≡ c.start) × IsChunk c × (m (c.start + 8) ≡ c.pages) × FreeList m (m c.start) cs

-- No byte is in both chunks.
abbrev pub Apart : Chunk → Chunk → Type 0
Apart c d = (c.start + c.pages * page_size ≤ d.start) ⊎ (d.start + d.pages * page_size ≤ c.start)

abbrev pub Clear : Chunk → List Chunk → Type 0
Clear c [] = Unit
Clear c (d ∷ ds) = Apart c d × Clear c ds

abbrev pub Disjoint : List Chunk → Type 0
Disjoint [] = Unit
Disjoint (c ∷ cs) = Clear c cs × Disjoint cs

-- The chunks that are left when the first page of a first chunk is taken.
abbrev pub rest : Chunk → List Chunk → List Chunk
rest c cs =
    if c.pages == 1 then cs else record { start = c.start + page_size; pages = c.pages - 1 } ∷ cs

abbrev pub write_link : ℕ → Link → Memory → Memory
write_link p link m = store_word (store_word m p link.next) (p + 8) link.length

store_word-same : (m : Memory) (p v : ℕ) → store_word m p v p ≡ v
unfolding store_word
store_word-same m p v = rw (==_refl p)

pub ==-false : (a b : ℕ) → (a < b) ⊎ (b < a) → (a == b) ≡ false
==-false a b h = ground arith

store_word-other : (m : Memory) (p v a : ℕ) → (a < p) ⊎ (p < a) → store_word m p v a ≡ m a
unfolding store_word
store_word-other m p v a h = rw (==-false a p h)

write_link-outside :
    (m : Memory) (p a : ℕ) (link : Link)
    → (a < p) ⊎ (p + page_size ≤ a)
    → write_link p link m a ≡ m a
write_link-outside m p a link h =
    store_word-other (store_word m p link.next) (p + 8) link.length a (ground arith)
    ∙ store_word-other m p link.next a (ground arith)

pub write_link-next : (m : Memory) (p : ℕ) (link : Link) → write_link p link m p ≡ link.next
write_link-next m p link =
    store_word-other (store_word m p link.next) (p + 8) link.length p (ground arith)
    ∙ store_word-same m p link.next

pub write_link-length :
    (m : Memory) (p : ℕ) (link : Link) → write_link p link m (p + 8) ≡ link.length
write_link-length m p link = store_word-same (store_word m p link.next) (p + 8) link.length

pub paddr_offset-ok : (p n : ℕ) → p + n < 2 ^ 56 → paddr_offset p n ≡ ok (p + n)
unfolding paddr_offset bits_of_paddr paddr_of_bits
paddr_offset-ok p n h = rw (
  lt→ltb p (2 ^ 56) (omega arith),
  lt→ltb (p + n) (2 ^ 64) (omega arith),
  lt→ltb (p + n) (2 ^ 56) h,
)

pub bits_of_paddr-ok : (p : ℕ) → p < 2 ^ 56 → bits_of_paddr p ≡ ok p
unfolding bits_of_paddr
bits_of_paddr-ok p h = rw (lt→ltb p (2 ^ 56) h)

pub ptr_of_paddr-ok : (p n : ℕ) → p + n ≤ physical_map_len → ptr_of_paddr p n ≡ ok p
unfolding ptr_of_paddr
ptr_of_paddr-ok p n h = rw (
  paddr_offset-ok p n (omega arith),
  bits_of_paddr-ok (p + n) (omega arith),
  le→leb (p + n) physical_map_len h,
  bits_of_paddr-ok p (omega arith),
)

pub copy_to_physical-ok :
    (p : ℕ) (link : Link) (m : Memory)
    → p + 16 ≤ physical_map_len
    → copy_to_physical p link m ≡ ok (write_link p link m)
unfolding copy_to_physical
copy_to_physical-ok p link m h = rw (ptr_of_paddr-ok p 16 h)

pub copy_from_physical-ok :
    (p : ℕ) (m : Memory)
    → p + 16 ≤ physical_map_len
    → copy_from_physical p m ≡ ok (record { next = m p; length = m (p + 8) })
unfolding copy_from_physical
copy_from_physical-ok p m h = rw (ptr_of_paddr-ok p 16 h)

abbrev pub page : ℕ → Chunk
page p = record { start = p; pages = 1 }

-- A link written into a page that no chunk has leaves the list as it is.
pub FreeList-write_link :
    (cs : List Chunk) (m : Memory) (head p : ℕ) (link : Link)
    → Clear (page p) cs
    → FreeList m head cs
    → FreeList (write_link p link m) head cs
FreeList-write_link [] m head p link a f = f
FreeList-write_link (c ∷ cs) m head p link (a, apart) (e, valid, n, f) =
    let same_next : write_link p link m c.start ≡ m c.start =
      write_link-outside m p c.start link (ground arith) in
    let same_length : write_link p link m (c.start + 8) ≡ m (c.start + 8) =
      write_link-outside m p (c.start + 8) link (ground arith) in
    (
      e,
      valid,
      same_length ∙ n,
      subst (λ h. FreeList (write_link p link m) h cs) (sym same_next)
          (FreeList-write_link cs m (m c.start) p link apart f),
    )
