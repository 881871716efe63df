-- ===== src/Memory/Laws.antt =====
-- What is read after a write, and which pointers `ngx_wasm_wasmtime_get_memory` of
-- src/vm/wasmtime.c gives out.
use wasm_nginx_module.Prelude.{
  ℕ, zero, suc, ◌+◌, ◌%◌, ◌≤◌, ◌<◌, ◌≡◌, refl, ◌∙◌, ◌⊎◌, ◌-◌, some, none, List, [], ◌∷◌, arith,
  length, inl, inr, Bool-cases, leb, ltb, ◌&&◌,
}
use wasm_nginx_module.Words.{u32, u64, half32, add32, sext64, le32, of_le32, of_le32-le32}
use wasm_nginx_module.Run.{ok}
use wasm_nginx_module.Memory.{
  Memory, poke, write, read, word, copy_in, store32, load32, copy_out, get_memory,
}

-- Two memories hold the same bytes from `a` on, `n` of them.
abbrev pub SameAt : ℕ → ℕ → Memory → Memory → Type 0
SameAt a n m m' = (x : ℕ) → a ≤ x → x < a + n → m'.byte x ≡ m.byte x

-- A write changes the bytes from `a` on, `n` of them, at most.
abbrev pub SameBut : ℕ → ℕ → Memory → Memory → Type 0
SameBut a n m m' = (x : ℕ) → (x < a) ⊎ (a + n ≤ x) → m'.byte x ≡ m.byte x

pub size-write : (m : Memory) (a : ℕ) (bs : List ℕ) → (write m a bs).size ≡ m.size
unfolding write
size-write m a [] = refl
size-write m a (b ∷ bs) = size-write (poke m a b) (suc a) bs

pub write-SameBut : (m : Memory) (a : ℕ) (bs : List ℕ) → SameBut a (length bs) m (write m a bs)
unfolding write
write-SameBut m a [] x h = refl
write-SameBut m a (b ∷ bs) x h =
    write-SameBut (poke m a b) (suc a) bs x (omega arith) ∙ ground arith

pub read-SameAt : (m m' : Memory) (a n : ℕ) → SameAt a n m m' → read m' a n ≡ read m a n
unfolding read
read-SameAt m m' a zero h = refl
read-SameAt m m' a (suc n) h = rw (
  h a (omega arith) (omega arith),
  read-SameAt m m' (suc a) n λ x p q. h x (omega arith) (omega arith),
)

pub word-SameAt : (m m' : Memory) (a : ℕ) → SameAt a 4 m m' → word m' a ≡ word m a
unfolding word
word-SameAt m m' a h = rw (
  h a (omega arith) (omega arith),
  h (a + 1) (omega arith) (omega arith),
  h (a + 2) (omega arith) (omega arith),
  h (a + 3) (omega arith) (omega arith),
)

pub read-write : (m : Memory) (a : ℕ) (bs : List ℕ) → read (write m a bs) a (length bs) ≡ bs
unfolding read write
read-write m a [] = refl
read-write m a (b ∷ bs) =
    rw (write-SameBut (poke m a b) (suc a) bs a (omega arith), read-write (poke m a b) (suc a) bs)
      (ground arith)

pub word-write : (m : Memory) (a w : ℕ) → word (write m a (le32 w)) a ≡ w % u32
unfolding word write le32 of_le32
word-write m a w = ground (arith, of_le32-le32 w)

pub byte-write : (m : Memory) (a b : ℕ) → (write m a (b ∷ [])).byte a ≡ b
unfolding write
byte-write m a b = ground arith

pub copy_in-ok :
    (p : ℕ) (bs : List ℕ) (m : Memory)
    → p + length bs ≤ m.size
    → copy_in p bs m ≡ ok tt (write m p bs)
unfolding copy_in
copy_in-ok p bs m h = ground arith

pub copy_out-ok : (p n : ℕ) (m : Memory) → p + n ≤ m.size → copy_out p n m ≡ ok (read m p n) m
unfolding copy_out
copy_out-ok p n m h = ground arith

pub store32-ok :
    (p w : ℕ) (m : Memory) → p + 4 ≤ m.size → store32 p w m ≡ ok tt (write m p (le32 w))
unfolding store32
store32-ok p w m h = ground arith

pub load32-ok : (p : ℕ) (m : Memory) → p + 4 ≤ m.size → load32 p m ≡ ok (word m p) m
unfolding load32
load32-ok p m h = ground arith

-- A range that lies in the memory, below 2 GiB, is given out as it is.
pub get_memory_inside :
    (m : Memory) (addr size : ℕ)
    → addr + size ≤ m.size
    → addr + size < half32
    → get_memory m addr size ≡ some addr
unfolding get_memory add32 sext64
get_memory_inside m addr size inside low = ground arith

-- For a range with no negative number in it `ngx_wasm_wasmtime_get_memory` gives either the pointer
-- to its start, and the whole range is in the memory and ends below 2 GiB, or NULL, and it is not.
pub get_memory_sound :
    (m : Memory) (addr size : ℕ)
    → addr < half32
    → size < half32
    → m.size ≤ u32
    → ((get_memory m addr size ≡ some addr) × (addr + size ≤ m.size) × (addr + size < half32))
      ⊎ ((get_memory m addr size ≡ none) × ((m.size < addr + size) ⊎ (half32 ≤ addr + size)))
unfolding get_memory add32 sext64
get_memory_sound m addr size na ns small =
    elim (Bool-cases (leb (addr + size) m.size && ltb (addr + size) half32)) [
      | inl e ↦ inl (ground arith, ground arith, ground arith)
      | inr e ↦ inr (ground arith, ground arith)
    ]

-- A negative address whose sum with the size is not negative and in range passes the test, and the
-- pointer lies outside the memory: in front of its start.
pub get_memory_below :
    (m : Memory) (addr size : ℕ)
    → half32 ≤ addr
    → addr < u32
    → u32 ≤ addr + size
    → addr + size ≤ u32 + m.size
    → addr + size < u32 + half32
    → m.size ≤ u32
    → (p : ℕ) × (get_memory m addr size ≡ some p) × (m.size < p)
unfolding get_memory add32 sext64
get_memory_below m addr size neg word over inside low small =
    (addr + (u64 - u32), ground arith, omega arith)
