-- ===== src/Memory.antt =====
-- A byte buffer: the linear memory of a plugin, or a block of an nginx pool. The accesses that the C
-- code makes through raw pointers are checked here, and fault outside the buffer.
-- src/vm/wasmtime.c: `ngx_wasm_wasmtime_get_memory`.
pub mod Laws
use wasm_nginx_module.Prelude.{
  ℕ, zero, suc, ◌+◌, Bool, List, [], ◌∷◌, Option, none, some, ltb, leb, ◌==◌, if◌then◌else◌, length,
}
use wasm_nginx_module.Words.{add32, sext64, le32, of_le32}
use wasm_nginx_module.Run.{M, ok, fault}

pub record Memory : Type 0 where
  pub size : ℕ
  pub byte : ℕ → ℕ

abbrev pub poke : Memory → ℕ → ℕ → Memory
poke m a v = record m { byte = λ x. if x == a then v else m.byte x }

-- The bytes `bs` put at `a` and the places after it.
unfoldable pub write : Memory → ℕ → List ℕ → Memory
write m a [] = m
write m a (b ∷ bs) = write (poke m a b) (suc a) bs

unfoldable pub read : Memory → ℕ → ℕ → List ℕ
read m a zero = []
read m a (suc n) = m.byte a ∷ read m (suc a) n

-- The `int32_t` at `a`.
unfoldable pub word : Memory → ℕ → ℕ
unfolding of_le32
word m a = of_le32 (m.byte a) (m.byte (a + 1)) (m.byte (a + 2)) (m.byte (a + 3))

-- A pointer and a length are good when they stay within the buffer.
abbrev pub fits : Memory → ℕ → ℕ → Bool
fits m p n = leb (p + n) m.size

-- `ngx_memcpy(p, bs, length bs)`.
unfoldable pub copy_in : ℕ → List ℕ → M Memory (Unit {0})
unfolding write
copy_in p bs m = if fits m p (length bs) then ok tt (write m p bs) else fault

-- The `n` bytes at `p`.
unfoldable pub copy_out : ℕ → ℕ → M Memory (List ℕ)
unfolding read
copy_out p n m = if fits m p n then ok (read m p n) m else fault

-- `*p = w` and `*p` at an `int32_t *`.
unfoldable pub store32 : ℕ → ℕ → M Memory (Unit {0})
unfolding copy_in le32
store32 p w = copy_in p (le32 w)

unfoldable pub load32 : ℕ → M Memory ℕ
unfolding word
load32 p m = if fits m p 4 then ok (word m p) m else fault

-- `ngx_wasm_wasmtime_get_memory`: a host pointer to `addr`, or NULL. The sum `addr + size` is taken
-- in `int32_t` and then compared as a `size_t`.
unfoldable pub get_memory : Memory → ℕ → ℕ → Option ℕ
get_memory m addr size = if ltb m.size (sext64 (add32 addr size)) then none else some (sext64 addr)
