-- ===== src/Map.antt =====
-- src/proxy_wasm/proxy_wasm_map.c: the serialised header map. It holds the count of its entries, the
-- two lengths of each, and then each key and value with a NUL behind it. An iterator is two cursors
-- into the buffer, one at the lengths and one at the texts. Nothing in the C code compares a cursor
-- with the end of the buffer, so the model faults where a cursor leaves it.
pub mod Layout
pub mod Placed
pub mod Build
pub mod Walk
pub mod Full
pub mod Stages
pub mod Literal
use wasm_nginx_module.Prelude.{
  ℕ, zero, suc, ◌+◌, ◌*◌, ◌%◌, Bool, true, false, List, [], ◌∷◌, ◌++◌, ◌==◌, if◌then◌else◌, length,
}
use wasm_nginx_module.Words.{u32, u64, add32, add64, sext64}
use wasm_nginx_module.Run.{M, pure, ◌>>=◌, ◌>>◌}
use wasm_nginx_module.Memory.{Memory, copy_in, load32, store32}

-- `proxy_wasm_map_iter`.
pub record Iter : Type 0 where
  pub idx : ℕ
  pub len : ℕ
  pub size_ptr : ℕ
  pub data_ptr : ℕ

-- The out parameters of `proxy_wasm_map_next`: where the key and the value are, and their lengths.
pub record Entry : Type 0 where
  pub key : ℕ
  pub key_len : ℕ
  pub val : ℕ
  pub val_len : ℕ

-- `proxy_wasm_map_init_map`.
unfoldable pub init_map : ℕ → ℕ → M Memory (Unit {0})
init_map map_data len = store32 map_data len

-- `proxy_wasm_map_init_iter`. `2 * it->len` is an `int32_t`; the sum is of `int32_t *`.
unfoldable pub init_iter : ℕ → M Memory Iter
init_iter map_data = do
  len ← load32 map_data
  let size_ptr = add64 map_data 4
  pure (record {
    idx = 0;
    len = len;
    size_ptr = size_ptr;
    data_ptr = add64 size_ptr (4 * sext64 (2 * len % u32));
  })

-- What `proxy_wasm_map_next` answers: `false`, or `true` with its out parameters.
pub data Next : Type 0 where
  done : Next
  entry : Entry → Iter → Next

-- `proxy_wasm_map_next`.
unfoldable pub next : Iter → M Memory Next
next it = if it.idx == it.len then pure done else do
  key_len ← load32 it.size_ptr
  val_len ← load32 (add64 it.size_ptr 4)
  let val = add64 it.data_ptr (sext64 (add32 key_len 1))
  pure (
      entry (record { key = it.data_ptr; key_len = key_len; val = val; val_len = val_len })
        (record it {
          idx = add32 it.idx 1;
          size_ptr = add64 it.size_ptr 8;
          data_ptr = add64 val (sext64 (add32 val_len 1));
        }))

-- The variables of a caller of `proxy_wasm_map_reserve`: its iterator, and where the last entry's
-- key and value are. A call that answers `false` leaves them as they are.
pub record Slot : Type 0 where
  pub it : Iter
  pub key : ℕ
  pub val : ℕ

-- `proxy_wasm_map_reserve`.
unfoldable pub reserve : Slot → ℕ → ℕ → M Memory (Bool × Slot)
reserve s key_len val_len = if s.it.idx == s.it.len then pure (false, s) else do
  store32 s.it.size_ptr key_len
  store32 (add64 s.it.size_ptr 4) val_len
  let key = s.it.data_ptr
  let key_end = add64 key (sext64 key_len)
  copy_in key_end (0 ∷ [])
  let val = add64 key_end 1
  let val_end = add64 val (sext64 val_len)
  copy_in val_end (0 ∷ [])
  let it : Iter = record {
    idx = add32 s.it.idx 1;
    len = s.it.len;
    size_ptr = add64 s.it.size_ptr 8;
    data_ptr = add64 val_end 1;
  }
  pure (true, record { it = it; key = key; val = val })

-- `proxy_wasm_map_reserve_literal_with_len`. A literal has a NUL behind it, which is copied too.
unfoldable pub reserve_literal : Iter → List ℕ → List ℕ → M Memory (Bool × Iter)
reserve_literal it key val = if it.idx == it.len then pure (false, it) else do
  store32 it.size_ptr (length key % u32)
  store32 (add64 it.size_ptr 4) (length val % u32)
  copy_in it.data_ptr (key ++ 0 ∷ [])
  let val_ptr = add64 it.data_ptr (length key + 1)
  copy_in val_ptr (val ++ 0 ∷ [])
  pure (
    true,
    record it {
      idx = add32 it.idx 1;
      size_ptr = add64 it.size_ptr 8;
      data_ptr = add64 val_ptr (length val + 1);
    },
  )
