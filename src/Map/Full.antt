-- ===== src/Map/Full.antt =====
-- A whole map written by the host, as the header getters of src/http/ngx_http_wasm_api.c do it:
-- `proxy_wasm_map_init_map`, `proxy_wasm_map_init_iter`, and an entry for each header. The map takes
-- exactly the bytes that the getters count, and reads back as the headers.
use wasm_nginx_module.Prelude.{ℕ, suc, ◌+◌, ◌*◌, ◌%◌, ◌≤◌, ◌<◌, ◌≡◌, refl, ◌∙◌, List, arith, length}
use wasm_nginx_module.Words.{u32, u64, half32, add64_small, sext64_pos, le32}
use wasm_nginx_module.Run.{M, ok, ◌>>=◌, ◌>>◌, Returns, returns, bind, mono}
use wasm_nginx_module.Memory.{Memory, write}
use wasm_nginx_module.Memory.Laws.{
  SameBut, load32-ok, store32-ok, size-write, write-SameBut, word-write, word-SameAt,
}
use wasm_nginx_module.Map.{Iter, Slot, init_map, init_iter}
use wasm_nginx_module.Map.Layout.{Header, IsMap, map_size}
use wasm_nginx_module.Map.Build.{Filled, put_headers, put_headers-Filled}
use wasm_nginx_module.Map.Walk.{read_map, read_map-IsMap}

-- The key and value pointers of a getter before its first entry: no address of any buffer.
abbrev pub start : Iter → Slot
start it = record { it = it; key = u64; val = u64 }

-- The iterator at the first entry of a map of `n` entries at `p`.
abbrev pub first : ℕ → ℕ → Iter
first p n = record { idx = 0; len = n; size_ptr = p + 4; data_ptr = p + 4 + 8 * n }

-- `init_map` and `init_iter` on a block with room for the lengths.
pub init_iter-first :
    (p n : ℕ) (m : Memory)
    → 2 * n < half32
    → p + 4 + 8 * n ≤ m.size
    → m.size ≤ u32
    → (init_map p n >> init_iter p) m ≡ ok (first p n) (write m p (le32 n))
unfolding init_map init_iter
init_iter-first p n m few room small =
    let same : n % u32 ≡ n = omega arith in
    let twice : 2 * n % u32 ≡ 2 * n = omega arith in
    rw
      (
        store32-ok p n m (omega arith),
        load32-ok p (write m p (le32 n)) (omega (arith, size-write m p (le32 n))),
        word-write m p n,
        same,
        twice,
        add64_small p 4 (omega arith),
        sext64_pos (2 * n) few,
        add64_small (p + 4) (4 * (2 * n)) (omega arith),
      )
      (ground arith)

-- The map at `p` holds `hs`, and nothing behind its `map_size hs` bytes, or in front, has changed.
pub record Written (m m' : Memory) (p : ℕ) (hs : List Header) : Type 0 where
  pub is_map : IsMap m' p hs
  pub size : m'.size ≡ m.size
  pub same : SameBut p (map_size hs) m m'

pub Filled-Written :
    (m m' : Memory) (p : ℕ) (hs : List Header)
    → length hs < u32
    → Filled (write m p (le32 (length hs))) m' (p + 4) (p + 4 + 8 * length hs) hs
    → Written m m' p hs
unfolding le32
Filled-Written m m' p hs few f = record {
  is_map = record {
    count =
        word-SameAt (write m p (le32 (length hs))) m' p
          (λ x a b. f.same x (omega arith) (omega arith))
        ∙ word-write m p (length hs)
        ∙ omega arith;
    entries = f.holds;
  };
  size = f.size ∙ size-write m p _;
  same = λ x o.
      f.same x (omega arith) (omega arith) ∙ write-SameBut m p (le32 (length hs)) x (omega arith);
}

-- The entries behind the count, in a block with room for the map.
pub put_headers-Written :
    (p : ℕ) (hs : List Header) (m : Memory)
    → p + map_size hs ≤ m.size
    → map_size hs < half32
    → m.size ≤ u32
    → Returns
        (λ _ m'. Written m m' p hs)
        (put_headers (start (first p (length hs))) hs (write m p (le32 (length hs))))
put_headers-Written p hs m room short small =
    mono
      (put_headers-Filled (start (first p (length hs))) hs (write m p (le32 (length hs))) (
        let z = size-write m p (le32 (length hs)) in
        record {
          entries = omega arith;
          count = omega arith;
          apart = omega arith;
          inside = omega arith;
          short = omega arith;
          small = omega arith;
        }))
      λ s m' (f, e). Filled-Written m m' p hs (omega arith) f

-- The headers as one map at `p`.
unfoldable pub build_map : ℕ → List Header → M Memory Slot
unfolding init_map init_iter put_headers
build_map p hs = do it ← init_map p (length hs) >> init_iter p; put_headers (start it) hs

-- A block of `map_size hs` bytes is enough: no write leaves it, and it holds the map of `hs`.
pub build_map-Written :
    (p : ℕ) (hs : List Header) (m : Memory)
    → p + map_size hs ≤ m.size
    → map_size hs < half32
    → m.size ≤ u32
    → Returns (λ _ m'. Written m m' p hs) (build_map p hs m)
unfolding build_map
build_map-Written p hs m room short small =
    rw (init_iter-first p (length hs) m (omega arith) (omega arith) small)
      (put_headers-Written p hs m room short small)

-- In a block with room for it, a map of less than 2 GiB that is written and read back gives the
-- headers, in order, byte for byte, whatever is in them, and no byte outside the map has changed.
pub read_map-build_map :
    (p : ℕ) (hs : List Header) (m : Memory)
    → p + map_size hs ≤ m.size
    → map_size hs < half32
    → m.size ≤ u32
    → Returns
        (λ hs' m'. (hs' ≡ hs) × SameBut p (map_size hs) m m')
        ((build_map p hs >> read_map (suc (length hs)) p) m)
read_map-build_map p hs m room short small =
    bind (build_map-Written p hs m room short small) λ s m' w.
      rw (read_map-IsMap p hs m' w.is_map (omega (arith, w.size)) short (omega (arith, w.size)))
        (returns (refl, w.same))
