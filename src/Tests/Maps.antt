-- ===== src/Tests/Maps.antt =====
-- The theorems on buffers and maps, at a small map in 256 bytes.
use wasm_nginx_module.Prelude.{ℕ, ◌≡◌, ◌<◌, [], ◌∷◌, arith, some}
use wasm_nginx_module.Run.{Returns, ◌>>◌}
use wasm_nginx_module.Memory.{get_memory}
use wasm_nginx_module.Memory.Laws.{SameBut, get_memory_below}
use wasm_nginx_module.Map.Walk.{read_map}
use wasm_nginx_module.Map.Full.{build_map, read_map-build_map}
use wasm_nginx_module.Tests.Data.{zeros, accept}

read_map-build_map_example :
    Returns
      (λ hs' m'. (hs' ≡ accept ∷ accept ∷ []) × SameBut 10 30 zeros m')
      ((build_map 10 (accept ∷ accept ∷ []) >> read_map 3 10) zeros)
read_map-build_map_example =
    read_map-build_map 10 (accept ∷ accept ∷ []) zeros (omega arith) (omega arith) (omega arith)

get_memory_below_example : (p : ℕ) × (get_memory zeros 0xffffffff 2 ≡ some p) × (256 < p)
get_memory_below_example =
    get_memory_below zeros 0xffffffff 2 (omega arith) (omega arith) (omega arith) (omega arith)
      (omega arith) (omega arith)
