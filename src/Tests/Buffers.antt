-- ===== src/Tests/Buffers.antt =====
-- The theorems on bodies, at a body of three bytes.
use wasm_nginx_module.Prelude.{◌≡◌, refl, inl, inr, true, [], ◌∷◌, some, arith}
use wasm_nginx_module.Words.{le32, add32, sext64}
use wasm_nginx_module.Run.{Returns, fault}
use wasm_nginx_module.Memory.{write, get_memory}
use wasm_nginx_module.Vm.{Engine, returned_i32}
use wasm_nginx_module.Host.{Host, WasmState, result_ok, with_mem}
use wasm_nginx_module.Copy.{memory_alloc}
use wasm_nginx_module.Copy.Laws.{Allocated, HandedOver, Inside}
use wasm_nginx_module.Buffers.{get_buffer_bytes}
use wasm_nginx_module.Buffers.Laws.{get_buffer_bytes-HandedOver, get_buffer_bytes_overflow}
use wasm_nginx_module.Tests.Data.{zeros, engine, host}

abbrev state : WasmState
state = record { conf = []; body = 7 ∷ 8 ∷ 9 ∷ []; has_req = true; plugin_name = [] }

abbrev with_body : Host
with_body = record host { cur_state = some state }

-- The host with the length 2 in the cell of the answer, before and behind the allocation.
abbrev sized : Host
sized = with_mem with_body (write zeros 16 (le32 2))

abbrev sized_after : Host
sized_after = record sized { plugin = record { mem = sized.mem; tick = 1 } }

allocated : Allocated sized sized_after 100 2 8 16
unfolding write le32
allocated = record {
  gives = record {
    not_null = omega arith;
    block = record { fits = omega arith; low = omega arith };
    addr_cell = record { fits = omega arith; low = omega arith };
    size_cell = record { fits = omega arith; low = omega arith };
    block_addr = inr (omega arith);
    block_size = inr (omega arith);
    addr_size = inl (omega arith);
    small = omega arith;
  };
  kept = refl;
}

cell : Inside with_body 16 4
cell = record { fits = omega arith; low = omega arith }

get_buffer_bytes-HandedOver_example :
    Returns
      (λ r h2. (r ≡ result_ok) × HandedOver sized_after h2 100 8 16 (8 ∷ 9 ∷ []))
      (get_buffer_bytes engine 0 1 5 8 16 with_body)
unfolding memory_alloc
get_buffer_bytes-HandedOver_example =
    get_buffer_bytes-HandedOver engine 0 1 5 8 16 100 with_body sized_after state (inl refl) refl
      (record {
        starts = omega arith;
        some_bytes = omega arith;
        no_overflow = omega arith;
        short = omega arith;
      })
      cell refl allocated

-- An allocator that answers with a negative address.
abbrev wild_engine : Engine
wild_engine = record {
  exports = λ _. true;
  is_function = λ _. true;
  invoke = λ _ _ _ m. (returned_i32 0x80000010, m);
}

abbrev huge_after : Host
huge_after = record with_body {
  plugin = record { mem = write zeros 16 (le32 0x7fffffff); tick = 1 };
}

get_buffer_bytes_overflow_example :
    get_buffer_bytes wild_engine 1 1 0x7fffffff 8 16 with_body ≡ fault
unfolding memory_alloc get_memory write le32 add32 sext64
get_buffer_bytes_overflow_example =
    get_buffer_bytes_overflow wild_engine 1 1 0x7fffffff 8 16 0x80000010 0xffffffff80000010
      with_body huge_after state (inr refl) refl (omega arith) (omega arith) (omega arith)
      (omega arith) cell refl (omega arith) refl
