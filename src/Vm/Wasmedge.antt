-- ===== src/Vm/Wasmedge.antt =====
-- src/vm/wasmedge.c: `ngx_wasm_wasmedge_has`, `ngx_wasm_wasmedge_call` and
-- `ngx_wasm_wasmedge_get_memory`, the counterparts of what src/vm/wasmtime.c does for wasmtime.
use Prim.Native.String.{String}
use wasm_nginx_module.Prelude.{
  ℕ, suc, ◌+◌, ◌<◌, ◌≤◌, ◌≡◌, Bool, true, false, not, ◌&&◌, List, Option, none, some, if◌then◌else◌,
  ◌==◌,
}
use wasm_nginx_module.Run.{M, ok, fault}
use wasm_nginx_module.Memory.{Memory}
use wasm_nginx_module.Vm.{
  Engine, Plugin, Invoked, trapped, returned_i32, returned_other, ngx_ok, ngx_error, va_args,
}

-- What the module calls of WasmEdge beside the functions of a plugin: `WasmEdge_ValueGetI32` of a
-- result that is no `i32`, and `WasmEdge_MemoryInstanceGetPointer`.
pub record WasmedgeApi : Type 0 where
  pub value_get_i32 : ℕ
  pub get_pointer : Memory → ℕ → ℕ → Option ℕ

-- What the comment in the source says of `WasmEdge_MemoryInstanceGetPointer`: NULL if the range is not
-- in the memory, and else a pointer to its start. The two arguments are unsigned.
pub record PointsInside (api : WasmedgeApi) : Type 0 where
  pub inside :
      (m : Memory) (addr size : ℕ) → addr + size ≤ m.size → api.get_pointer m addr size ≡ some addr
  pub outside :
      (m : Memory) (addr size : ℕ) → m.size < addr + size → api.get_pointer m addr size ≡ none

-- `ngx_wasm_wasmedge_has`, which finds functions only.
unfoldable pub has : Engine → String → Bool
has e name = e.exports name && e.is_function name

-- The number of parameters that the switch gives; `none` is an unknown type.
unfoldable pub param_num : ℕ → Option ℕ
param_num param_type =
    if param_type == 1
    then some 0
    else if param_type == 2
    then some 1
    else if param_type == 3
    then some 2
    else if param_type == 4
    then some 3
    else if param_type == 5
    then some 4
    else if param_type == 6
    then some 5
    else none

module _ (api : WasmedgeApi) where
  -- How the end of `WasmEdge_ExecutorInvoke` is reported. The type of a result is not looked at.
  unfoldable pub report : Bool → Invoked → ℕ
  report has_result trapped = ngx_error
  report false (returned_i32 w) = ngx_ok
  report false returned_other = ngx_ok
  report true (returned_i32 w) = w
  report true returned_other = api.value_get_i32

  -- `ngx_wasm_wasmedge_call` behind its parameter list.
  unfoldable pub invoke : Engine → String → Bool → Option (List ℕ) → M Plugin ℕ
  unfolding report
  invoke e name has_result none p = fault
  invoke e name has_result (some param_list) p =
      let (end, mem) = e.invoke p.tick name param_list p.mem in
      ok (report has_result end) (record { mem = mem; tick = suc p.tick })

  -- `ngx_wasm_wasmedge_call` on the plugin that is selected.
  unfoldable pub call : Engine → String → Bool → ℕ → List ℕ → M Plugin ℕ
  unfolding has param_num va_args
  call e name has_result param_type args p =
      if not (has e name) then ok ngx_ok p else elim (param_num param_type) [
        | none ↦ ok ngx_error p
        | some n ↦ invoke e name has_result (va_args n args) p
      ]

  -- `ngx_wasm_wasmedge_get_memory`.
  unfoldable pub get_memory : Memory → ℕ → ℕ → Option ℕ
  get_memory m addr size = api.get_pointer m addr size
