-- ===== src/Vm.antt =====
-- src/vm/wasmtime.c: calls of a plugin's exports (`ngx_wasm_wasmtime_call`,
-- `ngx_wasm_wasmtime_has`). The WebAssembly engine is not in src/; what it does
-- with a call is a parameter.
pub mod Laws
pub mod Wasmedge
pub mod Agreement
use Prim.Native.String.{String}
use wasm_nginx_module.Prelude.{
  ℕ, zero, suc, ◌-◌, ◌+◌, Bool, true, false, List, [], ◌∷◌, Option, none, some, if◌then◌else◌, not,
  take, length, ◌==◌,
}
use wasm_nginx_module.Words.{u32}
use wasm_nginx_module.Run.{M, ok, fault, pure, ◌>>=◌}
use wasm_nginx_module.Memory.{Memory}

-- What a call in the engine ends with.
pub data Invoked : Type 0 where
  -- an error or a trap
  trapped : Invoked
  -- an `i32`, as its bit pattern
  returned_i32 : ℕ → Invoked
  -- a value of another type, or none
  returned_other : Invoked

-- The engine with a plugin in it: which names the plugin exports, which of them are those of functions,
-- and how a call of a function ends and what it does to the plugin's memory. The first number tells the calls apart, so that a plugin may
-- answer the same call differently later.
pub record Engine : Type 0 where
  pub exports : String → Bool
  pub is_function : String → Bool
  pub invoke : ℕ → String → List ℕ → Memory → Invoked × Memory

-- A plugin while it runs: its memory, and the number of calls made so far.
pub record Plugin : Type 0 where
  pub mem : Memory
  pub tick : ℕ

-- NGX_OK and NGX_ERROR, as `int32_t`.
abbrev pub ngx_ok : ℕ
ngx_ok = 0

abbrev pub ngx_error : ℕ
ngx_error = u32 - 1

-- NGX_WASM_PARAM_VOID and the rest of the list in src/vm/vm.h, up to five `i32`.
unfoldable pub param_num : ℕ → Option ℕ
param_num param_type =
    if param_type == 1
    then some 0
    else if param_type == 2
    then some 1
    else if param_type == 3
    then some 2
    else if param_type == 4
    then some 3
    else if param_type == 5
    then some 4
    else if param_type == 6
    then some 5
    else none

-- How the end of the engine's call is reported.
unfoldable pub report : Bool → Invoked → ℕ
report has_result trapped = ngx_error
report false (returned_i32 w) = ngx_ok
report false returned_other = ngx_ok
report true (returned_i32 w) = w
report true returned_other = ngx_error

-- `ngx_wasm_wasmtime_has`, which finds an export of any kind.
unfoldable pub has : Engine → String → Bool
has e name = e.exports name

-- `va_arg` for each parameter of the type. Reading more arguments than were passed is undefined.
unfoldable pub va_args : ℕ → List ℕ → Option (List ℕ)
va_args zero args = some []
va_args (suc n) [] = none
va_args (suc n) (a ∷ args) = elim (va_args n args) [ none ↦ none | some as' ↦ some (a ∷ as') ]

-- `ngx_wasm_wasmtime_call` behind its parameter list. An export that is no function is used as one.
unfoldable pub invoke_params : Engine → String → Bool → Option (List ℕ) → M Plugin ℕ
unfolding report
invoke_params e name has_result none p = fault
invoke_params e name has_result (some params) p =
    let (end, mem) = e.invoke p.tick name params p.mem in
    if e.is_function name
    then ok (report has_result end) (record { mem = mem; tick = suc p.tick })
    else fault

-- `ngx_wasm_wasmtime_call` on the plugin that is selected. A function that the plugin does not
-- export is reported as NGX_OK.
unfoldable pub call : Engine → String → Bool → ℕ → List ℕ → M Plugin ℕ
unfolding param_num has va_args invoke_params
call e name has_result param_type args p =
    if not (has e name) then ok ngx_ok p else elim (param_num param_type) [
      | none ↦ ok ngx_error p
      | some n ↦ invoke_params e name has_result (va_args n args) p
    ]

-- Which plugin a call goes to, and the value of `cur_plugin` behind it: NULL means the last one.
unfoldable pub select : Option ℕ → ℕ → ℕ
select none cur_plugin = cur_plugin
select (some plugin) cur_plugin = plugin
