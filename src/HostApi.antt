-- ===== src/HostApi.antt =====
-- The host functions as the engines see them: the prototypes of src/http/ngx_http_wasm_api_def.h, and
-- what the wrappers and tables of src/http/ngx_http_wasm_api_wasmtime.h and
-- src/http/ngx_http_wasm_api_wasmedge.h have in common.
pub mod Declared
pub mod Wasmtime
pub mod Wasmedge
pub mod Unpacking
pub mod Agreement
pub mod Fixed
pub mod Functions
pub mod Endings
pub mod Frames
pub mod Readers
pub mod ReadPairs
pub mod Writers
pub mod Setters
pub mod Loops
pub mod Termination
pub mod Every
pub mod Effects
pub mod Dialogue
pub mod Answered
use Prim.Native.String.{String}
use wasm_nginx_module.Prelude.{ℕ, zero, suc, ◌*◌, ◌^◌, List, [], ◌∷◌, take}
use wasm_nginx_module.Run.{M}
use wasm_nginx_module.Host.{
  Host, ProxyResult, result_ok, not_found, bad_argument, invalid_memory_access, internal_failure,
  unimplemented,
}

-- The parameter lists: DEFINE_WASM_API_ARG_VOID, DEFINE_WASM_API_ARG_I32_1 to
-- DEFINE_WASM_API_ARG_I32_12 by their number, and DEFINE_WASM_API_ARG_I32_I64.
pub data Shape : Type 0 where
  void : Shape
  i32s : ℕ → Shape
  i32_i64 : Shape

-- A host function with so many parameters of type `int32_t`.
abbrev pub Curried : ℕ → Type 0
Curried zero = M Host ProxyResult
Curried (suc n) = ℕ → Curried n

abbrev pub Fn : Shape → Type 0
Fn void = M Host ProxyResult
Fn (i32s n) = Curried n
Fn i32_i64 = ℕ → ℕ → M Host ProxyResult

-- `wasm_valkind_t` and `enum WasmEdge_ValType`, as far as the tables name their members.
pub data Kind : Type 0 where
  i32 i64 : Kind

-- `n` times `i32`.
abbrev pub words : ℕ → List Kind
words zero = []
words (suc n) = i32 ∷ words n

-- A row of a table of host functions, `ngx_wasm_wasmtime_host_api_t` and
-- `ngx_wasm_wasmedge_host_api_t`, for the values `V` of the engine. What a function gives is written
-- into a list of results.
pub record Api (V : Type 0) : Type 0 where
  pub name : String
  pub cb : List V → M Host (List V)
  pub param_num : ℕ
  pub param_type : List Kind

-- MAX_WASM_API_ARG, the length of the array `param_type`.
abbrev pub max_wasm_api_arg : ℕ
max_wasm_api_arg = 12

-- The type under which the engine knows a host function.
pub record FuncType : Type 0 where
  pub params : List Kind
  pub results : List Kind

-- The members of `proxy_result_t`, as the `int32_t` that a host function returns.
unfoldable pub result_code : ProxyResult → ℕ
result_code result_ok = 0
result_code not_found = 1
result_code bad_argument = 2
result_code invalid_memory_access = 6
result_code internal_failure = 10
result_code unimplemented = 12
