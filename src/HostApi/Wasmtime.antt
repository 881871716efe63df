-- ===== src/HostApi/Wasmtime.antt =====
-- The host functions for wasmtime: the macros, wrappers and table of
-- src/http/ngx_http_wasm_api_wasmtime.h, and `ngx_http_wasmtime_host_api_func` of src/vm/wasmtime.c.
use Prim.Native.String.{String}
use wasm_nginx_module.Prelude.{ℕ, zero, suc, ◌%◌, List, [], ◌∷◌, none, some, get_elem?, take}
use wasm_nginx_module.Words.{u32}
use wasm_nginx_module.Run.{M, pure, undefined, ◌>>=◌}
use wasm_nginx_module.Host.{Host, ProxyResult}
use wasm_nginx_module.HostApi.{
  Shape, void, i32s, i32_i64, Curried, Fn, Kind, i32, i64, words, Api, FuncType, result_code,
}
use wasm_nginx_module.HostApi.Declared.{HostApiDef}

-- `wasmtime_val_t`, with the bit pattern of the value.
pub data Val : Type 0 where
  val_i32 : ℕ → Val
  val_i64 : ℕ → Val

abbrev pub kind : Val → Kind
kind (val_i32 w) = i32
kind (val_i64 w) = i64

-- The members `of.i32` and `of.i64` of the union: the low half of an `i64`, and for an `i32` four bytes
-- that are not set.
unfoldable pub of_i32 : Val → M Host ℕ
of_i32 (val_i32 w) = pure w
of_i32 (val_i64 w) = pure (w % u32)

unfoldable pub of_i64 : Val → M Host ℕ
of_i64 (val_i32 w) = undefined
of_i64 (val_i64 w) = pure w

-- `args[i]`, in the array that the engine passes.
unfoldable pub arg : List Val → ℕ → M Host Val
arg args i = elim (get_elem? args i) [ none ↦ undefined | some v ↦ pure v ]

-- The lines `int32_t p<i> = args[<i>].of.i32;` from `i` on, `n` of them, and the call behind them.
unfoldable pub unpack : (n : ℕ) → ℕ → Curried n → List Val → M Host ProxyResult
unfolding of_i32 arg
unpack zero i f args = f
unpack (suc n) i f args = do v ← arg args i; p ← of_i32 v; unpack n (suc i) (f p) args

-- DEFINE_WASM_API_ARG_CHECK_VOID, DEFINE_WASM_API_ARG_CHECK_I32_1 to DEFINE_WASM_API_ARG_CHECK_I32_12,
-- and DEFINE_WASM_API_ARG_CHECK_I32_I64.
unfoldable pub arg_check : (s : Shape) → Fn s → List Val → M Host ProxyResult
unfolding unpack of_i64
arg_check void f args = f
arg_check (i32s n) f args = unpack n 0 f args
arg_check i32_i64 f args = do
  v0 ← arg args 0
  p0 ← of_i32 v0
  v1 ← arg args 1
  p1 ← of_i64 v1
  f p0 p1

-- DEFINE_WASM_API: the wrapper of a host function. It never traps.
unfoldable pub define_wasm_api : (s : Shape) → Fn s → List Val → M Host (List Val)
unfolding arg_check result_code
define_wasm_api s f args = do res ← arg_check s f args; pure (val_i32 (result_code res) ∷ [])

-- DEFINE_WASM_NAME_ARG_VOID and the others: the number of parameters, and their types.
unfoldable pub arg_num : Shape → ℕ
arg_num void = 0
arg_num (i32s n) = n
arg_num i32_i64 = 2

unfoldable pub arg_types : Shape → List Kind
arg_types void = []
arg_types (i32s n) = words n
arg_types i32_i64 = i32 ∷ i64 ∷ []

-- DEFINE_WASM_NAME.
unfoldable pub define_wasm_name : String → (List Val → M Host (List Val)) → Shape → Api Val
unfolding arg_num arg_types
define_wasm_name name cb s = record {
  name = name;
  cb = cb;
  param_num = arg_num s;
  param_type = arg_types s;
}

-- `host_apis`, less the empty row that ends it. In each row, the wrapper is that of DEFINE_WASM_API with
-- the macro that is named there.
unfoldable pub host_apis : HostApiDef → List (Api Val)
unfolding define_wasm_api define_wasm_name
host_apis d =
    define_wasm_name "proxy_set_effective_context"
      (define_wasm_api (i32s 1) d.proxy_set_effective_context) (i32s 1)
    ∷ define_wasm_name "proxy_get_property" (define_wasm_api (i32s 4) d.proxy_get_property) (i32s 4)
    ∷ define_wasm_name "proxy_set_property" (define_wasm_api (i32s 4) d.proxy_set_property) (i32s 4)
    ∷ define_wasm_name "proxy_log" (define_wasm_api (i32s 3) d.proxy_log) (i32s 3)
    ∷ define_wasm_name "proxy_get_buffer_bytes" (define_wasm_api (i32s 5) d.proxy_get_buffer_bytes)
        (i32s 5)
    ∷ define_wasm_name "proxy_set_buffer_bytes" (define_wasm_api (i32s 5) d.proxy_set_buffer_bytes)
        (i32s 5)
    ∷ define_wasm_name "proxy_send_local_response"
        (define_wasm_api (i32s 8) d.proxy_send_local_response) (i32s 8)
    ∷ define_wasm_name "proxy_send_http_response"
        (define_wasm_api (i32s 8) d.proxy_send_http_response) (i32s 8)
    ∷ define_wasm_name "proxy_get_current_time_nanoseconds"
        (define_wasm_api (i32s 1) d.proxy_get_current_time_nanoseconds) (i32s 1)
    ∷ define_wasm_name "proxy_set_tick_period_milliseconds"
        (define_wasm_api (i32s 1) d.proxy_set_tick_period_milliseconds) (i32s 1)
    ∷ define_wasm_name "proxy_get_configuration"
        (define_wasm_api (i32s 2) d.proxy_get_configuration) (i32s 2)
    ∷ define_wasm_name "proxy_get_header_map_pairs"
        (define_wasm_api (i32s 3) d.proxy_get_header_map_pairs) (i32s 3)
    ∷ define_wasm_name "proxy_set_header_map_pairs"
        (define_wasm_api (i32s 3) d.proxy_set_header_map_pairs) (i32s 3)
    ∷ define_wasm_name "proxy_get_header_map_value"
        (define_wasm_api (i32s 5) d.proxy_get_header_map_value) (i32s 5)
    ∷ define_wasm_name "proxy_remove_header_map_value"
        (define_wasm_api (i32s 3) d.proxy_remove_header_map_value) (i32s 3)
    ∷ define_wasm_name "proxy_replace_header_map_value"
        (define_wasm_api (i32s 5) d.proxy_replace_header_map_value) (i32s 5)
    ∷ define_wasm_name "proxy_add_header_map_value"
        (define_wasm_api (i32s 5) d.proxy_add_header_map_value) (i32s 5)
    ∷ define_wasm_name "proxy_get_shared_data" (define_wasm_api (i32s 5) d.proxy_get_shared_data)
        (i32s 5)
    ∷ define_wasm_name "proxy_set_shared_data" (define_wasm_api (i32s 5) d.proxy_set_shared_data)
        (i32s 5)
    ∷ define_wasm_name "proxy_register_shared_queue"
        (define_wasm_api (i32s 3) d.proxy_register_shared_queue) (i32s 3)
    ∷ define_wasm_name "proxy_resolve_shared_queue"
        (define_wasm_api (i32s 5) d.proxy_resolve_shared_queue) (i32s 5)
    ∷ define_wasm_name "proxy_dequeue_shared_queue"
        (define_wasm_api (i32s 3) d.proxy_dequeue_shared_queue) (i32s 3)
    ∷ define_wasm_name "proxy_enqueue_shared_queue"
        (define_wasm_api (i32s 3) d.proxy_enqueue_shared_queue) (i32s 3)
    ∷ define_wasm_name "proxy_continue_request" (define_wasm_api void d.proxy_continue_request) void
    ∷ define_wasm_name "proxy_continue_response" (define_wasm_api void d.proxy_continue_response)
        void
    ∷ define_wasm_name "proxy_clear_route_cache" (define_wasm_api void d.proxy_clear_route_cache)
        void
    ∷ define_wasm_name "proxy_continue_stream" (define_wasm_api (i32s 1) d.proxy_continue_stream)
        (i32s 1)
    ∷ define_wasm_name "proxy_close_stream" (define_wasm_api (i32s 1) d.proxy_close_stream) (i32s 1)
    ∷ define_wasm_name "proxy_http_call" (define_wasm_api (i32s 10) d.proxy_http_call) (i32s 10)
    ∷ define_wasm_name "proxy_grpc_call" (define_wasm_api (i32s 12) d.proxy_grpc_call) (i32s 12)
    ∷ define_wasm_name "proxy_grpc_stream" (define_wasm_api (i32s 9) d.proxy_grpc_stream) (i32s 9)
    ∷ define_wasm_name "proxy_grpc_send" (define_wasm_api (i32s 4) d.proxy_grpc_send) (i32s 4)
    ∷ define_wasm_name "proxy_grpc_cancel" (define_wasm_api (i32s 1) d.proxy_grpc_cancel) (i32s 1)
    ∷ define_wasm_name "proxy_grpc_close" (define_wasm_api (i32s 1) d.proxy_grpc_close) (i32s 1)
    ∷ define_wasm_name "proxy_get_status" (define_wasm_api (i32s 3) d.proxy_get_status) (i32s 3)
    ∷ define_wasm_name "proxy_done" (define_wasm_api void d.proxy_done) void
    ∷ define_wasm_name "proxy_call_foreign_function"
        (define_wasm_api (i32s 6) d.proxy_call_foreign_function) (i32s 6)
    ∷ define_wasm_name "proxy_define_metric" (define_wasm_api (i32s 4) d.proxy_define_metric)
        (i32s 4)
    ∷ define_wasm_name "proxy_increment_metric" (define_wasm_api i32_i64 d.proxy_increment_metric)
        i32_i64
    ∷ define_wasm_name "proxy_record_metric" (define_wasm_api i32_i64 d.proxy_record_metric) i32_i64
    ∷ define_wasm_name "proxy_get_metric" (define_wasm_api i32_i64 d.proxy_get_metric) i32_i64
    ∷ []

-- `ngx_http_wasmtime_host_api_func`.
unfoldable pub host_api_func : Api Val → FuncType
host_api_func api = record { params = take api.param_num api.param_type; results = i32 ∷ [] }
