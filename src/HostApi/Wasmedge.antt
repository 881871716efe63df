-- ===== src/HostApi/Wasmedge.antt =====
-- The host functions for WasmEdge: the macros, wrappers and table of
-- src/http/ngx_http_wasm_api_wasmedge.h, and `ngx_http_wasmedge_host_api_func` of src/vm/wasmedge.c.
use Prim.Native.String.{String}
use wasm_nginx_module.Prelude.{ℕ, zero, suc, ◌≡◌, List, [], ◌∷◌, none, some, get_elem?, take}
use wasm_nginx_module.Run.{M, pure, undefined, ◌>>=◌}
use wasm_nginx_module.Host.{Host, ProxyResult}
use wasm_nginx_module.HostApi.{
  Shape, void, i32s, i32_i64, Curried, Fn, Kind, i32, i64, words, Api, FuncType, result_code,
}
use wasm_nginx_module.HostApi.Declared.{HostApiDef}

-- `WasmEdge_Value` and what the wrappers call to make one and to read it, which is not in src/.
pub record Values : Type 1 where
  pub Value : Type 0
  pub value_gen_i32 : ℕ → Value
  pub value_gen_i64 : ℕ → Value
  pub value_get_i32 : Value → ℕ
  pub value_get_i64 : Value → ℕ

-- A value is read as it was made.
pub record ReadsBack (vs : Values) : Type 0 where
  pub get-gen_i32 : (w : ℕ) → vs.value_get_i32 (vs.value_gen_i32 w) ≡ w
  pub get-gen_i64 : (w : ℕ) → vs.value_get_i64 (vs.value_gen_i64 w) ≡ w

-- DEFINE_WASM_NAME_ARG_VOID and the others.
unfoldable pub arg_num : Shape → ℕ
arg_num void = 0
arg_num (i32s n) = n
arg_num i32_i64 = 2

unfoldable pub arg_types : Shape → List Kind
arg_types void = []
arg_types (i32s n) = words n
arg_types i32_i64 = i32 ∷ i64 ∷ []

module _ (vs : Values) where
  -- `In[i]`.
  unfoldable pub arg : List vs.Value → ℕ → M Host vs.Value
  arg args i = elim (get_elem? args i) [ none ↦ undefined | some v ↦ pure v ]

  -- The lines `int32_t p<i> = WasmEdge_ValueGetI32(In[<i>]);` from `i` on, `n` of them, and the call
  -- behind them.
  unfoldable pub unpack : (n : ℕ) → ℕ → Curried n → List vs.Value → M Host ProxyResult
  unfolding arg
  unpack zero i f args = f
  unpack (suc n) i f args = do v ← arg args i; unpack n (suc i) (f (vs.value_get_i32 v)) args

  -- DEFINE_WASM_API_ARG_CHECK_VOID and the others.
  unfoldable pub arg_check : (s : Shape) → Fn s → List vs.Value → M Host ProxyResult
  unfolding unpack
  arg_check void f args = f
  arg_check (i32s n) f args = unpack n 0 f args
  arg_check i32_i64 f args = do
    v0 ← arg args 0
    v1 ← arg args 1
    f (vs.value_get_i32 v0) (vs.value_get_i64 v1)

  -- DEFINE_WASM_API.
  unfoldable pub define_wasm_api : (s : Shape) → Fn s → List vs.Value → M Host (List vs.Value)
  unfolding arg_check result_code
  define_wasm_api s f args = do
    res ← arg_check s f args
    pure (vs.value_gen_i32 (result_code res) ∷ [])

  -- DEFINE_WASM_NAME.
  unfoldable pub define_wasm_name :
      String → (List vs.Value → M Host (List vs.Value)) → Shape → Api vs.Value
  unfolding arg_num arg_types
  define_wasm_name name cb s = record {
    name = name;
    cb = cb;
    param_num = arg_num s;
    param_type = arg_types s;
  }

  -- `host_apis`, less the empty row that ends it.
  unfoldable pub host_apis : HostApiDef → List (Api vs.Value)
  unfolding define_wasm_api define_wasm_name
  host_apis d =
      define_wasm_name "proxy_set_effective_context"
        (define_wasm_api (i32s 1) d.proxy_set_effective_context) (i32s 1)
      ∷ define_wasm_name "proxy_get_property" (define_wasm_api (i32s 4) d.proxy_get_property)
          (i32s 4)
      ∷ define_wasm_name "proxy_set_property" (define_wasm_api (i32s 4) d.proxy_set_property)
          (i32s 4)
      ∷ define_wasm_name "proxy_log" (define_wasm_api (i32s 3) d.proxy_log) (i32s 3)
      ∷ define_wasm_name "proxy_get_buffer_bytes"
          (define_wasm_api (i32s 5) d.proxy_get_buffer_bytes) (i32s 5)
      ∷ define_wasm_name "proxy_set_buffer_bytes"
          (define_wasm_api (i32s 5) d.proxy_set_buffer_bytes) (i32s 5)
      ∷ define_wasm_name "proxy_send_local_response"
          (define_wasm_api (i32s 8) d.proxy_send_local_response) (i32s 8)
      ∷ define_wasm_name "proxy_send_http_response"
          (define_wasm_api (i32s 8) d.proxy_send_http_response) (i32s 8)
      ∷ define_wasm_name "proxy_get_current_time_nanoseconds"
          (define_wasm_api (i32s 1) d.proxy_get_current_time_nanoseconds) (i32s 1)
      ∷ define_wasm_name "proxy_set_tick_period_milliseconds"
          (define_wasm_api (i32s 1) d.proxy_set_tick_period_milliseconds) (i32s 1)
      ∷ define_wasm_name "proxy_get_configuration"
          (define_wasm_api (i32s 2) d.proxy_get_configuration) (i32s 2)
      ∷ define_wasm_name "proxy_get_header_map_pairs"
          (define_wasm_api (i32s 3) d.proxy_get_header_map_pairs) (i32s 3)
      ∷ define_wasm_name "proxy_set_header_map_pairs"
          (define_wasm_api (i32s 3) d.proxy_set_header_map_pairs) (i32s 3)
      ∷ define_wasm_name "proxy_get_header_map_value"
          (define_wasm_api (i32s 5) d.proxy_get_header_map_value) (i32s 5)
      ∷ define_wasm_name "proxy_remove_header_map_value"
          (define_wasm_api (i32s 3) d.proxy_remove_header_map_value) (i32s 3)
      ∷ define_wasm_name "proxy_replace_header_map_value"
          (define_wasm_api (i32s 5) d.proxy_replace_header_map_value) (i32s 5)
      ∷ define_wasm_name "proxy_add_header_map_value"
          (define_wasm_api (i32s 5) d.proxy_add_header_map_value) (i32s 5)
      ∷ define_wasm_name "proxy_get_shared_data" (define_wasm_api (i32s 5) d.proxy_get_shared_data)
          (i32s 5)
      ∷ define_wasm_name "proxy_set_shared_data" (define_wasm_api (i32s 5) d.proxy_set_shared_data)
          (i32s 5)
      ∷ define_wasm_name "proxy_register_shared_queue"
          (define_wasm_api (i32s 3) d.proxy_register_shared_queue) (i32s 3)
      ∷ define_wasm_name "proxy_resolve_shared_queue"
          (define_wasm_api (i32s 5) d.proxy_resolve_shared_queue) (i32s 5)
      ∷ define_wasm_name "proxy_dequeue_shared_queue"
          (define_wasm_api (i32s 3) d.proxy_dequeue_shared_queue) (i32s 3)
      ∷ define_wasm_name "proxy_enqueue_shared_queue"
          (define_wasm_api (i32s 3) d.proxy_enqueue_shared_queue) (i32s 3)
      ∷ define_wasm_name "proxy_continue_request" (define_wasm_api void d.proxy_continue_request)
          void
      ∷ define_wasm_name "proxy_continue_response" (define_wasm_api void d.proxy_continue_response)
          void
      ∷ define_wasm_name "proxy_clear_route_cache" (define_wasm_api void d.proxy_clear_route_cache)
          void
      ∷ define_wasm_name "proxy_continue_stream" (define_wasm_api (i32s 1) d.proxy_continue_stream)
          (i32s 1)
      ∷ define_wasm_name "proxy_close_stream" (define_wasm_api (i32s 1) d.proxy_close_stream)
          (i32s 1)
      ∷ define_wasm_name "proxy_http_call" (define_wasm_api (i32s 10) d.proxy_http_call) (i32s 10)
      ∷ define_wasm_name "proxy_grpc_call" (define_wasm_api (i32s 12) d.proxy_grpc_call) (i32s 12)
      ∷ define_wasm_name "proxy_grpc_stream" (define_wasm_api (i32s 9) d.proxy_grpc_stream) (i32s 9)
      ∷ define_wasm_name "proxy_grpc_send" (define_wasm_api (i32s 4) d.proxy_grpc_send) (i32s 4)
      ∷ define_wasm_name "proxy_grpc_cancel" (define_wasm_api (i32s 1) d.proxy_grpc_cancel) (i32s 1)
      ∷ define_wasm_name "proxy_grpc_close" (define_wasm_api (i32s 1) d.proxy_grpc_close) (i32s 1)
      ∷ define_wasm_name "proxy_get_status" (define_wasm_api (i32s 3) d.proxy_get_status) (i32s 3)
      ∷ define_wasm_name "proxy_done" (define_wasm_api void d.proxy_done) void
      ∷ define_wasm_name "proxy_call_foreign_function"
          (define_wasm_api (i32s 6) d.proxy_call_foreign_function) (i32s 6)
      ∷ define_wasm_name "proxy_define_metric" (define_wasm_api (i32s 4) d.proxy_define_metric)
          (i32s 4)
      ∷ define_wasm_name "proxy_increment_metric" (define_wasm_api i32_i64 d.proxy_increment_metric)
          i32_i64
      ∷ define_wasm_name "proxy_record_metric" (define_wasm_api i32_i64 d.proxy_record_metric)
          i32_i64
      ∷ define_wasm_name "proxy_get_metric" (define_wasm_api i32_i64 d.proxy_get_metric) i32_i64
      ∷ []

-- `ngx_http_wasmedge_host_api_func`, for values of any kind.
unfoldable pub host_api_func : {V : Type 0} → Api V → FuncType
host_api_func api = record { params = take api.param_num api.param_type; results = i32 ∷ [] }
