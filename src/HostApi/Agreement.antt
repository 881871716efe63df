-- ===== src/HostApi/Agreement.antt =====
-- The tables of src/http/ngx_http_wasm_api_wasmtime.h and src/http/ngx_http_wasm_api_wasmedge.h against
-- the prototypes of src/http/ngx_http_wasm_api_def.h, and against each other.
use Prim.Native.String.{String}
use wasm_nginx_module.Prelude.{
  ℕ, zero, suc, ◌≤◌, ◌<◌, ◌≡◌, refl, ap, sym, ◌∙◌, List, [], ◌∷◌, length, map, take, arith,
}
use wasm_nginx_module.Run.{Run, M, ok, fault, out_of_fuel, pure, and_then}
use wasm_nginx_module.Host.{Host, ProxyResult}
use wasm_nginx_module.HostApi.{
  Shape, void, i32s, i32_i64, Fn, Kind, i32, i64, words, Api, max_wasm_api_arg, result_code,
}
use wasm_nginx_module.HostApi.Declared.{HostApiDef, Prototype, prototype, declared}
use wasm_nginx_module.HostApi.Wasmtime
use wasm_nginx_module.HostApi.Wasmtime.{Val, val_i32, kind}
use wasm_nginx_module.HostApi.Wasmedge
use wasm_nginx_module.HostApi.Wasmedge.{Values, ReadsBack}
use wasm_nginx_module.HostApi.Unpacking.{
  apply, arg_check-apply, arg_check_short, encode, arg_check_wasmedge,
}

-- The types of the parameters that a prototype has.
abbrev pub kinds : Shape → List Kind
kinds void = []
kinds (i32s n) = words n
kinds i32_i64 = i32 ∷ i64 ∷ []

-- Two lists of one length, and a relation between their elements at each place.
abbrev pub Pairwise {ℓ κ} : {A : Type ℓ} {B : Type κ} → (A → B → Type 0) → List A → List B → Type 0
Pairwise R [] [] = Unit
Pairwise R [] (y ∷ ys) = ⊥
Pairwise R (x ∷ xs) [] = ⊥
Pairwise R (x ∷ xs) (y ∷ ys) = R x y × Pairwise R xs ys

infixr 5 ◌&◌
abbrev pub ◌&◌ : {A B : Type 0} → A → B → A × B
a & b = (a, b)

-- What a function gives, as the engine gets it: one `i32`.
abbrev pub answer : ProxyResult → M Host (List Val)
answer res = pure (val_i32 (result_code res) ∷ [])

-- The row of a table for a prototype.
pub record Implements (p : Prototype) (api : Api Val) : Type 0 where
  pub named : api.name ≡ p.name
  pub room : api.param_num ≤ max_wasm_api_arg
  pub typed : Wasmtime.host_api_func api ≡ record { params = kinds p.shape; results = i32 ∷ [] }
  pub runs :
      (args : List Val) (h : Host)
      → map kind args ≡ kinds p.shape
      → api.cb args h ≡ and_then (apply p.shape p.function args h) answer
  pub short :
      (args : List Val) (h : Host) → length args < length (kinds p.shape) → api.cb args h ≡ fault

take-words : (n : ℕ) → take n (words n) ≡ words n
take-words zero = refl
take-words (suc n) = ap (◌∷◌ i32) (take-words n)

length-words : (n : ℕ) → length (words n) ≡ n
length-words zero = refl
length-words (suc n) = ap suc (length-words n)

arg_types-kinds : (s : Shape) → Wasmtime.arg_types s ≡ kinds s
unfolding Wasmtime.arg_types
arg_types-kinds void = refl
arg_types-kinds (i32s n) = refl
arg_types-kinds i32_i64 = refl

take-arg_types : (s : Shape) → take (Wasmtime.arg_num s) (Wasmtime.arg_types s) ≡ kinds s
unfolding Wasmtime.arg_types Wasmtime.arg_num
take-arg_types void = refl
take-arg_types (i32s n) = take-words n
take-arg_types i32_i64 = refl

arg_num-kinds : (s : Shape) → Wasmtime.arg_num s ≡ length (kinds s)
unfolding Wasmtime.arg_num
arg_num-kinds void = refl
arg_num-kinds (i32s n) = sym (length-words n)
arg_num-kinds i32_i64 = refl

-- Every row whose wrapper and types go by the same macro.
row-Implements :
    (name : String) (s : Shape) (f : Fn s)
    → Wasmtime.arg_num s ≤ max_wasm_api_arg
    → Implements
        (prototype name s f)
        (Wasmtime.define_wasm_name name (Wasmtime.define_wasm_api s f) s)
unfolding Wasmtime.define_wasm_name Wasmtime.define_wasm_api Wasmtime.host_api_func
row-Implements name s f le = record {
  named = refl;
  room = le;
  typed = λ i. record { params = take-arg_types s i; results = i32 ∷ [] };
  runs = λ args h k. rw (arg_check-apply s f args h (k ∙ sym (arg_types-kinds s))) refl;
  short = λ args h lt. rw (arg_check_short s f args h (omega (arith, arg_num-kinds s))) refl;
}

-- For every prototype, in order, the table of wasmtime has a row with its name and its types, which the
-- array of types has room for. A call with arguments of these types calls the function with all of
-- them, in order, and gives its result as one `i32`; a call with fewer reads behind their end.
pub host_apis-Implements :
    (d : HostApiDef) → Pairwise Implements (declared d) (Wasmtime.host_apis d)
unfolding declared Wasmtime.host_apis
host_apis-Implements d =
    row-Implements "proxy_set_effective_context" (i32s 1) d.proxy_set_effective_context
      (omega arith)
    & row-Implements "proxy_get_property" (i32s 4) d.proxy_get_property (omega arith)
    & row-Implements "proxy_set_property" (i32s 4) d.proxy_set_property (omega arith)
    & row-Implements "proxy_log" (i32s 3) d.proxy_log (omega arith)
    & row-Implements "proxy_get_buffer_bytes" (i32s 5) d.proxy_get_buffer_bytes (omega arith)
    & row-Implements "proxy_set_buffer_bytes" (i32s 5) d.proxy_set_buffer_bytes (omega arith)
    & row-Implements "proxy_send_local_response" (i32s 8) d.proxy_send_local_response (omega arith)
    & row-Implements "proxy_send_http_response" (i32s 8) d.proxy_send_http_response (omega arith)
    & row-Implements "proxy_get_current_time_nanoseconds" (i32s 1)
        d.proxy_get_current_time_nanoseconds (omega arith)
    & row-Implements "proxy_set_tick_period_milliseconds" (i32s 1)
        d.proxy_set_tick_period_milliseconds (omega arith)
    & row-Implements "proxy_get_configuration" (i32s 2) d.proxy_get_configuration (omega arith)
    & row-Implements "proxy_get_header_map_pairs" (i32s 3) d.proxy_get_header_map_pairs
        (omega arith)
    & row-Implements "proxy_set_header_map_pairs" (i32s 3) d.proxy_set_header_map_pairs
        (omega arith)
    & row-Implements "proxy_get_header_map_value" (i32s 5) d.proxy_get_header_map_value
        (omega arith)
    & row-Implements "proxy_remove_header_map_value" (i32s 3) d.proxy_remove_header_map_value
        (omega arith)
    & row-Implements "proxy_replace_header_map_value" (i32s 5) d.proxy_replace_header_map_value
        (omega arith)
    & row-Implements "proxy_add_header_map_value" (i32s 5) d.proxy_add_header_map_value
        (omega arith)
    & row-Implements "proxy_get_shared_data" (i32s 5) d.proxy_get_shared_data (omega arith)
    & row-Implements "proxy_set_shared_data" (i32s 5) d.proxy_set_shared_data (omega arith)
    & row-Implements "proxy_register_shared_queue" (i32s 3) d.proxy_register_shared_queue
        (omega arith)
    & row-Implements "proxy_resolve_shared_queue" (i32s 5) d.proxy_resolve_shared_queue
        (omega arith)
    & row-Implements "proxy_dequeue_shared_queue" (i32s 3) d.proxy_dequeue_shared_queue
        (omega arith)
    & row-Implements "proxy_enqueue_shared_queue" (i32s 3) d.proxy_enqueue_shared_queue
        (omega arith)
    & row-Implements "proxy_continue_request" void d.proxy_continue_request (omega arith)
    & row-Implements "proxy_continue_response" void d.proxy_continue_response (omega arith)
    & row-Implements "proxy_clear_route_cache" void d.proxy_clear_route_cache (omega arith)
    & row-Implements "proxy_continue_stream" (i32s 1) d.proxy_continue_stream (omega arith)
    & row-Implements "proxy_close_stream" (i32s 1) d.proxy_close_stream (omega arith)
    & row-Implements "proxy_http_call" (i32s 10) d.proxy_http_call (omega arith)
    & row-Implements "proxy_grpc_call" (i32s 12) d.proxy_grpc_call (omega arith)
    & row-Implements "proxy_grpc_stream" (i32s 9) d.proxy_grpc_stream (omega arith)
    & row-Implements "proxy_grpc_send" (i32s 4) d.proxy_grpc_send (omega arith)
    & row-Implements "proxy_grpc_cancel" (i32s 1) d.proxy_grpc_cancel (omega arith)
    & row-Implements "proxy_grpc_close" (i32s 1) d.proxy_grpc_close (omega arith)
    & row-Implements "proxy_get_status" (i32s 3) d.proxy_get_status (omega arith)
    & row-Implements "proxy_done" void d.proxy_done (omega arith)
    & row-Implements "proxy_call_foreign_function" (i32s 6) d.proxy_call_foreign_function
        (omega arith)
    & row-Implements "proxy_define_metric" (i32s 4) d.proxy_define_metric (omega arith)
    & row-Implements "proxy_increment_metric" i32_i64 d.proxy_increment_metric (omega arith)
    & row-Implements "proxy_record_metric" i32_i64 d.proxy_record_metric (omega arith)
    & row-Implements "proxy_get_metric" i32_i64 d.proxy_get_metric (omega arith)
    & tt

module _ (vs : Values) (back : ReadsBack vs) where
  -- Two rows that an engine cannot tell apart.
  pub record Same (a : Api Val) (b : Api vs.Value) : Type 0 where
    pub named : a.name ≡ b.name
    pub typed : Wasmtime.host_api_func a ≡ Wasmedge.host_api_func b
    pub runs :
        (args : List Val) (h : Host)
        → map kind args ≡ (Wasmtime.host_api_func a).params
        → b.cb (map (encode vs back) args) h
          ≡ and_then (a.cb args h) (λ res. pure (map (encode vs back) res))

  answer-encode :
      (r : Run Host ProxyResult)
      → and_then r (λ res. pure (vs.value_gen_i32 (result_code res) ∷ []))
        ≡ and_then (and_then r answer) (λ res. pure (map (encode vs back) res))
  answer-encode (ok a h) = refl
  answer-encode fault = refl
  answer-encode out_of_fuel = refl

  wasmedge_types : (s : Shape) → take (Wasmedge.arg_num s) (Wasmedge.arg_types s) ≡ kinds s
  unfolding Wasmedge.arg_types Wasmedge.arg_num
  wasmedge_types void = refl
  wasmedge_types (i32s n) = take-words n
  wasmedge_types i32_i64 = refl

  row-Same :
      (name : String) (s : Shape) (f : Fn s)
      → Same
          (Wasmtime.define_wasm_name name (Wasmtime.define_wasm_api s f) s)
          (Wasmedge.define_wasm_name vs name (Wasmedge.define_wasm_api vs s f) s)
  unfolding Wasmtime.define_wasm_name Wasmtime.define_wasm_api Wasmtime.host_api_func
      Wasmedge.define_wasm_name Wasmedge.define_wasm_api Wasmedge.host_api_func
  row-Same name s f = record {
    named = refl;
    typed =
        λ i. record { params = (take-arg_types s ∙ sym (wasmedge_types s)) i; results = i32 ∷ [] };
    runs = λ args h k.
        let typed = k ∙ take-arg_types s ∙ sym (arg_types-kinds s) in
        rw (arg_check_wasmedge vs back s f args h typed, arg_check-apply s f args h typed)
          (answer-encode (apply s f args h));
  }

  -- The tables of both engines are the same, row by row: names, types, and, for arguments of these
  -- types and whatever the host functions do, what a call does and gives. A value of WasmEdge is taken
  -- to be read as it was made.
  pub host_apis-Same :
      (d : HostApiDef) → Pairwise Same (Wasmtime.host_apis d) (Wasmedge.host_apis vs d)
  unfolding Wasmtime.host_apis Wasmedge.host_apis
  host_apis-Same d =
      row-Same "proxy_set_effective_context" (i32s 1) d.proxy_set_effective_context
      & row-Same "proxy_get_property" (i32s 4) d.proxy_get_property
      & row-Same "proxy_set_property" (i32s 4) d.proxy_set_property
      & row-Same "proxy_log" (i32s 3) d.proxy_log
      & row-Same "proxy_get_buffer_bytes" (i32s 5) d.proxy_get_buffer_bytes
      & row-Same "proxy_set_buffer_bytes" (i32s 5) d.proxy_set_buffer_bytes
      & row-Same "proxy_send_local_response" (i32s 8) d.proxy_send_local_response
      & row-Same "proxy_send_http_response" (i32s 8) d.proxy_send_http_response
      & row-Same "proxy_get_current_time_nanoseconds" (i32s 1) d.proxy_get_current_time_nanoseconds
      & row-Same "proxy_set_tick_period_milliseconds" (i32s 1) d.proxy_set_tick_period_milliseconds
      & row-Same "proxy_get_configuration" (i32s 2) d.proxy_get_configuration
      & row-Same "proxy_get_header_map_pairs" (i32s 3) d.proxy_get_header_map_pairs
      & row-Same "proxy_set_header_map_pairs" (i32s 3) d.proxy_set_header_map_pairs
      & row-Same "proxy_get_header_map_value" (i32s 5) d.proxy_get_header_map_value
      & row-Same "proxy_remove_header_map_value" (i32s 3) d.proxy_remove_header_map_value
      & row-Same "proxy_replace_header_map_value" (i32s 5) d.proxy_replace_header_map_value
      & row-Same "proxy_add_header_map_value" (i32s 5) d.proxy_add_header_map_value
      & row-Same "proxy_get_shared_data" (i32s 5) d.proxy_get_shared_data
      & row-Same "proxy_set_shared_data" (i32s 5) d.proxy_set_shared_data
      & row-Same "proxy_register_shared_queue" (i32s 3) d.proxy_register_shared_queue
      & row-Same "proxy_resolve_shared_queue" (i32s 5) d.proxy_resolve_shared_queue
      & row-Same "proxy_dequeue_shared_queue" (i32s 3) d.proxy_dequeue_shared_queue
      & row-Same "proxy_enqueue_shared_queue" (i32s 3) d.proxy_enqueue_shared_queue
      & row-Same "proxy_continue_request" void d.proxy_continue_request
      & row-Same "proxy_continue_response" void d.proxy_continue_response
      & row-Same "proxy_clear_route_cache" void d.proxy_clear_route_cache
      & row-Same "proxy_continue_stream" (i32s 1) d.proxy_continue_stream
      & row-Same "proxy_close_stream" (i32s 1) d.proxy_close_stream
      & row-Same "proxy_http_call" (i32s 10) d.proxy_http_call
      & row-Same "proxy_grpc_call" (i32s 12) d.proxy_grpc_call
      & row-Same "proxy_grpc_stream" (i32s 9) d.proxy_grpc_stream
      & row-Same "proxy_grpc_send" (i32s 4) d.proxy_grpc_send
      & row-Same "proxy_grpc_cancel" (i32s 1) d.proxy_grpc_cancel
      & row-Same "proxy_grpc_close" (i32s 1) d.proxy_grpc_close
      & row-Same "proxy_get_status" (i32s 3) d.proxy_get_status
      & row-Same "proxy_done" void d.proxy_done
      & row-Same "proxy_call_foreign_function" (i32s 6) d.proxy_call_foreign_function
      & row-Same "proxy_define_metric" (i32s 4) d.proxy_define_metric
      & row-Same "proxy_increment_metric" i32_i64 d.proxy_increment_metric
      & row-Same "proxy_record_metric" i32_i64 d.proxy_record_metric
      & row-Same "proxy_get_metric" i32_i64 d.proxy_get_metric
      & tt
