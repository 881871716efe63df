-- ===== src/HostApi/Declared.antt =====
-- The prototypes of src/http/ngx_http_wasm_api_def.h. src/http/ngx_http_wasm_api.c defines the functions,
-- and the wrappers of both engines call them.
use Prim.Native.String.{String}
use wasm_nginx_module.Prelude.{List, [], ◌∷◌}
use wasm_nginx_module.HostApi.{Shape, void, i32s, i32_i64, Fn}

pub record HostApiDef : Type 0 where
  pub proxy_set_effective_context : Fn (i32s 1)
  pub proxy_get_property : Fn (i32s 4)
  pub proxy_set_property : Fn (i32s 4)
  pub proxy_log : Fn (i32s 3)
  pub proxy_get_buffer_bytes : Fn (i32s 5)
  pub proxy_set_buffer_bytes : Fn (i32s 5)
  pub proxy_send_local_response : Fn (i32s 8)
  pub proxy_send_http_response : Fn (i32s 8)
  pub proxy_get_current_time_nanoseconds : Fn (i32s 1)
  pub proxy_set_tick_period_milliseconds : Fn (i32s 1)
  pub proxy_get_configuration : Fn (i32s 2)
  pub proxy_get_header_map_pairs : Fn (i32s 3)
  pub proxy_set_header_map_pairs : Fn (i32s 3)
  pub proxy_get_header_map_value : Fn (i32s 5)
  pub proxy_remove_header_map_value : Fn (i32s 3)
  pub proxy_replace_header_map_value : Fn (i32s 5)
  pub proxy_add_header_map_value : Fn (i32s 5)
  pub proxy_get_shared_data : Fn (i32s 5)
  pub proxy_set_shared_data : Fn (i32s 5)
  pub proxy_register_shared_queue : Fn (i32s 3)
  pub proxy_resolve_shared_queue : Fn (i32s 5)
  pub proxy_dequeue_shared_queue : Fn (i32s 3)
  pub proxy_enqueue_shared_queue : Fn (i32s 3)
  pub proxy_continue_request : Fn void
  pub proxy_continue_response : Fn void
  pub proxy_clear_route_cache : Fn void
  pub proxy_continue_stream : Fn (i32s 1)
  pub proxy_close_stream : Fn (i32s 1)
  pub proxy_http_call : Fn (i32s 10)
  pub proxy_grpc_call : Fn (i32s 12)
  pub proxy_grpc_stream : Fn (i32s 9)
  pub proxy_grpc_send : Fn (i32s 4)
  pub proxy_grpc_cancel : Fn (i32s 1)
  pub proxy_grpc_close : Fn (i32s 1)
  pub proxy_get_status : Fn (i32s 3)
  pub proxy_done : Fn void
  pub proxy_call_foreign_function : Fn (i32s 6)
  pub proxy_define_metric : Fn (i32s 4)
  pub proxy_increment_metric : Fn i32_i64
  pub proxy_record_metric : Fn i32_i64
  pub proxy_get_metric : Fn i32_i64

-- One prototype, with the function that it stands for.
pub record Prototype : Type 0 where
  pub name : String
  pub shape : Shape
  pub function : Fn shape

abbrev pub prototype : String → (s : Shape) → Fn s → Prototype
prototype name s f = record { name = name; shape = s; function = f }

-- All prototypes, in their order.
unfoldable pub declared : HostApiDef → List Prototype
declared d =
    prototype "proxy_set_effective_context" (i32s 1) d.proxy_set_effective_context
    ∷ prototype "proxy_get_property" (i32s 4) d.proxy_get_property
    ∷ prototype "proxy_set_property" (i32s 4) d.proxy_set_property
    ∷ prototype "proxy_log" (i32s 3) d.proxy_log
    ∷ prototype "proxy_get_buffer_bytes" (i32s 5) d.proxy_get_buffer_bytes
    ∷ prototype "proxy_set_buffer_bytes" (i32s 5) d.proxy_set_buffer_bytes
    ∷ prototype "proxy_send_local_response" (i32s 8) d.proxy_send_local_response
    ∷ prototype "proxy_send_http_response" (i32s 8) d.proxy_send_http_response
    ∷ prototype "proxy_get_current_time_nanoseconds" (i32s 1) d.proxy_get_current_time_nanoseconds
    ∷ prototype "proxy_set_tick_period_milliseconds" (i32s 1) d.proxy_set_tick_period_milliseconds
    ∷ prototype "proxy_get_configuration" (i32s 2) d.proxy_get_configuration
    ∷ prototype "proxy_get_header_map_pairs" (i32s 3) d.proxy_get_header_map_pairs
    ∷ prototype "proxy_set_header_map_pairs" (i32s 3) d.proxy_set_header_map_pairs
    ∷ prototype "proxy_get_header_map_value" (i32s 5) d.proxy_get_header_map_value
    ∷ prototype "proxy_remove_header_map_value" (i32s 3) d.proxy_remove_header_map_value
    ∷ prototype "proxy_replace_header_map_value" (i32s 5) d.proxy_replace_header_map_value
    ∷ prototype "proxy_add_header_map_value" (i32s 5) d.proxy_add_header_map_value
    ∷ prototype "proxy_get_shared_data" (i32s 5) d.proxy_get_shared_data
    ∷ prototype "proxy_set_shared_data" (i32s 5) d.proxy_set_shared_data
    ∷ prototype "proxy_register_shared_queue" (i32s 3) d.proxy_register_shared_queue
    ∷ prototype "proxy_resolve_shared_queue" (i32s 5) d.proxy_resolve_shared_queue
    ∷ prototype "proxy_dequeue_shared_queue" (i32s 3) d.proxy_dequeue_shared_queue
    ∷ prototype "proxy_enqueue_shared_queue" (i32s 3) d.proxy_enqueue_shared_queue
    ∷ prototype "proxy_continue_request" void d.proxy_continue_request
    ∷ prototype "proxy_continue_response" void d.proxy_continue_response
    ∷ prototype "proxy_clear_route_cache" void d.proxy_clear_route_cache
    ∷ prototype "proxy_continue_stream" (i32s 1) d.proxy_continue_stream
    ∷ prototype "proxy_close_stream" (i32s 1) d.proxy_close_stream
    ∷ prototype "proxy_http_call" (i32s 10) d.proxy_http_call
    ∷ prototype "proxy_grpc_call" (i32s 12) d.proxy_grpc_call
    ∷ prototype "proxy_grpc_stream" (i32s 9) d.proxy_grpc_stream
    ∷ prototype "proxy_grpc_send" (i32s 4) d.proxy_grpc_send
    ∷ prototype "proxy_grpc_cancel" (i32s 1) d.proxy_grpc_cancel
    ∷ prototype "proxy_grpc_close" (i32s 1) d.proxy_grpc_close
    ∷ prototype "proxy_get_status" (i32s 3) d.proxy_get_status
    ∷ prototype "proxy_done" void d.proxy_done
    ∷ prototype "proxy_call_foreign_function" (i32s 6) d.proxy_call_foreign_function
    ∷ prototype "proxy_define_metric" (i32s 4) d.proxy_define_metric
    ∷ prototype "proxy_increment_metric" i32_i64 d.proxy_increment_metric
    ∷ prototype "proxy_record_metric" i32_i64 d.proxy_record_metric
    ∷ prototype "proxy_get_metric" i32_i64 d.proxy_get_metric
    ∷ []
