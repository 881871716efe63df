-- ===== src/HostApi/Functions.antt =====
-- The host functions that src/http/ngx_http_wasm_api.c defines, under the prototypes of
-- src/http/ngx_http_wasm_api_def.h.
use wasm_nginx_module.Vm.{Engine}
use wasm_nginx_module.Host.{Nginx}
use wasm_nginx_module.Buffers.{get_buffer_bytes, get_configuration}
use wasm_nginx_module.GetHeader.{get_header_map_value}
use wasm_nginx_module.HttpCall.{http_call}
use wasm_nginx_module.LocalResponse.{send_local_response, send_http_response}
use wasm_nginx_module.Log.{log}
use wasm_nginx_module.Pairs.Response.{get_header_map_pairs}
use wasm_nginx_module.Property.{get_property, set_property}
use wasm_nginx_module.SetHeader.{
  remove_header_map_value, replace_header_map_value, add_header_map_value,
}
use wasm_nginx_module.HostApi.Declared.{HostApiDef}
use wasm_nginx_module.HostApi.Fixed.{
  proxy_set_effective_context, proxy_set_buffer_bytes, proxy_get_current_time_nanoseconds,
  proxy_set_tick_period_milliseconds, proxy_set_header_map_pairs, proxy_get_shared_data,
  proxy_set_shared_data, proxy_register_shared_queue, proxy_resolve_shared_queue,
  proxy_dequeue_shared_queue, proxy_enqueue_shared_queue, proxy_continue_request,
  proxy_continue_response, proxy_clear_route_cache, proxy_continue_stream, proxy_close_stream,
  proxy_grpc_call, proxy_grpc_stream, proxy_grpc_send, proxy_grpc_cancel, proxy_grpc_close,
  proxy_get_status, proxy_done, proxy_call_foreign_function, proxy_define_metric,
  proxy_increment_metric, proxy_record_metric, proxy_get_metric,
}

unfoldable pub host_functions : Engine → Nginx → HostApiDef
unfolding proxy_set_effective_context proxy_set_buffer_bytes proxy_get_current_time_nanoseconds
    proxy_set_tick_period_milliseconds proxy_set_header_map_pairs proxy_get_shared_data
    proxy_set_shared_data proxy_register_shared_queue proxy_resolve_shared_queue
    proxy_dequeue_shared_queue proxy_enqueue_shared_queue proxy_continue_request
    proxy_continue_response proxy_clear_route_cache proxy_continue_stream proxy_close_stream
    proxy_grpc_call proxy_grpc_stream proxy_grpc_send proxy_grpc_cancel proxy_grpc_close
    proxy_get_status proxy_done proxy_call_foreign_function proxy_define_metric
    proxy_increment_metric proxy_record_metric proxy_get_metric
host_functions e ng = record {
  proxy_set_effective_context = proxy_set_effective_context;
  proxy_get_property = get_property e ng;
  proxy_set_property = set_property ng;
  proxy_log = log;
  proxy_get_buffer_bytes = get_buffer_bytes e;
  proxy_set_buffer_bytes = proxy_set_buffer_bytes;
  proxy_send_local_response =
      λ res_code details_data details_size body body_size headers headers_size grpc_status.
        send_local_response ng res_code body body_size headers headers_size;
  proxy_send_http_response =
      λ res_code details_data details_size body body_size headers headers_size grpc_status.
        send_http_response ng res_code body body_size headers headers_size;
  proxy_get_current_time_nanoseconds = proxy_get_current_time_nanoseconds;
  proxy_set_tick_period_milliseconds = proxy_set_tick_period_milliseconds;
  proxy_get_configuration = get_configuration e;
  proxy_get_header_map_pairs = get_header_map_pairs e ng;
  proxy_set_header_map_pairs = proxy_set_header_map_pairs;
  proxy_get_header_map_value = get_header_map_value e ng;
  proxy_remove_header_map_value = remove_header_map_value ng;
  proxy_replace_header_map_value = replace_header_map_value ng;
  proxy_add_header_map_value = add_header_map_value ng;
  proxy_get_shared_data = proxy_get_shared_data;
  proxy_set_shared_data = proxy_set_shared_data;
  proxy_register_shared_queue = proxy_register_shared_queue;
  proxy_resolve_shared_queue = proxy_resolve_shared_queue;
  proxy_dequeue_shared_queue = proxy_dequeue_shared_queue;
  proxy_enqueue_shared_queue = proxy_enqueue_shared_queue;
  proxy_continue_request = proxy_continue_request;
  proxy_continue_response = proxy_continue_response;
  proxy_clear_route_cache = proxy_clear_route_cache;
  proxy_continue_stream = proxy_continue_stream;
  proxy_close_stream = proxy_close_stream;
  proxy_http_call =
      λ up_data up_size headers_data headers_size body_data body_size trailer_data trailer_size
          timeout callout_addr.
        http_call ng up_data up_size headers_data headers_size body_data body_size timeout
          callout_addr;
  proxy_grpc_call = proxy_grpc_call;
  proxy_grpc_stream = proxy_grpc_stream;
  proxy_grpc_send = proxy_grpc_send;
  proxy_grpc_cancel = proxy_grpc_cancel;
  proxy_grpc_close = proxy_grpc_close;
  proxy_get_status = proxy_get_status;
  proxy_done = proxy_done;
  proxy_call_foreign_function = proxy_call_foreign_function;
  proxy_define_metric = proxy_define_metric;
  proxy_increment_metric = proxy_increment_metric;
  proxy_record_metric = proxy_record_metric;
  proxy_get_metric = proxy_get_metric;
}
