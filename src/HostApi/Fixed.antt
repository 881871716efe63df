-- ===== src/HostApi/Fixed.antt =====
-- The host functions of src/http/ngx_http_wasm_api.c that do nothing: they report
-- PROXY_RESULT_UNIMPLEMENTED, or PROXY_RESULT_OK.
use wasm_nginx_module.Prelude.{ℕ}
use wasm_nginx_module.Run.{M, pure}
use wasm_nginx_module.Host.{Host, ProxyResult, result_ok, unimplemented}

unfoldable pub proxy_set_effective_context : ℕ → M Host ProxyResult
proxy_set_effective_context id = pure result_ok

unfoldable pub proxy_set_buffer_bytes : ℕ → ℕ → ℕ → ℕ → ℕ → M Host ProxyResult
proxy_set_buffer_bytes type start length addr size_addr = pure unimplemented

unfoldable pub proxy_get_current_time_nanoseconds : ℕ → M Host ProxyResult
proxy_get_current_time_nanoseconds time_addr = pure unimplemented

unfoldable pub proxy_set_tick_period_milliseconds : ℕ → M Host ProxyResult
proxy_set_tick_period_milliseconds tick = pure unimplemented

unfoldable pub proxy_set_header_map_pairs : ℕ → ℕ → ℕ → M Host ProxyResult
proxy_set_header_map_pairs type host_data size = pure unimplemented

unfoldable pub proxy_get_shared_data : ℕ → ℕ → ℕ → ℕ → ℕ → M Host ProxyResult
proxy_get_shared_data key_data key_size addr size cas = pure unimplemented

unfoldable pub proxy_set_shared_data : ℕ → ℕ → ℕ → ℕ → ℕ → M Host ProxyResult
proxy_set_shared_data key_data key_size host_data size cas = pure unimplemented

unfoldable pub proxy_register_shared_queue : ℕ → ℕ → ℕ → M Host ProxyResult
proxy_register_shared_queue host_data size id = pure unimplemented

unfoldable pub proxy_resolve_shared_queue : ℕ → ℕ → ℕ → ℕ → ℕ → M Host ProxyResult
proxy_resolve_shared_queue vm_id_data vm_id_size name_data name_size return_id = pure unimplemented

unfoldable pub proxy_dequeue_shared_queue : ℕ → ℕ → ℕ → M Host ProxyResult
proxy_dequeue_shared_queue id addr size = pure unimplemented

unfoldable pub proxy_enqueue_shared_queue : ℕ → ℕ → ℕ → M Host ProxyResult
proxy_enqueue_shared_queue id addr size = pure unimplemented

unfoldable pub proxy_continue_request : M Host ProxyResult
proxy_continue_request = pure result_ok

unfoldable pub proxy_continue_response : M Host ProxyResult
proxy_continue_response = pure result_ok

unfoldable pub proxy_clear_route_cache : M Host ProxyResult
proxy_clear_route_cache = pure unimplemented

unfoldable pub proxy_continue_stream : ℕ → M Host ProxyResult
proxy_continue_stream stream_type = pure result_ok

unfoldable pub proxy_close_stream : ℕ → M Host ProxyResult
proxy_close_stream stream_type = pure result_ok

unfoldable pub proxy_grpc_call : ℕ → ℕ → ℕ → ℕ → ℕ → ℕ → ℕ → ℕ → ℕ → ℕ → ℕ → ℕ → M Host ProxyResult
proxy_grpc_call service_data service_size service_name_data service_name_size method_data
      method_size metadata_data metadata_size request_data request_size timeout callout_addr =
    pure unimplemented

unfoldable pub proxy_grpc_stream : ℕ → ℕ → ℕ → ℕ → ℕ → ℕ → ℕ → ℕ → ℕ → M Host ProxyResult
proxy_grpc_stream service_data service_size service_name_data service_name_size method_data
      method_size metadata_data metadata_size callout_addr =
    pure unimplemented

unfoldable pub proxy_grpc_send : ℕ → ℕ → ℕ → ℕ → M Host ProxyResult
proxy_grpc_send id message_data message_size end_of_stream = pure unimplemented

unfoldable pub proxy_grpc_cancel : ℕ → M Host ProxyResult
proxy_grpc_cancel id = pure unimplemented

unfoldable pub proxy_grpc_close : ℕ → M Host ProxyResult
proxy_grpc_close id = pure unimplemented

unfoldable pub proxy_get_status : ℕ → ℕ → ℕ → M Host ProxyResult
proxy_get_status code addr size = pure unimplemented

unfoldable pub proxy_done : M Host ProxyResult
proxy_done = pure unimplemented

unfoldable pub proxy_call_foreign_function : ℕ → ℕ → ℕ → ℕ → ℕ → ℕ → M Host ProxyResult
proxy_call_foreign_function fn_data fn_size param_data param_size res_data res_size =
    pure unimplemented

unfoldable pub proxy_define_metric : ℕ → ℕ → ℕ → ℕ → M Host ProxyResult
proxy_define_metric type name_data name_size result = pure result_ok

unfoldable pub proxy_increment_metric : ℕ → ℕ → M Host ProxyResult
proxy_increment_metric metric_id offset = pure result_ok

unfoldable pub proxy_record_metric : ℕ → ℕ → M Host ProxyResult
proxy_record_metric metric_id value = pure result_ok

unfoldable pub proxy_get_metric : ℕ → ℕ → M Host ProxyResult
proxy_get_metric metric_id result = pure result_ok
