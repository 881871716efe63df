-- ===== src/Tests/HostApis.antt =====
-- The tables of host functions, at the plugin of Tests/Data that calls three rows, and `proxy_log`.
use wasm_nginx_module.Prelude.{
  ℕ, ◌+◌, ◌≤◌, ◌<◌, ◌≡◌, refl, ◌⊎◌, [], ◌∷◌, none, inl, inr, arith, Bool-cases, ◌==◌, if◌then◌else◌,
}
use wasm_nginx_module.Words.{half32, sext64, add32}
use wasm_nginx_module.Run.{ok}
use wasm_nginx_module.Memory.{get_memory, copy_out, read}
use wasm_nginx_module.Host.{
  Host, with_mem, result_ok, invalid_memory_access, must_get_memory, get_mem, on_mem,
}
use wasm_nginx_module.State.{get_req, must_get_req}
use wasm_nginx_module.SetHeader.{
  put_at, set_req_header, set_by_type, set_plain_header, replace_header_map_value,
}
use wasm_nginx_module.SetHeader.Laws.{IsClean, IsBytes}
use wasm_nginx_module.LocalResponse.{send_local_response}
use wasm_nginx_module.Log.{log, host_log_level}
use wasm_nginx_module.Log.Laws.{message, log-message, log_negative_size}
use wasm_nginx_module.HostApi.{i32s, Api}
use wasm_nginx_module.HostApi.Declared.{declared}
use wasm_nginx_module.HostApi.Wasmtime
use wasm_nginx_module.HostApi.Wasmtime.{
  Val, val_i32, val_i64, define_wasm_name, define_wasm_api, host_apis, host_api_func,
}
use wasm_nginx_module.HostApi.Wasmedge
use wasm_nginx_module.HostApi.Wasmedge.{Values, ReadsBack}
use wasm_nginx_module.HostApi.Agreement.{
  Pairwise, Implements, host_apis-Implements, Same, host_apis-Same,
}
use wasm_nginx_module.HostApi.Functions.{host_functions}
use wasm_nginx_module.HostApi.Frames.{IfEnds}
use wasm_nginx_module.HostApi.Effects.{writes_request, kept, host_apis-kept}
use wasm_nginx_module.HostApi.Loops.{current}
use wasm_nginx_module.HostApi.Termination.{host_apis-IfEnds}
use wasm_nginx_module.HostApi.Dialogue.{
  Dialogue, begun, turned, plugin_runs, called, Dialogue-IsClean,
}
use wasm_nginx_module.Tests.Data.{zeros, engine, nginx, host}
use wasm_nginx_module.Tests.Host.{keeps_names, good}

host_apis-Implements_example :
    Pairwise Implements
      (declared (host_functions engine nginx))
      (host_apis (host_functions engine nginx))
host_apis-Implements_example = host_apis-Implements (host_functions engine nginx)

-- An engine whose values are those of wasmtime.
abbrev get_i32 : Val → ℕ
get_i32 (val_i32 w) = w
get_i32 (val_i64 w) = 0

abbrev get_i64 : Val → ℕ
get_i64 (val_i32 w) = 0
get_i64 (val_i64 w) = w

abbrev values : Values
values = record {
  Value = Val;
  value_gen_i32 = val_i32;
  value_gen_i64 = val_i64;
  value_get_i32 = get_i32;
  value_get_i64 = get_i64;
}

reads_back : ReadsBack values
reads_back = record { get-gen_i32 = λ w. refl; get-gen_i64 = λ w. refl }

host_apis-Same_example :
    Pairwise
      (Same values reads_back)
      (Wasmtime.host_apis (host_functions engine nginx))
      (Wasmedge.host_apis values (host_functions engine nginx))
host_apis-Same_example = host_apis-Same values reads_back (host_functions engine nginx)

-- The rows of `proxy_log`, `proxy_send_local_response` and `proxy_replace_header_map_value`.
abbrev pub log_row : Api Val
log_row = define_wasm_name "proxy_log" (define_wasm_api (i32s 3) log) (i32s 3)

abbrev response_row : Api Val
response_row =
    define_wasm_name "proxy_send_local_response"
      (define_wasm_api (i32s 8)
        λ res_code details_data details_size body body_size headers headers_size grpc_status.
          send_local_response nginx res_code body body_size headers headers_size)
      (i32s 8)

abbrev replace_row : Api Val
replace_row =
    define_wasm_name "proxy_replace_header_map_value"
      (define_wasm_api (i32s 5) (replace_header_map_value nginx)) (i32s 5)

abbrev pub word : ℕ → Val
word = val_i32

host_apis-kept_example :
    IfEnds (λ _ h'. kept h' ≡ kept host) (log_row.cb (word 2 ∷ word 8 ∷ word 4 ∷ []) host)
unfolding host_apis host_api_func define_wasm_name writes_request host_functions
host_apis-kept_example =
    host_apis-kept engine nginx 3 log_row (word 2 ∷ word 8 ∷ word 4 ∷ []) host refl refl refl

-- Three headers are announced at the address 8, of which the memory says nothing.
abbrev announced : Host
announced = with_mem host (record zeros { byte = λ a. if a == 8 then 3 else 0 })

announced-IsBytes : IsBytes announced.mem
announced-IsBytes x = elim (Bool-cases (x == 8)) [
  | inl e ↦ rw e (omega arith)
  | inr e ↦ rw e (omega arith)
]

host_apis-IfEnds_example :
    IfEnds
      (λ _ h'. current h' ≡ current announced)
      (response_row.cb
        (word 403 ∷ word 0 ∷ word 0 ∷ word 0 ∷ word 0 ∷ word 8 ∷ word 4 ∷ word 0 ∷ [])
        announced)
unfolding host_apis host_api_func define_wasm_name host_functions
host_apis-IfEnds_example =
    host_apis-IfEnds engine nginx 6 response_row
      (word 403 ∷ word 0 ∷ word 0 ∷ word 0 ∷ word 0 ∷ word 8 ∷ word 4 ∷ word 0 ∷ []) announced refl
      refl announced-IsBytes

-- The plugin runs, sets a header whose name is one byte, and answers with the status 403.
abbrev pub answered : Host
answered = record host { wmcf = record { code = 403; body_len = 0; body_data = none } }

dialogue : Dialogue engine nginx host answered
unfolding host_apis host_api_func define_wasm_name host_functions replace_header_map_value
    send_local_response sext64 get_req get_memory add32 put_at copy_out on_mem read set_req_header
    set_by_type set_plain_header must_get_req must_get_memory get_mem
dialogue =
    turned host
      (turned host (turned host begun (plugin_runs zeros)) (
        called {h = host} {h' = host} {results = word 0 ∷ []} 15 replace_row
          (word 0 ∷ word 8 ∷ word 1 ∷ word 16 ∷ word 4 ∷ []) refl refl (λ x. omega arith) refl))
      (called {h = host} {h' = answered} {results = word 0 ∷ []} 6 response_row
        (word 403 ∷ word 0 ∷ word 0 ∷ word 0 ∷ word 0 ∷ word 0 ∷ word 0 ∷ word 0 ∷ []) refl refl
        (λ x. omega arith) refl)

Dialogue-IsClean_example : IsClean answered.r × (current answered ≡ current host)
Dialogue-IsClean_example =
    Dialogue-IsClean engine nginx keeps_names host answered dialogue good.clean

log-message_example :
    (((8 + 4 ≤ host.mem.size) × (8 + 4 < half32))
      × (log 2 8 4 host ≡ ok result_ok (record host { logged = message 2 8 4 host ∷ host.logged }))
      × (1 ≤ host_log_level 2)
      × (host_log_level 2 ≤ 8))
    ⊎ (((host.mem.size < 8 + 4) ⊎ (half32 ≤ 8 + 4))
        × (log 2 8 4 host ≡ ok invalid_memory_access host))
log-message_example = log-message 2 8 4 host (omega arith) (omega arith) (omega arith)

-- The size -4.
log_negative_size_example :
    log 5 8 4294967292 host
      ≡ ok result_ok (record host { logged = message 5 8 4294967292 host ∷ host.logged })
    × (host.mem.size < sext64 4294967292)
log_negative_size_example =
    log_negative_size 5 8 4294967292 host (omega arith) (omega arith) (omega arith) (omega arith)
      (omega arith) (omega arith)
