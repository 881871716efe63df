-- ===== src/Tests/Answered.antt =====
-- A plugin that answers a request with the status 403 and logs a message behind it.
use wasm_nginx_module.Prelude.{◌≡◌, refl, [], ◌∷◌, some, true, arith}
use wasm_nginx_module.Words.{sext64, add32}
use wasm_nginx_module.Run.{ok, Returns}
use wasm_nginx_module.Host.{Host, result_ok}
use wasm_nginx_module.State.{get_req, must_get_req}
use wasm_nginx_module.LocalResponse.{send_local_response}
use wasm_nginx_module.Log.{log}
use wasm_nginx_module.Log.Laws.{message}
use wasm_nginx_module.Contexts.{World, Store, no_state, ctx_state}
use wasm_nginx_module.Contexts.Http.{http_request_headers, http_callback}
use wasm_nginx_module.HostApi.Wasmtime.{host_apis, host_api_func, define_wasm_name}
use wasm_nginx_module.HostApi.Functions.{host_functions}
use wasm_nginx_module.HostApi.Dialogue.{Dialogue, begun, turned, plugin_runs, called}
use wasm_nginx_module.HostApi.Answered.{
  answers_itself, AreOthers, answer_of, http_callback-last_status,
}
use wasm_nginx_module.Tests.Data.{zeros, engine, nginx, host}
use wasm_nginx_module.Tests.Contexts.{store}
use wasm_nginx_module.Tests.HostApis.{answered, log_row, word}

abbrev noted : Host
noted = record answered { logged = message 2 8 4 answered ∷ answered.logged }

before : Dialogue engine nginx host host
before = turned host begun (plugin_runs zeros)

sent : send_local_response nginx 403 0 0 0 0 host ≡ ok result_ok answered
unfolding send_local_response sext64 must_get_req get_req
sent = refl

after : (d : Dialogue engine nginx answered noted) × AreOthers engine nginx d
unfolding host_apis host_api_func define_wasm_name host_functions log sext64 add32 answers_itself
after = (
  turned answered begun (
      called {h = answered} {h' = noted} {results = word 0 ∷ []} 3 log_row
        (word 2 ∷ word 8 ∷ word 4 ∷ []) refl refl (λ x. omega arith) refl),
  (tt, refl),
)

abbrev world : World
world = record {
  call = λ n cb. answer_of noted 0;
  alloc = λ n. true;
  array_push = λ n. true;
  uninitialised = [];
}

abbrev entered : Store
entered = record (store []) { cur_state = ctx_state 1 }

http_callback-last_status_example :
    Returns
      (λ rc' s'. (rc' ≡ 403) × (s'.code ≡ 0) × (s'.cur_state ≡ no_state))
      (http_callback world 1 2 http_request_headers 0 1 (some 5) entered)
unfolding get_req
http_callback-last_status_example =
    http_callback-last_status world engine nginx host host answered noted 403 0 0 0 0 result_ok 0
      refl before (λ x. omega arith) sent (omega arith) (omega arith) after.0 after.1 refl refl 1 2
      http_request_headers 0 1 5 entered (λ n cb e. refl) refl refl
