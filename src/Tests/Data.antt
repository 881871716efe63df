-- ===== src/Tests/Data.antt =====
-- A plugin with 256 bytes of memory whose allocator always gives out address 100, and a request with
-- one header.
use wasm_nginx_module.Prelude.{true, false, [], ◌∷◌, none, some, length, ◌==◌}
use wasm_nginx_module.Memory.{Memory}
use wasm_nginx_module.Map.Layout.{Header}
use wasm_nginx_module.Vm.{Engine, returned_i32, trapped}
use wasm_nginx_module.Host.{Request, ModuleCtx, Host, Nginx, Parts}
use wasm_nginx_module.Pseudo.{bytes}

abbrev pub zeros : Memory
zeros = record { size = 256; byte = λ _. 0 }

abbrev pub accept : Header
accept = record { key = bytes "a"; value = bytes "bc" }

abbrev pub engine : Engine
engine = record {
  exports = λ _. true;
  is_function = λ _. true;
  invoke = λ _ _ _ m. (returned_i32 100, m);
}

abbrev pub broken_engine : Engine
broken_engine = record {
  exports = λ _. true;
  is_function = λ _. true;
  invoke = λ _ _ _ m. (trapped, m);
}

abbrev pub no_parts : Parts
no_parts = record { part = []; next = [] }

abbrev pub request : Request
request = record {
  uri = bytes "/a";
  unparsed_uri = bytes "/a";
  method_name = bytes "GET";
  internal = false;
  valid_unparsed_uri = true;
  valid_location = true;
  uri_changed = false;
  ssl = false;
  err_status = 0;
  status = 200;
  host = some (bytes "h");
  headers_in = no_parts;
  headers_out = no_parts;
  content_type = [];
  content_length = false;
  content_length_n = none;
  keepalive = true;
  chunked = false;
}

abbrev pub module_ctx : ModuleCtx
module_ctx = record {
  callout = none;
  callout_id = 0;
  call_resp_headers = accept ∷ [];
  call_resp_body = none;
}

abbrev pub host : Host
host = record {
  plugin = record { mem = zeros; tick = 0 };
  cur_state = some (record { conf = []; body = []; has_req = true; plugin_name = [] });
  r = request;
  ctx = module_ctx;
  wmcf = record { code = 0; body_len = 0; body_data = none };
  cur_callout_id = 7;
  logged = [];
}

abbrev pub nginx : Nginx
nginx = record {
  palloc = λ _ _. true;
  parse_url = λ _. true;
  get_phase = λ _. 1;
  get_variable = λ _ _. some none;
  set_variable = λ r _ v. (0, [], r);
  takes_arguments = λ _. false;
  get_req_headers_count = λ _. 1;
  get_req_headers = λ _. some (accept ∷ []);
  get_resp_header = λ _ _. (0, []);
  set_req_header = λ r _ _ _. (0, r);
  set_resp_header = λ r _ _ _ _. (0, r);
  set_resp_status = λ r _. (0, r);
  atoi = λ _. none;
  sprintf = λ n. n ∷ [];
  strncasecmp_eq = λ a b. length a == length b;
  strlow = λ s. s;
  set_exten = λ r. r;
}
