-- ===== src/Tests/Loader.antt =====
-- The theorems on loading, at engines in which one call fails or all succeed, and those on the two
-- engines together.
use wasm_nginx_module.Prelude.{
  refl, ◌+◌, ◌≡◌, true, [], ◌∷◌, none, some, arith, ◌==◌, leb, if◌then◌else◌, not,
}
use wasm_nginx_module.Run.{Returns, pure, ◌>>=◌}
use wasm_nginx_module.Vm
use wasm_nginx_module.Vm.{Engine, returned_i32, returned_other}
use wasm_nginx_module.Vm.Wasmedge.{WasmedgeApi, PointsInside}
use wasm_nginx_module.Vm.Agreement.{GivesI32, call-eq}
use wasm_nginx_module.Loader.Wasmtime as L
use wasm_nginx_module.Loader.Wasmtime.{instance_made, start_trapped}
use wasm_nginx_module.Loader.WasmtimeLaws
use wasm_nginx_module.Loader.WasmtimeLaws.{load-unload}
use wasm_nginx_module.Loader.Wasmedge as K
use wasm_nginx_module.Loader.WasmedgeLaws
use wasm_nginx_module.Loader.WasmedgeLaws.{load_wasmedge-Loaded, load-unload_wasmedge}
use wasm_nginx_module.Tests.Data.{engine, host}

abbrev wasmtime : L.Wasmtime
wasmtime = record {
  engine_new = true;
  module_new = true;
  store_new = true;
  wasi_config_new = true;
  set_wasi = true;
  linker_new = true;
  define_wasi = true;
  host_api_func = λ i. true;
  define_func = λ i. not (i == 2);
  alloc = true;
  instantiate = instance_made;
  exports_memory = true;
}

abbrev wasmedge : K.Wasmedge
wasmedge = record {
  store_new = true;
  loader_new = true;
  validator_new = true;
  executor_new = true;
  parse = true;
  validate = true;
  import_new = true;
  functype_new = λ i. true;
  function_new = λ i. not (i == 2);
  register_import = true;
  wasi_new = true;
  register_wasi = true;
  instantiate = true;
  finds_memory = true;
  alloc = true;
}

load-unload_example :
    Returns
      (λ _ held'. held' ≡ [])
      ((L.load wasmtime 2 >>= λ loaded. if loaded then L.unload else pure tt) [])
load-unload_example = load-unload wasmtime 2 [] λ e. ground arith

load_wasmedge-Loaded_example : Returns (WasmedgeLaws.Loaded wasmedge []) (K.load wasmedge 3 [])
load_wasmedge-Loaded_example = load_wasmedge-Loaded wasmedge [] 3

abbrev api : WasmedgeApi
api = record {
  value_get_i32 = 0;
  get_pointer = λ m addr size. if leb (addr + size) m.size then some addr else none;
}

gives : GivesI32 engine
gives n name args m e = ground arith

points : PointsInside api
points = record {
  inside = λ m addr size fits. ground arith;
  outside = λ m addr size past. ground arith;
}

call-eq_example :
    Vm.Wasmedge.call api engine "malloc" true 2 (5 ∷ []) host.plugin
    ≡ Vm.call engine "malloc" true 2 (5 ∷ []) host.plugin
call-eq_example =
    call-eq api engine "malloc" true 2 (5 ∷ []) host.plugin (λ asked. gives) λ found. refl
