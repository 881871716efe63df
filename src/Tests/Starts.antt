-- ===== src/Tests/Starts.antt =====
-- The theorems on the configuration and on loading a plugin, at nginx with the wasmtime engine.
use wasm_nginx_module.Prelude.{◌⊎◌, ◌≡◌, refl, inr, true, false, [], none}
use wasm_nginx_module.Run.{ok, Returns}
use wasm_nginx_module.Vm.{ngx_ok}
use wasm_nginx_module.Pseudo.{bytes}
use wasm_nginx_module.Config.{Environment, Globals, init}
use wasm_nginx_module.Config.Laws.{Consistent, Selected, init-Selected}

abbrev environment : Environment
environment = record {
  signaller = false;
  test_config = false;
  have_wasmedge = false;
  resolve_symbol = 0;
  pcalloc = true;
  cleanup_add = true;
}

abbrev globals : Globals
globals = record { vm_inited = false; ngx_wasm_vm = none; cleanups = [] }

consistent : Consistent globals
consistent = record { ready = inr (refl, refl); handlers = tt }

init-Selected_example :
    ((bytes "wasmtime" ≡ []) × (init environment (bytes "wasmtime") globals ≡ ok ngx_ok globals))
    ⊎ Returns
        (Selected environment (bytes "wasmtime"))
        (init environment (bytes "wasmtime") globals)
init-Selected_example =
    init-Selected environment (bytes "wasmtime") globals refl refl refl refl refl consistent
