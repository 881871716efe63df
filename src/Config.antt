-- ===== src/Config.antt =====
-- The configuration of src/http/ngx_http_wasm_module.c, the `wasm_vm` directive, and the choice of the
-- engine in src/vm/vm.c when nginx starts or is configured again.
pub mod Laws
use wasm_nginx_module.Prelude.{
  ℕ, Bool, true, false, not, ◌&&◌, ◌||◌, List, [], ◌∷◌, Option, none, some, length, if◌then◌else◌,
  ◌==◌,
}
use wasm_nginx_module.Run.{M, ok, pure, ◌>>=◌, ◌>>◌}
use wasm_nginx_module.Vm.{ngx_ok, ngx_error}
use wasm_nginx_module.Pseudo.{bytes}

-- `ngx_wasm_wasmtime_vm` and `ngx_wasm_wasmedge_vm`.
pub data Vm : Type 0 where
  wasmtime wasmedge : Vm

-- What does not change while nginx is configured: whether this process only signals or tests the
-- configuration, whether NGX_WASM_HAVE_WASMEDGE is set, whether the symbols of lua-nginx-module are
-- found, and whether there is memory.
pub record Environment : Type 0 where
  pub signaller : Bool
  pub test_config : Bool
  pub have_wasmedge : Bool
  pub resolve_symbol : ℕ
  pub pcalloc : Bool
  pub cleanup_add : Bool

-- `ngx_http_wasm_vm_inited` and `ngx_wasm_vm`, and the handlers that the configuration's pool has for
-- its end, each with its `data`.
pub record Globals : Type 0 where
  pub vm_inited : Bool
  pub ngx_wasm_vm : Option Vm
  pub cleanups : List (Option Vm)

abbrev pub same : List ℕ → List ℕ → Bool
same [] [] = true
same (x ∷ xs) (y ∷ ys) = x == y && same xs ys
same _ _ = false

-- The member `vm` of the new configuration.
unfoldable pub create_main_conf : Environment → Option (List ℕ)
create_main_conf env = if env.pcalloc then some [] else none

-- `ngx_http_wasm_vm`, the handler of the directive: the name that is kept, or "is duplicate".
unfoldable pub wasm_vm : List ℕ → List ℕ → Option (List ℕ)
wasm_vm vm value = if not (length vm == 0) then none else some value

module _ (env : Environment) where
  -- The engine that `ngx_wasm_vm_init` takes for a name.
  unfoldable pub find_vm : List ℕ → Option Vm
  find_vm name =
      if same name (bytes "wasmtime")
      then some wasmtime
      else if env.have_wasmedge && same name (bytes "wasmedge")
      then some wasmedge
      else none

  -- `ngx_wasm_vm_init`. The pointer keeps its value where the name is that of no engine. Both engines'
  -- `init` only log, and give NGX_OK.
  unfoldable pub vm_init : List ℕ → M Globals ℕ
  unfolding find_vm
  vm_init name g =
      let chosen : Option Vm = elim (find_vm name) [ none ↦ g.ngx_wasm_vm | some vm ↦ some vm ] in
      elim chosen [
        | none ↦ ok ngx_error g
        | some vm ↦ ok ngx_ok (record g { ngx_wasm_vm = some vm })
      ]

  -- The end of `ngx_http_wasm_init`, behind `ngx_pool_cleanup_add`, which leaves `data` NULL.
  unfoldable pub init_vm : List ℕ → M Globals ℕ
  unfolding vm_init
  init_vm name g =
      (do
        rc ← vm_init name
        let inited : M Globals ℕ =
            λ g'. ok ngx_ok (record g' { vm_inited = true; cleanups = g'.ngx_wasm_vm ∷ g.cleanups })
        let failed : M Globals ℕ = λ g'. ok rc (record g' { cleanups = none ∷ g.cleanups })
        if rc == ngx_ok then inited else failed)
        g

  -- `ngx_http_wasm_init`, with the member `vm` of the configuration.
  unfoldable pub init : List ℕ → M Globals ℕ
  unfolding init_vm
  init vm g =
      if env.signaller || (env.test_config || g.vm_inited)
      then ok ngx_ok g
      else if not (env.resolve_symbol == ngx_ok)
      then ok env.resolve_symbol g
      else if length vm == 0
      then ok ngx_ok g
      else if not env.cleanup_add
      then ok ngx_error g
      else init_vm vm g

-- `ngx_wasm_vm_cleanup`: the engine whose `cleanup` is called.
unfoldable pub vm_cleanup : Option Vm → Option Vm
vm_cleanup vm = vm
