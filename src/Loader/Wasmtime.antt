-- ===== src/Loader/Wasmtime.antt =====
-- `ngx_wasm_wasmtime_load` and `ngx_wasm_wasmtime_unload` of src/vm/wasmtime.c. Each function below is
-- the code of `load` from one step on, and each label of its clean-up is a function.
use wasm_nginx_module.Prelude.{ℕ, zero, suc, Bool, true, false, not, List, ◌∷◌, if◌then◌else◌}
use wasm_nginx_module.Run.{M, ok, pure, ◌>>=◌, ◌>>◌}
use wasm_nginx_module.Loader.{release, acquire}

-- The objects: those of the C API of wasmtime, and the plugin's own block.
pub data Object : Type 0 where
  engine module' store wasi_config linker functype error trap plugin : Object

abbrev pub code : Object → ℕ
code engine = 0
code module' = 1
code store = 2
code wasi_config = 3
code linker = 4
code functype = 5
code error = 6
code trap = 7
code plugin = 8

-- How `wasmtime_linker_instantiate` ends: with an instance, with a trap of the plugin's start function,
-- or with an error.
pub data Instantiated : Type 0 where
  instance_made start_trapped link_failed : Instantiated

-- Which calls succeed. `host_api_func` and `define_func` go by the index in the table of host functions.
pub record Wasmtime : Type 0 where
  pub engine_new : Bool
  pub module_new : Bool
  pub store_new : Bool
  pub wasi_config_new : Bool
  pub set_wasi : Bool
  pub linker_new : Bool
  pub define_wasi : Bool
  pub host_api_func : ℕ → Bool
  pub define_func : ℕ → Bool
  pub alloc : Bool
  pub instantiate : Instantiated
  pub exports_memory : Bool

abbrev pub W : Type 0 → Type 0
W A = M (List Object) A

-- A call that answers with an error object if it fails.
abbrev pub attempt : Bool → W Bool
attempt succeeds held = if succeeds then ok true held else ok false (error ∷ held)

-- `ngx_wasm_wasmtime_report_error`, which deletes the error if there is one, and else the trap.
unfoldable pub report_error : Bool → W (Unit {0})
report_error has_error = if has_error then release code error else release code trap

-- The labels of the clean-up. The result is NULL.
unfoldable pub free_engine : W Bool
free_engine = do release code engine; pure false

unfoldable pub free_module : W Bool
unfolding free_engine
free_module = do release code module'; free_engine

unfoldable pub free_store : W Bool
unfolding free_module
free_store = do release code store; free_module

unfoldable pub free_linker : W Bool
unfolding free_store
free_linker = do release code linker; free_store

unfoldable pub free_plugin : W Bool
unfolding free_linker
free_plugin = do release code plugin; free_linker

module _ (w : Wasmtime) where
  -- What `wasmtime_linker_instantiate` leaves behind: the answer is whether `error` is NULL. A trap is
  -- stored, and the code does not look at it.
  unfoldable pub instantiate : Instantiated → W Bool
  instantiate instance_made held = ok true held
  instantiate start_trapped held = ok true (trap ∷ held)
  instantiate link_failed held = ok false (error ∷ held)

  -- From the instantiation on. The result is whether the plugin is returned.
  unfoldable pub make_instance : W Bool
  unfolding instantiate report_error free_plugin
  make_instance = do
    made ← instantiate w.instantiate
    if made
        then (if w.exports_memory then pure true else free_plugin)
        else do report_error true; free_plugin

  -- From the allocation of the plugin on.
  unfoldable pub make_plugin : W Bool
  unfolding free_linker
  make_plugin = do block ← acquire code plugin w.alloc; if block then make_instance else free_linker

  -- The loop over the host functions, with `left` of them left: whether all have been defined.
  unfoldable pub define_apis : ℕ → ℕ → W Bool
  unfolding report_error
  define_apis zero i = pure true
  define_apis (suc left) i = do
    f ← acquire code functype (w.host_api_func i)
    elim f [
      | false ↦ pure false
      | true ↦ do
        defined ← attempt (w.define_func i)
        release code functype
        elim defined [ true ↦ define_apis left (suc i) | false ↦ do report_error true; pure false ]
    ]

  -- From the creation of the linker on.
  unfoldable pub make_linker : ℕ → W Bool
  unfolding report_error free_store free_linker
  make_linker host_apis = do
    made ← acquire code linker w.linker_new
    if not made then free_store else do
      wasi ← attempt w.define_wasi
      if not wasi
          then (do report_error true; free_linker)
          else do defined ← define_apis host_apis 0; if defined then make_plugin else free_linker

  -- From the WASI configuration on. `wasmtime_context_set_wasi` takes it over, also when it fails.
  unfoldable pub make_wasi : ℕ → W Bool
  unfolding report_error free_store
  make_wasi host_apis = do
    config ← acquire code wasi_config w.wasi_config_new
    if not config then free_store else do
      release code wasi_config
      wasi ← attempt w.set_wasi
      if wasi then make_linker host_apis else (do report_error true; free_store)

  -- From the module on.
  unfoldable pub make_module : ℕ → W Bool
  unfolding report_error free_engine free_module
  make_module host_apis = do
    parsed ← attempt w.module_new
    if not parsed then (do report_error true; free_engine) else do
      acquire code module' true
      made ← acquire code store w.store_new
      if made then make_wasi host_apis else free_module

  -- `ngx_wasm_wasmtime_load` for a table of `host_apis` host functions.
  unfoldable pub load : ℕ → W Bool
  load host_apis = do
    made ← acquire code engine w.engine_new
    if made then make_module host_apis else pure false

-- `ngx_wasm_wasmtime_unload`.
unfoldable pub unload : W (Unit {0})
unload = do
  release code module'
  release code store
  release code linker
  release code engine
  release code plugin
