-- ===== src/Loader/Wasmedge.antt =====
-- `ngx_wasm_wasmedge_load` and `ngx_wasm_wasmedge_unload` of src/vm/wasmedge.c. Each function below is
-- the code of `load` from one step on, and each label of its clean-up is a function.
use wasm_nginx_module.Prelude.{ℕ, zero, suc, Bool, true, false, List, if◌then◌else◌}
use wasm_nginx_module.Run.{M, pure, ◌>>=◌, ◌>>◌}
use wasm_nginx_module.Loader.{release, acquire}

-- The objects: those of the C API of WasmEdge, and the plugin's own block.
pub data Object : Type 0 where
  store loader validator executor ast string import wasi functype function module' plugin : Object

abbrev pub code : Object → ℕ
code store = 0
code loader = 1
code validator = 2
code executor = 3
code ast = 4
code string = 5
code import = 6
code wasi = 7
code functype = 8
code function = 9
code module' = 10
code plugin = 11

-- Which calls succeed. `functype_new` and `function_new` go by the index in the table of host functions.
pub record Wasmedge : Type 0 where
  pub store_new : Bool
  pub loader_new : Bool
  pub validator_new : Bool
  pub executor_new : Bool
  pub parse : Bool
  pub validate : Bool
  pub import_new : Bool
  pub functype_new : ℕ → Bool
  pub function_new : ℕ → Bool
  pub register_import : Bool
  pub wasi_new : Bool
  pub register_wasi : Bool
  pub instantiate : Bool
  pub finds_memory : Bool
  pub alloc : Bool

abbrev pub E : Type 0 → Type 0
E A = M (List Object) A

-- A call that needs a string with a name: the string is created before it and deleted after it.
unfoldable pub named : {A : Type 0} → E A → E A
named call = do acquire code string true; a ← call; release code string; pure a

-- `WasmEdge_ModuleInstanceDelete` of the WASI module, which may be NULL.
abbrev pub delete_wasi : Bool → E (Unit {0})
delete_wasi true = release code wasi
delete_wasi false = pure tt

-- The labels of the clean-up. The result is NULL.
unfoldable pub free_store : E Bool
free_store = do release code store; pure false

unfoldable pub free_loader : E Bool
unfolding free_store
free_loader = do release code loader; free_store

unfoldable pub free_validator : E Bool
unfolding free_loader
free_validator = do release code validator; free_loader

unfoldable pub free_executor : E Bool
unfolding free_validator
free_executor = do release code executor; free_validator

unfoldable pub free_ast : E Bool
unfolding free_executor
free_ast = do release code ast; free_executor

unfoldable pub free_import : Bool → E Bool
unfolding free_ast
free_import has_wasi = do release code import; delete_wasi has_wasi; free_ast

unfoldable pub free_module : Bool → E Bool
unfolding free_import
free_module has_wasi = do release code module'; free_import has_wasi

module _ (w : Wasmedge) where
  -- From the search for the memory on. The result is whether the plugin is returned.
  unfoldable pub make_plugin : Bool → E Bool
  unfolding free_module named
  make_plugin has_wasi = do
    memory ← named (pure w.finds_memory)
    if memory
        then (do
          block ← acquire code plugin w.alloc
          if block
              then (do release code ast; release code validator; release code loader; pure true)
              else free_module has_wasi)
        else free_module has_wasi

  -- From the registration of the WASI module on.
  unfoldable pub make_module : Bool → E Bool
  unfolding free_import
  make_module has_wasi =
      if w.register_wasi
      then (do
        made ← acquire code module' w.instantiate
        if made then make_plugin has_wasi else free_import has_wasi)
      else free_import has_wasi

  -- The loop over the host functions, with `left` of them left: whether all have been added. The
  -- import module takes a function over; its type is only deleted if there is a function.
  unfoldable pub add_apis : ℕ → ℕ → E Bool
  unfolding named
  add_apis zero i = pure true
  add_apis (suc left) i = do
    ft ← acquire code functype (w.functype_new i)
    elim ft [
      | false ↦ pure false
      | true ↦ do
        f ← acquire code function (w.function_new i)
        elim f [
          | false ↦ pure false
          | true ↦ do named (release code function); release code functype; add_apis left (suc i)
        ]
    ]

  -- From the registration of the import module on.
  unfoldable pub register : E Bool
  unfolding free_import
  register =
      if w.register_import
      then (do has_wasi ← acquire code wasi w.wasi_new; make_module has_wasi)
      else free_import false

  -- From the creation of the import module on.
  unfoldable pub with_import : ℕ → Bool → E Bool
  unfolding free_ast free_import
  with_import host_apis made =
      if made
      then (do added ← add_apis host_apis 0; if added then register else free_import false)
      else free_ast

  unfoldable pub make_import : ℕ → E Bool
  make_import host_apis = do
    made ← named (acquire code import w.import_new)
    with_import host_apis made

  -- From the parser on.
  unfoldable pub make_ast : ℕ → E Bool
  unfolding free_executor free_ast
  make_ast host_apis = do
    parsed ← acquire code ast w.parse
    if parsed then (if w.validate then make_import host_apis else free_ast) else free_executor

  -- From the creation of the executor, of the validator and of the loader on.
  unfoldable pub make_executor : ℕ → E Bool
  unfolding free_validator
  make_executor host_apis = do
    made ← acquire code executor w.executor_new
    if made then make_ast host_apis else free_validator

  unfoldable pub make_validator : ℕ → E Bool
  unfolding free_loader
  make_validator host_apis = do
    made ← acquire code validator w.validator_new
    if made then make_executor host_apis else free_loader

  unfoldable pub make_loader : ℕ → E Bool
  unfolding free_store
  make_loader host_apis = do
    made ← acquire code loader w.loader_new
    if made then make_validator host_apis else free_store

  -- `ngx_wasm_wasmedge_load` for a table of `host_apis` host functions.
  unfoldable pub load : ℕ → E Bool
  load host_apis = do
    made ← acquire code store w.store_new
    if made then make_loader host_apis else pure false

-- `ngx_wasm_wasmedge_unload`.
unfoldable pub unload : Bool → E (Unit {0})
unload has_wasi = do
  release code module'
  release code executor
  release code store
  release code import
  delete_wasi has_wasi
  release code plugin
