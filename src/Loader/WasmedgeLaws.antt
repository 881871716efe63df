-- ===== src/Loader/WasmedgeLaws.antt =====
-- What `ngx_wasm_wasmedge_load` of src/vm/wasmedge.c holds when it returns.
use wasm_nginx_module.Prelude.{
  ℕ, zero, suc, ◌≡◌, ◌⊎◌, refl, Bool, true, false, inl, inr, List, ◌∷◌, if◌then◌else◌,
}
use wasm_nginx_module.Run.{ok, pure, and_then, Returns, returns, bind, ◌>>=◌}
use wasm_nginx_module.Loader.{acquire, acquire_then}
use wasm_nginx_module.Loader.Wasmedge.{
  Object, store, loader, validator, executor, ast, string, import, wasi, functype, function,
  module', plugin, code, Wasmedge, E, load, unload, make_loader, make_validator, make_executor,
  make_ast, make_import, register, make_module, make_plugin, add_apis, free_import, named,
  with_import,
}

abbrev pub with_wasi : Bool → List Object → List Object
with_wasi true held = wasi ∷ held
with_wasi false held = held

-- The objects of a plugin, with or without those of WASI.
abbrev pub objects : Bool → List Object → List Object
objects has_wasi held = plugin ∷ module' ∷ with_wasi has_wasi (import ∷ executor ∷ store ∷ held)

-- The same before the loading is done, up to the import module and up to the syntax tree.
abbrev upto_ast : List Object → List Object
upto_ast held = ast ∷ executor ∷ validator ∷ loader ∷ store ∷ held

-- `true`: the plugin is returned with its objects on top of those held before. `false`: NULL is, with
-- those only, or with the type of a function that could not be made on top.
abbrev pub Loaded : Wasmedge → List Object → Bool → List Object → Type 0
Loaded w held true held' = held' ≡ objects w.wasi_new held
Loaded w held false held' = (held' ≡ held) ⊎ (held' ≡ functype ∷ held)

-- Both ways on from a test.
if_then :
    {A : Type 0} {P : A → List Object → Type 0} (b : Bool) (held : List Object) (f g : E A)
    → Returns P (f held)
    → Returns P (g held)
    → Returns P ((if b then f else g) held)
if_then true held f g yes' no' = yes'
if_then false held f g yes' no' = no'

acquire_known :
    {A : Type 0} {P : A → List Object → Type 0} (succeeds : Bool) (held : List Object)
    (k : Bool → E A)
    → (true ≡ succeeds → Returns P (k true (wasi ∷ held)))
    → (false ≡ succeeds → Returns P (k false held))
    → Returns P (and_then (acquire code wasi succeeds held) k)
acquire_known true held k made failed = made refl
acquire_known false held k made failed = failed refl

module _ (w : Wasmedge) (held : List Object) where
  made_plugin :
      (has_wasi : Bool)
      → has_wasi ≡ w.wasi_new
      → Returns
          (Loaded w held)
          (make_plugin w has_wasi (module' ∷ with_wasi has_wasi (import ∷ upto_ast held)))
  unfolding make_plugin
  made_plugin true e =
      if_then w.finds_memory _ _ _
        (acquire_then code plugin w.alloc _ _ (returns (rw (← e) refl)) (returns (inl refl)))
        (returns (inl refl))
  made_plugin false e =
      if_then w.finds_memory _ _ _
        (acquire_then code plugin w.alloc _ _ (returns (rw (← e) refl)) (returns (inl refl)))
        (returns (inl refl))

  freed_import :
      (has_wasi : Bool)
      → Returns (Loaded w held) (free_import has_wasi (with_wasi has_wasi (import ∷ upto_ast held)))
  unfolding free_import
  freed_import true = returns (inl refl)
  freed_import false = returns (inl refl)

  made_module :
      (has_wasi : Bool)
      → has_wasi ≡ w.wasi_new
      → Returns
          (Loaded w held)
          (make_module w has_wasi (with_wasi has_wasi (import ∷ upto_ast held)))
  unfolding make_module
  made_module has_wasi e =
      if_then w.register_wasi _ _ _
        (acquire_then code module' w.instantiate _ _ (made_plugin has_wasi e)
          (freed_import has_wasi))
        (freed_import has_wasi)

  registered : Returns (Loaded w held) (register w (import ∷ upto_ast held))
  unfolding register
  registered =
      if_then w.register_import _ _ _
        (acquire_known w.wasi_new (import ∷ upto_ast held) _ (made_module true) (made_module false))
        (freed_import false)

  -- All functions have been added, or the type of one that could not be made is left over.
  abbrev Added : List Object → Bool → List Object → Type 0
  Added before true held' = held' ≡ before
  Added before false held' = (held' ≡ before) ⊎ (held' ≡ functype ∷ before)

  add_apis-Added :
      (left i : ℕ) (before : List Object) → Returns (Added before) (add_apis w left i before)
  unfolding add_apis
  add_apis-Added zero i before = returns refl
  add_apis-Added (suc left) i before =
      acquire_then code functype (w.functype_new i) before _
        (acquire_then code function (w.function_new i) (functype ∷ before) _
          (add_apis-Added left (suc i) before) (returns (inr refl)))
        (returns (inl refl))

  after_apis :
      (added : Bool) (held' : List Object)
      → Added (import ∷ upto_ast held) added held'
      → Returns (Loaded w held) ((if added then register w else free_import false) held')
  unfolding free_import
  after_apis true held' e = rw e registered
  after_apis false held' (inl e) = rw e (returns (inl refl))
  after_apis false held' (inr e) = rw e (returns (inr refl))

  named_import :
      Returns
        (λ made held'. held' ≡ (if made then import ∷ upto_ast held else upto_ast held))
        (named (acquire code import w.import_new) (upto_ast held))
  unfolding named
  named_import =
      acquire_then code import w.import_new (string ∷ upto_ast held) _ (returns refl) (returns refl)

  after_import :
      (host_apis : ℕ) (made : Bool) (held' : List Object)
      → held' ≡ (if made then import ∷ upto_ast held else upto_ast held)
      → Returns (Loaded w held) (with_import w host_apis made held')
  unfolding with_import
  after_import host_apis true held' e =
      rw e (bind (add_apis-Added host_apis 0 (import ∷ upto_ast held)) after_apis)
  after_import host_apis false held' e = rw e (returns (inl refl))

  made_import : (host_apis : ℕ) → Returns (Loaded w held) (make_import w host_apis (upto_ast held))
  unfolding make_import
  made_import host_apis = bind named_import (after_import host_apis)

  made_ast :
      (host_apis : ℕ)
      → Returns
          (Loaded w held)
          (make_ast w host_apis (executor ∷ validator ∷ loader ∷ store ∷ held))
  unfolding make_ast
  made_ast host_apis =
      acquire_then code ast w.parse _ _
        (if_then w.validate (upto_ast held) _ _ (made_import host_apis) (returns (inl refl)))
        (returns (inl refl))

  made_executor :
      (host_apis : ℕ)
      → Returns (Loaded w held) (make_executor w host_apis (validator ∷ loader ∷ store ∷ held))
  unfolding make_executor
  made_executor host_apis =
      acquire_then code executor w.executor_new _ _ (made_ast host_apis) (returns (inl refl))

  made_validator :
      (host_apis : ℕ) → Returns (Loaded w held) (make_validator w host_apis (loader ∷ store ∷ held))
  unfolding make_validator
  made_validator host_apis =
      acquire_then code validator w.validator_new _ _ (made_executor host_apis) (returns (inl refl))

  made_loader : (host_apis : ℕ) → Returns (Loaded w held) (make_loader w host_apis (store ∷ held))
  unfolding make_loader
  made_loader host_apis =
      acquire_then code loader w.loader_new _ _ (made_validator host_apis) (returns (inl refl))

  -- `ngx_wasm_wasmedge_load` returns, whichever of the calls of the engine fail, and never gives back
  -- what it does not hold. If it returns the plugin, the plugin's objects have been added to those held
  -- before; if it returns NULL, all has been given back, but the type of a function that could not be
  -- made may be left over.
  pub load_wasmedge-Loaded : (host_apis : ℕ) → Returns (Loaded w held) (load w host_apis held)
  unfolding load
  load_wasmedge-Loaded host_apis =
      acquire_then code store w.store_new held _ (made_loader host_apis) (returns (inl refl))

  unload-objects : (has_wasi : Bool) → unload has_wasi (objects has_wasi held) ≡ ok tt held
  unfolding unload
  unload-objects true = refl
  unload-objects false = refl

  after_load :
      (loaded : Bool) (held' : List Object)
      → Loaded w held loaded held'
      → Returns
          (λ _ held2. (held2 ≡ held) ⊎ (held2 ≡ functype ∷ held))
          ((if loaded then unload w.wasi_new else pure tt) held')
  after_load true held' e = rw (e, unload-objects w.wasi_new) (returns (inl refl))
  after_load false held' e = returns e

  -- Loading a plugin and unloading it again, or failing to load it, leaves the objects that were held
  -- before, and at most one type of a function that could not be made.
  pub load-unload_wasmedge :
      (host_apis : ℕ)
      → Returns
          (λ _ held'. (held' ≡ held) ⊎ (held' ≡ functype ∷ held))
          ((load w host_apis >>= λ loaded. if loaded then unload w.wasi_new else pure tt) held)
  load-unload_wasmedge host_apis = bind (load_wasmedge-Loaded host_apis) after_load
