-- ===== src/Loader/WasmtimeLaws.antt =====
-- What `ngx_wasm_wasmtime_load` of src/vm/wasmtime.c holds when it returns.
use wasm_nginx_module.Prelude.{
  ℕ, zero, suc, ◌≡◌, ◌≢◌, ◌⊎◌, refl, Bool, true, false, inl, inr, List, [], ◌∷◌, ◌++◌, Bool-cases,
  if◌then◌else◌,
}
use wasm_nginx_module.Run.{pure, and_then, Returns, returns, bind, ◌>>=◌}
use wasm_nginx_module.Loader.{acquire_then}
use wasm_nginx_module.Loader.Wasmtime.{
  Object, engine, module', store, linker, trap, plugin, Instantiated, instance_made, start_trapped,
  link_failed, Wasmtime, load, unload, make_module, make_wasi, make_linker, make_plugin,
  make_instance, define_apis, free_linker, W, attempt, code, error, functype, wasi_config,
}

-- The objects of a plugin, and the trap that its start function may have left.
abbrev pub objects : Instantiated → List Object
objects start_trapped = trap ∷ plugin ∷ linker ∷ store ∷ module' ∷ engine ∷ []
objects _ = plugin ∷ linker ∷ store ∷ module' ∷ engine ∷ []

objects_whole :
    (i : Instantiated)
    → i ≢ start_trapped
    → objects i ≡ plugin ∷ linker ∷ store ∷ module' ∷ engine ∷ []
objects_whole instance_made whole = refl
objects_whole start_trapped whole = absurd (whole refl)
objects_whole link_failed whole = refl

-- `true`: the plugin is returned with its objects on top of those held before. `false`: NULL is, with
-- those only, or with the trap of a start function on top.
abbrev pub Loaded : Wasmtime → List Object → Bool → List Object → Type 0
Loaded w held true held' = held' ≡ objects w.instantiate ++ held
Loaded w held false held' =
    (held' ≡ held) ⊎ ((w.instantiate ≡ start_trapped) × (held' ≡ trap ∷ held))

-- Both ways on from a call that may answer with an error, and from a test.
attempt_then :
    {A : Type 0} {P : A → List Object → Type 0} (succeeds : Bool) (held : List Object)
    (k : Bool → W A)
    → Returns P (k true held)
    → Returns P (k false (error ∷ held))
    → Returns P (and_then (attempt succeeds held) k)
attempt_then true held k done failed = done
attempt_then false held k done failed = failed

module _ (w : Wasmtime) (held : List Object) where
  made_instance :
      (i : Instantiated)
      → w.instantiate ≡ i
      → Returns
          (Loaded w held)
          (make_instance w (plugin ∷ linker ∷ store ∷ module' ∷ engine ∷ held))
  unfolding make_instance
  made_instance instance_made e = elim (Bool-cases w.exports_memory) [
    | inl memory ↦ rw (e, memory) (returns refl)
    | inr missing ↦ rw (e, missing) (returns (inl refl))
  ]
  made_instance start_trapped e = elim (Bool-cases w.exports_memory) [
    | inl memory ↦ rw (e, memory) (returns refl)
    | inr missing ↦ rw (e, missing) (returns (inr (refl, refl)))
  ]
  made_instance link_failed e = rw e (returns (inl refl))

  made_plugin : Returns (Loaded w held) (make_plugin w (linker ∷ store ∷ module' ∷ engine ∷ held))
  unfolding make_plugin
  made_plugin =
      acquire_then code plugin w.alloc _ _ (made_instance w.instantiate refl) (returns (inl refl))

module _ (w : Wasmtime) where
  -- The loop over the host functions gives back all that it takes.
  define_apis-Returns :
      (left i : ℕ) (held : List Object)
      → Returns (λ defined held'. held' ≡ held) (define_apis w left i held)
  unfolding define_apis
  define_apis-Returns zero i held = returns refl
  define_apis-Returns (suc left) i held =
      acquire_then code functype (w.host_api_func i) held _
        (attempt_then (w.define_func i) (functype ∷ held) _ (define_apis-Returns left (suc i) held)
          (returns refl))
        (returns refl)

module _ (w : Wasmtime) (host_apis : ℕ) (held : List Object) where
  after_apis :
      (defined : Bool) (held' : List Object)
      → held' ≡ linker ∷ store ∷ module' ∷ engine ∷ held
      → Returns (Loaded w held) ((if defined then make_plugin w else free_linker) held')
  unfolding free_linker
  after_apis true held' e = rw e (made_plugin w held)
  after_apis false held' e = rw e (returns (inl refl))

  made_linker : Returns (Loaded w held) (make_linker w host_apis (store ∷ module' ∷ engine ∷ held))
  unfolding make_linker
  made_linker =
      acquire_then code linker w.linker_new (store ∷ module' ∷ engine ∷ held) _
        (attempt_then w.define_wasi (linker ∷ store ∷ module' ∷ engine ∷ held) _
          (bind (define_apis-Returns w host_apis 0 (linker ∷ store ∷ module' ∷ engine ∷ held))
            after_apis)
          (returns (inl refl)))
        (returns (inl refl))

  made_wasi : Returns (Loaded w held) (make_wasi w host_apis (store ∷ module' ∷ engine ∷ held))
  unfolding make_wasi
  made_wasi =
      acquire_then code wasi_config w.wasi_config_new (store ∷ module' ∷ engine ∷ held) _
        (attempt_then w.set_wasi (store ∷ module' ∷ engine ∷ held) _ made_linker
          (returns (inl refl)))
        (returns (inl refl))

  made_module : Returns (Loaded w held) (make_module w host_apis (engine ∷ held))
  unfolding make_module
  made_module =
      attempt_then w.module_new (engine ∷ held) _
        (acquire_then code store w.store_new (module' ∷ engine ∷ held) _ made_wasi
          (returns (inl refl)))
        (returns (inl refl))

  pub load-Loaded : Returns (Loaded w held) (load w host_apis held)
  unfolding load
  load-Loaded = acquire_then code engine w.engine_new held _ made_module (returns (inl refl))

  unload_loaded :
      (loaded : Bool) (held' : List Object)
      → w.instantiate ≢ start_trapped
      → Loaded w held loaded held'
      → Returns (λ _ held2. held2 ≡ held) ((if loaded then unload else pure tt) held')
  unfolding unload
  unload_loaded true held' whole e = rw (e, objects_whole w.instantiate whole) (returns refl)
  unload_loaded false held' whole (inl same) = returns same
  unload_loaded false held' whole (inr (trapped, left)) = absurd (whole trapped)

  -- Where no start function traps, loading a plugin and unloading it again, or failing to load it,
  -- leaves exactly the objects that were held before.
  pub load-unload :
      w.instantiate ≢ start_trapped
      → Returns
          (λ _ held'. held' ≡ held)
          ((load w host_apis >>= λ loaded. if loaded then unload else pure tt) held)
  load-unload whole = bind load-Loaded λ loaded held' l. unload_loaded loaded held' whole l
