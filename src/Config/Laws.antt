-- ===== src/Config/Laws.antt =====
-- What `ngx_http_wasm_init` of src/http/ngx_http_wasm_module.c makes of the configured name.
use wasm_nginx_module.Prelude.{
  ℕ, ◌≡◌, ◌≢◌, ◌⊎◌, inl, inr, refl, sym, ap, subst, ◌∙◌, Bool, true, false, ◌||◌, ◌&&◌,
  if◌then◌else◌, List, [], ◌∷◌, Option, none, some, length, ◌==◌, Bool-cases, Option-cases, All,
  arith,
}
use mathlib.Core.Bool.{true≢false}
use wasm_nginx_module.Run.{ok, Returns, returns, mono}
use wasm_nginx_module.Pseudo.{bytes}
use wasm_nginx_module.Vm.{ngx_ok, ngx_error}
use wasm_nginx_module.Config.{
  Vm, wasmtime, wasmedge, same, Environment, Globals, find_vm, vm_init, init_vm, init,
}

-- nginx is ready to load plugins when, and only when, an engine has been chosen; and the pool's
-- handlers clean up that engine or none.
pub record Consistent (g : Globals) : Type 0 where
  pub ready :
      (g.vm_inited ≡ true) × ((vm : Vm) × (g.ngx_wasm_vm ≡ some vm))
      ⊎ ((g.vm_inited ≡ false) × (g.ngx_wasm_vm ≡ none))
  pub handlers : All (λ c. (c ≡ none) ⊎ (c ≡ g.ngx_wasm_vm)) g.cleanups

-- The engine that a name of the `wasm_vm` directive stands for: "wasmtime" always, "wasmedge" where
-- NGX_WASM_HAVE_WASMEDGE is set.
pub data Names (env : Environment) : List ℕ → Vm → Type 0 where
  wasmtime_name : Names env (bytes "wasmtime") wasmtime
  wasmedge_name : env.have_wasmedge ≡ true → Names env (bytes "wasmedge") wasmedge

same-eq : (xs ys : List ℕ) → same xs ys ≡ true → xs ≡ ys
same-eq [] [] e = refl
same-eq [] (y ∷ ys) e = absurd (true≢false (sym e))
same-eq (x ∷ xs) [] e = absurd (true≢false (sym e))
same-eq (x ∷ xs) (y ∷ ys) e =
    let tails = same-eq xs ys (ground arith) in
    let heads : x ≡ y = ground arith in λ i. heads i ∷ tails i

-- The globals before an engine is chosen.
abbrev fresh : List (Option Vm) → Globals
fresh cleanups = record { vm_inited = false; ngx_wasm_vm = none; cleanups = cleanups }

fresh_globals : (g : Globals) → g.vm_inited ≡ false → g.ngx_wasm_vm ≡ none → g ≡ fresh g.cleanups
fresh_globals g e f =
    ap (λ b. record g { vm_inited = b }) e
    ∙ ap (λ v. record { vm_inited = false; ngx_wasm_vm = v; cleanups = g.cleanups }) f

-- What is known of the globals where nginx is not ready.
not_ready : (g : Globals) → Consistent g → g.vm_inited ≡ false → g.ngx_wasm_vm ≡ none
not_ready g c e = elim c.ready [
  | inl (ready, engine) ↦ absurd (true≢false (sym ready ∙ e))
  | inr (unready, no_vm) ↦ no_vm
]

no_handler :
    (v : Vm) (cs : List (Option Vm))
    → All (λ c. (c ≡ none) ⊎ (c ≡ none)) cs
    → All (λ c. (c ≡ none) ⊎ (c ≡ some v)) cs
no_handler v [] all = tt
no_handler v (c ∷ cs) (inl e, all) = (inl e, no_handler v cs all)
no_handler v (c ∷ cs) (inr e, all) = (inl e, no_handler v cs all)

last_false : (a b c : Bool) → (a || (b || c)) ≡ false → c ≡ false
last_false a b c e = ground arith

module _ (env : Environment) where
  -- The answer for a name, from the start.
  abbrev pub Answer : List ℕ → ℕ → Globals → Type 0
  Answer vm rc g' =
      ((rc ≡ ngx_ok)
        × (g'.vm_inited ≡ true)
        × (g'.ngx_wasm_vm ≡ find_vm env vm)
        × ((v : Vm) × (find_vm env vm ≡ some v)))
      ⊎ ((rc ≡ ngx_error)
          × (g'.vm_inited ≡ false)
          × (g'.ngx_wasm_vm ≡ none)
          × (find_vm env vm ≡ none))

  init_vm-fresh :
      (vm : List ℕ) (cs : List (Option Vm))
      → All (λ c. (c ≡ none) ⊎ (c ≡ none)) cs
      → Returns (λ rc g'. Consistent g' × Answer vm rc g') (init_vm env vm (fresh cs))
  unfolding init_vm vm_init
  init_vm-fresh vm cs all = elim (Option-cases (find_vm env vm)) [
    | inl unknown ↦
        rw (vm_init, unknown)
          (returns (
            record { ready = inr (refl, refl); handlers = (inl refl, all) },
            inr (refl, refl, refl, refl),
          ))
    | inr (v, known) ↦
        rw (vm_init, known)
          (returns (
            record { ready = inl (refl, (v, refl)); handlers = (inr refl, no_handler v cs all) },
            inl (refl, refl, refl, (v, refl)),
          ))
  ]

  init_vm-unready :
      (vm : List ℕ) (g : Globals)
      → Consistent g
      → g.vm_inited ≡ false
      → Returns (λ rc g'. Consistent g' × Answer vm rc g') (init_vm env vm g)
  init_vm-unready vm g c e =
      let no_vm = not_ready g c e in
      subst (λ x. Returns (λ rc g'. Consistent g' × Answer vm rc g') (init_vm env vm x))
        (sym (fresh_globals g e no_vm))
        (init_vm-fresh vm g.cleanups
          (subst (λ v. All (λ c'. (c' ≡ none) ⊎ (c' ≡ v)) g.cleanups) no_vm c.handlers))

  -- Configuring nginx keeps the engine and the flag together, whatever the name and whichever step
  -- fails, so that no plugin is loaded without an engine.
  pub init-Consistent :
      (vm : List ℕ) (g : Globals) → Consistent g → Returns (λ rc g'. Consistent g') (init env vm g)
  unfolding init
  init-Consistent vm g c = elim (Bool-cases (env.signaller || (env.test_config || g.vm_inited))) [
    | inl early ↦ rw early (returns c)
    | inr go ↦ elim (Bool-cases (env.resolve_symbol == ngx_ok)) [
      | inr missing ↦ rw (go, missing) (returns c)
      | inl found ↦ elim (Bool-cases (length vm == 0)) [
        | inl unnamed ↦ rw (go, found, unnamed) (returns c)
        | inr named ↦ elim (Bool-cases env.cleanup_add) [
          | inr full ↦ rw (go, found, named, full) (returns c)
          | inl room ↦
              rw (go, found, named, room)
                (mono
                  (init_vm-unready vm g c (last_false env.signaller env.test_config g.vm_inited go))
                  λ rc g' (c', answer). c')
        ]
      ]
    ]
  ]

  init-Answer :
      (vm : List ℕ) (g : Globals)
      → env.signaller ≡ false
      → env.test_config ≡ false
      → env.resolve_symbol ≡ ngx_ok
      → env.cleanup_add ≡ true
      → g.vm_inited ≡ false
      → Consistent g
      → (init env [] g ≡ ok ngx_ok g) × (vm ≢ [] → Returns (Answer vm) (init env vm g))
  unfolding init
  init-Answer vm g sig test syms mem unready c =
      let go : (env.signaller || (env.test_config || g.vm_inited)) ≡ false = ground arith in
      let found : (env.resolve_symbol == ngx_ok) ≡ true = ground arith in
      (
        rw (go, found),
        λ ne.
            let named : (length vm == 0) ≡ false = ground arith in
            rw (go, found, named, mem)
              (mono (init_vm-unready vm g c unready) λ rc g' (c', answer). answer),
      )

none-some : (v : Vm) → none ≡ some v → ⊥
none-some v e = cc

-- What the two tests of `find_vm` come to.
choice :
    (b c : Bool) (v : Vm)
    → (if b then some wasmtime else if c then some wasmedge else none) ≡ some v
    → ((b ≡ true) × (wasmtime ≡ v)) ⊎ ((c ≡ true) × (wasmedge ≡ v))
choice true c v e = inl (refl, cc)
choice false true v e = inr (refl, cc)
choice false false v e = absurd (cc)

module _ (env : Environment) where
  find_vm-Names : (name : List ℕ) (v : Vm) → find_vm env name ≡ some v → Names env name v
  unfolding find_vm
  find_vm-Names name v e =
      elim (choice (same name (bytes "wasmtime"))
        (env.have_wasmedge && same name (bytes "wasmedge")) v e) [
          | inl (first, engine) ↦
              subst (λ n. Names env n v) (sym (same-eq name (bytes "wasmtime") first))
                (subst (Names env (bytes "wasmtime")) engine wasmtime_name)
          | inr (both, engine) ↦
              let built : env.have_wasmedge ≡ true = ground arith in
              let second : same name (bytes "wasmedge") ≡ true = ground arith in
              subst (λ n. Names env n v) (sym (same-eq name (bytes "wasmedge") second))
                (subst (Names env (bytes "wasmedge")) engine (wasmedge_name built))
        ]

  Names-find_vm : (name : List ℕ) (v : Vm) → Names env name v → find_vm env name ≡ some v
  unfolding find_vm
  Names-find_vm name v wasmtime_name = refl
  Names-find_vm name v (wasmedge_name built) = rw built

  -- What the configured name leads to: its engine is selected and nginx is ready, or it is the name of
  -- none, which is an error that leaves nginx unready.
  abbrev pub Selected : List ℕ → ℕ → Globals → Type 0
  Selected vm rc g' =
      ((v : Vm) × Names env vm v
        × (rc ≡ ngx_ok)
        × (g'.vm_inited ≡ true)
        × (g'.ngx_wasm_vm ≡ some v))
      ⊎ (((v : Vm) → Names env vm v → ⊥)
          × (rc ≡ ngx_error)
          × (g'.vm_inited ≡ false)
          × (g'.ngx_wasm_vm ≡ none))

  Answer-Selected : (vm : List ℕ) (rc : ℕ) (g' : Globals) → Answer env vm rc g' → Selected vm rc g'
  Answer-Selected vm rc g' (inl (good, inited, engine, (v, found))) =
      inl (v, find_vm-Names vm v found, good, inited, engine ∙ found)
  Answer-Selected vm rc g' (inr (bad, inited, engine, unknown)) =
      inr (λ v named. none-some v (sym unknown ∙ Names-find_vm vm v named), bad, inited, engine)

  -- On the first configuration, with no engine selected yet, in a process that neither signals nor tests
  -- the configuration, where the symbols are found and there is memory: no name leaves everything as it
  -- is; "wasmtime" selects wasmtime, and "wasmedge" selects WasmEdge where it is built in, and nginx is
  -- ready; any other name is NGX_ERROR, and leaves nginx unready and without an engine.
  pub init-Selected :
      (vm : List ℕ) (g : Globals)
      → env.signaller ≡ false
      → env.test_config ≡ false
      → env.resolve_symbol ≡ ngx_ok
      → env.cleanup_add ≡ true
      → g.vm_inited ≡ false
      → Consistent g
      → ((vm ≡ []) × (init env vm g ≡ ok ngx_ok g)) ⊎ Returns (Selected vm) (init env vm g)
  init-Selected [] g sig test syms mem unready c =
      inl (refl, (init-Answer env [] g sig test syms mem unready c).0)
  init-Selected (x ∷ vm) g sig test syms mem unready c = inr (
      mono ((init-Answer env (x ∷ vm) g sig test syms mem unready c).1 λ e. ground arith)
        (Answer-Selected (x ∷ vm)))
