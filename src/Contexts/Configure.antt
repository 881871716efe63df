-- ===== src/Contexts/Configure.antt =====
-- `ngx_http_wasm_on_configure` of src/http/ngx_http_wasm_module.c: a plugin context is taken from the
-- free queue or made, announced to the plugin, and configured.
use wasm_nginx_module.Prelude.{
  ℕ, Bool, true, false, not, ◌||◌, List, [], ◌∷◌, Option, none, some, length, ◌==◌, if◌then◌else◌,
}
use wasm_nginx_module.Words.{add32, is_neg32}
use wasm_nginx_module.Run.{M, ok, pure, ◌>>=◌, ◌>>◌}
use wasm_nginx_module.Contexts.{
  Store, World, plugin_state, ctx_state, call, alloc, set_state, clear_state, set_plugin, set_ctx,
  pop_last, delete_plugin_ctx,
}

-- `rc <= 0`.
abbrev pub not_positive : ℕ → Bool
not_positive rc = rc == 0 || is_neg32 rc

module _ (w : World) where
  -- A context out of the free queue, or a new one with the next id; `none` if memory is short.
  unfoldable pub take_ctx : ℕ → M Store (Option ℕ)
  unfolding pop_last alloc
  take_ctx p s =
      let hw = s.plugin_at p in
      elim (pop_last hw.free) [
        | some (c, rest) ↦ ok (some c) (
            set_ctx (set_plugin s p (record hw { free = rest })) c
              (record (s.ctx_at c) { done = false }))
        | none ↦
            (do
              got ← alloc w
              elim got [
                | none ↦ pure none
                | some c ↦ λ s'.
                    let id = add32 hw.cur_ctx_id 1 in
                    ok (some c) (
                      set_ctx (set_plugin s' p (record hw { cur_ctx_id = id })) c (record {
                        id = id;
                        hw_plugin = p;
                        has_pool = false;
                        occupied = [];
                        free = [];
                        done = false;
                        conf = [];
                        req = none;
                        body = [];
                      }))
              ])
              s
      ]

  unfoldable pub push_free : ℕ → ℕ → M Store (Unit {0})
  push_free p c s =
      let hw = s.plugin_at p in ok tt (set_plugin s p (record hw { free = c ∷ hw.free }))

  unfoldable pub push_occupied : ℕ → ℕ → M Store (Unit {0})
  push_occupied p c s =
      let hw = s.plugin_at p in ok tt (set_plugin s p (record hw { occupied = c ∷ hw.occupied }))

  -- The pool of the context and the state in it, whose body nothing sets; `false` if memory is short.
  unfoldable pub make_state : ℕ → List ℕ → M Store Bool
  unfolding alloc
  make_state c conf = do
    pool ← alloc w
    elim pool [
      | none ↦ pure false
      | some _ ↦ do
        (λ s. ok tt (set_ctx s c (record (s.ctx_at c) { has_pool = true })))
        state ← alloc w
        elim state [
          | none ↦ pure false
          | some _ ↦ λ s. ok true (
              set_ctx s c (record (s.ctx_at c) { conf = conf; req = none; body = w.uninitialised }))
        ]
    ]

  -- Behind the announcement: the state, and `proxy_on_configure`. A failure deletes the context.
  unfoldable pub configure_ctx : ℕ → ℕ → List ℕ → M Store (Option ℕ)
  unfolding make_state set_state call clear_state delete_plugin_ctx
  configure_ctx p c conf = do
    made ← make_state c conf
    if not made then (do delete_plugin_ctx w c; pure none) else do
      set_state w (ctx_state c)
      rc ← (λ s. call w p "proxy_on_configure" ((s.ctx_at c).id ∷ length conf ∷ []) s)
      clear_state w
      if not_positive rc then (do delete_plugin_ctx w c; pure none) else pure (some c)

  -- From the announcement on. A context that the plugin refuses is kept for the next time.
  unfoldable pub announce_ctx : ℕ → ℕ → List ℕ → M Store (Option ℕ)
  unfolding set_state call push_free push_occupied configure_ctx
  announce_ctx p c conf = do
    set_state w (plugin_state p)
    rc ← (λ s. call w p "proxy_on_context_create" ((s.ctx_at c).id ∷ 0 ∷ []) s)
    if rc == 0 then (do push_occupied p c; configure_ctx p c conf) else do push_free p c; pure none

  -- `ngx_http_wasm_on_configure`; `none` is NULL.
  unfoldable pub on_configure : ℕ → List ℕ → M Store (Option ℕ)
  unfolding take_ctx announce_ctx
  on_configure p conf s =
      if s.vm_inited
      then (do got ← take_ctx p; elim got [ none ↦ pure none | some c ↦ announce_ctx p c conf ]) s
      else ok none s
