-- ===== src/Contexts/FreeLaws.antt =====
-- How `ngx_http_wasm_delete_plugin_ctx` and `ngx_http_wasm_cleanup` of
-- src/http/ngx_http_wasm_module.c share the work of freeing a plugin context.
use Prim.Native.String.{String}
use wasm_nginx_module.Prelude.{
  ℕ, ◌≡◌, refl, ap, ◌∙◌, inl, inr, true, false, List, [], ◌∷◌, ◌==◌, arith, Bool-cases,
}
use wasm_nginx_module.Run.{ok, Returns, returns, bind, mono}
use wasm_nginx_module.Contexts.{
  Store, World, Callback, free_plugin_ctx, is_empty, remove, free_plugin, free_done_plugin,
  destroy_pool, release_ctx, retire_ctx, call, set_ctx, set_plugin,
}
use wasm_nginx_module.Contexts.Http.{cleanup_one, free_done_ctx}

-- The call of `name` for the context with the given id, of the plugin `p`.
abbrev pub ending : ℕ → String → ℕ → Store → Callback
ending p name id s = record { plugin = p; name = name; args = id ∷ []; state = s.cur_state }

-- The calls at the end of the HTTP context `x` and then of its plugin context `c`, the latest first.
abbrev pub endings : ℕ → ℕ → Store → List Callback
endings c x s =
    let p = (s.ctx_at c).hw_plugin in
    ending p "proxy_on_delete" (s.ctx_at c).id s
    ∷ ending p "proxy_on_done" (s.ctx_at c).id s
    ∷ ending p "proxy_on_delete" (s.http_at x).id s
    ∷ ending p "proxy_on_done" (s.http_at x).id s
    ∷ s.calls

-- The store behind the two calls for the plugin context `c`.
abbrev pub ended : ℕ → Store → Store
ended c s =
    let p = (s.ctx_at c).hw_plugin in
    let hw = s.plugin_at p in
    record (set_plugin s p
      (record hw { occupied = remove c hw.occupied; free = c ∷ remove c hw.free })) {
        calls =
            ending p "proxy_on_delete" (s.ctx_at c).id s
            ∷ ending p "proxy_on_done" (s.ctx_at c).id s
            ∷ s.calls;
      }

-- The store behind the two calls for the HTTP context `x` of a plugin context.
abbrev pub http_ended : ℕ → Store → Store
http_ended x s =
    let c = (s.http_at x).hwp_ctx in
    let ctx = s.ctx_at c in
    let p = ctx.hw_plugin in
    record (set_ctx s c
      (record ctx { occupied = remove x ctx.occupied; free = x ∷ remove x ctx.free })) {
        calls =
            ending p "proxy_on_delete" (s.http_at x).id s
            ∷ ending p "proxy_on_done" (s.http_at x).id s
            ∷ s.calls;
      }

module _ (w : World) where
  free_plugin-Returns :
      (p : ℕ) (s : Store)
      → Returns
          (λ _ s'.
            (s'.calls ≡ s.calls)
            × (s'.ctx_at ≡ s.ctx_at)
            × ((s'.plugin_at p).occupied ≡ (s.plugin_at p).occupied))
          (free_plugin w p s)
  unfolding free_plugin
  free_plugin-Returns p s = elim (Bool-cases (is_empty (s.plugin_at p).occupied)) [
    | inl e ↦ rw e (returns (refl, refl, ground arith))
    | inr e ↦ rw e (returns (refl, refl, refl))
  ]

  -- The context `c` has been freed: the plugin was told of its end, it is out of use, and its pool is
  -- gone.
  pub record Freed (c : ℕ) (s s' : Store) : Type 0 where
    pub calls :
        s'.calls
        ≡ ending (s.ctx_at c).hw_plugin "proxy_on_delete" (s.ctx_at c).id s
          ∷ ending (s.ctx_at c).hw_plugin "proxy_on_done" (s.ctx_at c).id s
          ∷ s.calls
    pub unused :
        (s'.plugin_at (s.ctx_at c).hw_plugin).occupied
        ≡ remove c (s.plugin_at (s.ctx_at c).hw_plugin).occupied
    pub no_pool : (s'.ctx_at c).has_pool ≡ false

  free_done_plugin-Returns :
      (p : ℕ) (s : Store)
      → Returns
          (λ _ s'.
            (s'.calls ≡ s.calls)
            × (s'.ctx_at ≡ s.ctx_at)
            × ((s'.plugin_at p).occupied ≡ (s.plugin_at p).occupied))
          (free_done_plugin w p s)
  unfolding free_done_plugin
  free_done_plugin-Returns p s = elim (Bool-cases (s.plugin_at p).done) [
    | inl e ↦ simp e (free_plugin-Returns p s)
    | inr e ↦ simp e (returns (refl, refl, refl))
  ]

  destroy_pool-Returns :
      (c : ℕ) (s : Store)
      → Returns
          (λ _ s'.
            (s'.calls ≡ s.calls) × (s'.plugin_at ≡ s.plugin_at) × ((s'.ctx_at c).has_pool ≡ false))
          (destroy_pool w c s)
  unfolding destroy_pool
  destroy_pool-Returns c s = elim (Bool-cases (s.ctx_at c).has_pool) [
    | inl e ↦ rw (destroy_pool, e) (returns (refl, refl, ground arith))
    | inr e ↦ rw (destroy_pool, e) (returns (refl, refl, e))
  ]

  release_ctx-Freed : (c : ℕ) (s : Store) → Returns (λ _. Freed c s) (release_ctx w c s)
  unfolding release_ctx retire_ctx call
  release_ctx-Freed c s =
      let self : ((s.ctx_at c).hw_plugin == (s.ctx_at c).hw_plugin) ≡ true = ground arith in
      bind (destroy_pool-Returns c (ended c s)) λ _ s1 (calls, plugins, no_pool).
        mono (free_done_plugin-Returns (s.ctx_at c).hw_plugin s1) λ _ s2 (calls', ctxs, unused).
          record {
            calls = calls' ∙ calls;
            unused = unused ∙ ap (λ f. (f (s.ctx_at c).hw_plugin).occupied) plugins ∙ rw self refl;
            no_pool = ap (λ f. (f c).has_pool) ctxs ∙ no_pool;
          }

  free_plugin_ctx-Freed :
      (c : ℕ) (s : Store)
      → (s.ctx_at c).occupied ≡ []
      → Returns (λ _. Freed c s) (free_plugin_ctx w c s)
  unfolding free_plugin_ctx
  free_plugin_ctx-Freed c s idle = simp idle (release_ctx-Freed c s)

  pub free_plugin_ctx_busy :
      (c x : ℕ) (xs : List ℕ) (s : Store)
      → (s.ctx_at c).occupied ≡ x ∷ xs
      → free_plugin_ctx w c s ≡ ok tt s
  unfolding free_plugin_ctx
  free_plugin_ctx_busy c x xs s busy = simp busy

  free_done_ctx-Freed :
      (c : ℕ) (s : Store)
      → (s.ctx_at c).done ≡ true
      → (s.ctx_at c).occupied ≡ []
      → Returns (λ _. Freed c s) (free_done_ctx w c s)
  unfolding free_done_ctx
  free_done_ctx-Freed c s gone idle = simp gone (free_plugin_ctx-Freed c s idle)

  -- The end of the last HTTP context of a plugin context that was deleted.
  pub record Ended (x c : ℕ) (s s' : Store) : Type 0 where
    pub calls : s'.calls ≡ endings c x s
    pub unused :
        (s'.plugin_at (s.ctx_at c).hw_plugin).occupied
        ≡ remove c (s.plugin_at (s.ctx_at c).hw_plugin).occupied
    pub no_pool : (s'.ctx_at c).has_pool ≡ false

  pub cleanup_one-Ended :
      (x : ℕ) (s : Store)
      → let c = (s.http_at x).hwp_ctx in
        (s.ctx_at c).done ≡ true
        → (s.ctx_at c).occupied ≡ x ∷ []
        → Returns (λ _. Ended x c s) (cleanup_one w x s)
  unfolding cleanup_one remove
  cleanup_one-Ended x s gone last =
      let c : ℕ = (s.http_at x).hwp_ctx in
      let self : (c == c) ≡ true = ground arith in
      let same : (x == x) ≡ true = ground arith in
      mono (free_done_ctx-Freed c (http_ended x s) (rw self gone) (rw (self, last, same) refl))
        λ _ s' f. record {
          calls = f.calls ∙ rw self refl;
          unused = rw self at f.unused;
          no_pool = f.no_pool;
        }
