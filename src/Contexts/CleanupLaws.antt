-- ===== src/Contexts/CleanupLaws.antt =====
-- The loop of `ngx_http_wasm_cleanup` of src/http/ngx_http_wasm_module.c over all HTTP contexts of a
-- request.
use wasm_nginx_module.Prelude.{
  true, false, ℕ, ◌≡◌, ◌≢◌, refl, ap, subst, sym, ◌∙◌, inl, inr, List, [], ◌∷◌, ◌++◌, ◌==◌, arith,
  Bool-cases, All,
}
use mathlib.Core.List.{append_assoc}
use wasm_nginx_module.Run.{Run, ok, fault, out_of_fuel, Returns, returns, bind, mono}
use wasm_nginx_module.Contexts.{
  Store, World, Callback, PluginCtx, HttpCtx, CurState, free_plugin_ctx, delete_plugin_ctx,
  is_empty, free_plugin, free_done_plugin, destroy_pool, release_ctx, retire_ctx, call, set_ctx,
}
use wasm_nginx_module.Contexts.Http.{cleanup, cleanup_one, free_done_ctx, retire_http_ctx}
use wasm_nginx_module.Contexts.FreeLaws.{
  Ended, ending, ended, http_ended, cleanup_one-Ended, free_plugin_ctx_busy,
}

-- What a round for an HTTP context of the plugin context `c` leaves as it is: the HTTP contexts, the
-- current state, every other plugin context, and the calls made before.
pub record Round (c : ℕ) (s s' : Store) : Type 0 where
  pub http : s'.http_at ≡ s.http_at
  pub state : s'.cur_state ≡ s.cur_state
  pub ctx : (d : ℕ) → d ≢ c → s'.ctx_at d ≡ s.ctx_at d
  pub new : List Callback
  pub calls : s'.calls ≡ new ++ s.calls

Round-trans : (c : ℕ) (s s1 s2 : Store) → Round c s s1 → Round c s1 s2 → Round c s s2
Round-trans c s s1 s2 a b = record {
  http = b.http ∙ a.http;
  state = b.state ∙ a.state;
  ctx = λ d other. b.ctx d other ∙ a.ctx d other;
  new = b.new ++ a.new;
  calls = b.calls ∙ ap (λ cs. b.new ++ cs) a.calls ∙ sym (append_assoc b.new a.new s.calls);
}

-- What rounds for HTTP contexts of other plugin contexts leave as it is.
record Others (c : ℕ) (s s' : Store) : Type 0 where
  http : s'.http_at ≡ s.http_at
  state : s'.cur_state ≡ s.cur_state
  ctx : s'.ctx_at c ≡ s.ctx_at c
  new : List Callback
  calls : s'.calls ≡ new ++ s.calls

-- The four calls at the end of an HTTP context and then of its plugin context, the latest first.
abbrev pub four : PluginCtx → HttpCtx → CurState → List Callback → List Callback
four ctx http state before =
    record { plugin = ctx.hw_plugin; name = "proxy_on_delete"; args = ctx.id ∷ []; state = state }
    ∷ record { plugin = ctx.hw_plugin; name = "proxy_on_done"; args = ctx.id ∷ []; state = state }
    ∷ record {
      plugin = ctx.hw_plugin;
      name = "proxy_on_delete";
      args = http.id ∷ [];
      state = state;
    }
    ∷ record { plugin = ctx.hw_plugin; name = "proxy_on_done"; args = http.id ∷ []; state = state }
    ∷ before

-- The end of a request: among the calls for its other HTTP contexts, the HTTP context `x` and then the
-- plugin context `c` are ended, and the pool of `c` is gone.
pub record EndedAmong (x c : ℕ) (s s' : Store) : Type 0 where
  pub earlier : List Callback
  pub later : List Callback
  pub calls : s'.calls ≡ later ++ four (s.ctx_at c) (s.http_at x) s.cur_state (earlier ++ s.calls)
  pub no_pool : (s'.ctx_at c).has_pool ≡ false

-- Two things that hold of one run.
both :
    {A : Type 0} (P Q : A → Store → Type 0) (r : Run Store A)
    → Returns P r
    → Returns Q r
    → Returns (λ a s. P a s × Q a s) r
both P Q (ok a s) (returns p) (returns q) = returns (p, q)
both P Q fault p q = elim p [ ]
both P Q out_of_fuel p q = elim p [ ]

module _ (w : World) where
  free_plugin-Round : (p c : ℕ) (s : Store) → Returns (λ _. Round c s) (free_plugin w p s)
  unfolding free_plugin
  free_plugin-Round p c s = elim (Bool-cases (is_empty (s.plugin_at p).occupied)) [
    | inl e ↦ rw e (
        returns
          (record { http = refl; state = refl; ctx = λ d other. refl; new = []; calls = refl }))
    | inr e ↦ rw e (
        returns
          (record { http = refl; state = refl; ctx = λ d other. refl; new = []; calls = refl }))
  ]

  free_done_plugin-Round : (p c : ℕ) (s : Store) → Returns (λ _. Round c s) (free_done_plugin w p s)
  unfolding free_done_plugin
  free_done_plugin-Round p c s = elim (Bool-cases (s.plugin_at p).done) [
    | inl e ↦ rw e (free_plugin-Round p c s)
    | inr e ↦ rw e (
        returns
          (record { http = refl; state = refl; ctx = λ d other. refl; new = []; calls = refl }))
  ]

  destroy_pool-Round : (c : ℕ) (s : Store) → Returns (λ _. Round c s) (destroy_pool w c s)
  unfolding destroy_pool
  destroy_pool-Round c s = elim (Bool-cases (s.ctx_at c).has_pool) [
    | inl e ↦
        rw (destroy_pool, e)
          (returns (record {
            http = refl;
            state = refl;
            ctx = λ d other. ground (arith, other);
            new = [];
            calls = refl;
          }))
    | inr e ↦
        rw (destroy_pool, e)
          (returns
            (record { http = refl; state = refl; ctx = λ d other. refl; new = []; calls = refl }))
  ]

  release_ctx-Round : (c : ℕ) (s : Store) → Returns (λ _. Round c s) (release_ctx w c s)
  unfolding release_ctx retire_ctx call
  release_ctx-Round c s = bind (destroy_pool-Round c (ended c s)) λ _ s1 a.
      mono (free_done_plugin-Round (s.ctx_at c).hw_plugin c s1) λ _ s2 b.
        Round-trans c s (ended c s) s2
          (record {
            http = refl;
            state = refl;
            ctx = λ d other. refl;
            new =
                ending (s.ctx_at c).hw_plugin "proxy_on_delete" (s.ctx_at c).id s
                ∷ ending (s.ctx_at c).hw_plugin "proxy_on_done" (s.ctx_at c).id s
                ∷ [];
            calls = refl;
          })
          (Round-trans c (ended c s) s1 s2 a b)

  free_done_ctx-Round : (c : ℕ) (s : Store) → Returns (λ _. Round c s) (free_done_ctx w c s)
  unfolding free_done_ctx free_plugin_ctx
  free_done_ctx-Round c s = elim (Bool-cases (s.ctx_at c).done) [
    | inr kept ↦ rw kept (
        returns
          (record { http = refl; state = refl; ctx = λ d other. refl; new = []; calls = refl }))
    | inl gone ↦ elim (Bool-cases (is_empty (s.ctx_at c).occupied)) [
      | inl idle ↦ rw (gone, idle) (release_ctx-Round c s)
      | inr busy ↦
          rw (gone, busy)
            (returns
              (record { http = refl; state = refl; ctx = λ d other. refl; new = []; calls = refl }))
    ]
  ]

  cleanup_one-Round :
      (x : ℕ) (s : Store) → Returns (λ _. Round (s.http_at x).hwp_ctx s) (cleanup_one w x s)
  unfolding cleanup_one retire_http_ctx call
  cleanup_one-Round x s =
      let c : ℕ = (s.http_at x).hwp_ctx in
      let p : ℕ = (s.ctx_at c).hw_plugin in
      mono (free_done_ctx-Round c (http_ended x s)) λ _ s' a.
        Round-trans c s (http_ended x s) s'
          (record {
            http = refl;
            state = refl;
            ctx = λ d other. ground (arith, other);
            new =
                ending p "proxy_on_delete" (s.http_at x).id s
                ∷ ending p "proxy_on_done" (s.http_at x).id s
                ∷ [];
            calls = refl;
          })
          a

  cleanup-Others :
      (c : ℕ) (ys : List ℕ) (s : Store)
      → All (λ y. (s.http_at y).hwp_ctx ≢ c) ys
      → Returns (λ _. Others c s) (cleanup w ys s)
  unfolding cleanup
  cleanup-Others c [] s apart =
      returns (record { http = refl; state = refl; ctx = refl; new = []; calls = refl })
  cleanup-Others c (y ∷ ys) s apart = bind (cleanup_one-Round y s) λ _ s1 a.
      mono (cleanup-Others c ys s1 (rw a.http apart.1)) λ _ s2 b. record {
        http = b.http ∙ a.http;
        state = b.state ∙ a.state;
        ctx = b.ctx ∙ a.ctx c λ e. apart.0 (sym e);
        new = b.new ++ a.new;
        calls = b.calls ∙ ap (λ cs. b.new ++ cs) a.calls ∙ sym (append_assoc b.new a.new s.calls);
      }

  cleanup-EndedAmong :
      (x c : ℕ) (ys zs : List ℕ) (s : Store)
      → (s.http_at x).hwp_ctx ≡ c
      → (s.ctx_at c).done ≡ true
      → (s.ctx_at c).occupied ≡ x ∷ []
      → All (λ y. (s.http_at y).hwp_ctx ≢ c) ys
      → All (λ z. (s.http_at z).hwp_ctx ≢ c) zs
      → Returns (λ _. EndedAmong x c s) (cleanup w (ys ++ (x ∷ zs)) s)
  unfolding cleanup
  cleanup-EndedAmong x c [] zs s owner gone last before behind =
      bind
        (both _ _ (cleanup_one w x s)
          (subst (λ d. Returns (λ _. Ended w x d s) (cleanup_one w x s)) owner
            (cleanup_one-Ended w x s (rw owner gone) (rw owner last)))
          (cleanup_one-Round x s))
        λ _ s1 (ended_now, a). mono (cleanup-Others c zs s1 (rw a.http behind)) λ _ s2 b. record {
          earlier = [];
          later = b.new;
          calls = b.calls ∙ ap (λ cs. b.new ++ cs) ended_now.calls;
          no_pool = ap (λ (q : PluginCtx). q.has_pool) b.ctx ∙ ended_now.no_pool;
        }
  cleanup-EndedAmong x c (y ∷ ys) zs s owner gone last before behind =
      bind (cleanup_one-Round y s) λ _ s1 a.
        let same : s1.ctx_at c ≡ s.ctx_at c = a.ctx c λ e. before.0 (sym e) in
        mono
          (cleanup-EndedAmong x c ys zs s1 (rw a.http owner) (rw same gone) (rw same last)
            (rw a.http before.1) (rw a.http behind))
          λ _ s2 b. record {
            earlier = b.earlier ++ a.new;
            later = b.later;
            calls =
                b.calls
                ∙ ap (λ q. b.later ++ four q (s1.http_at x) s1.cur_state (b.earlier ++ s1.calls))
                    same
                ∙ ap (λ f. b.later ++ four (s.ctx_at c) (f x) s1.cur_state (b.earlier ++ s1.calls))
                    a.http
                ∙ ap (λ q. b.later ++ four (s.ctx_at c) (s.http_at x) q (b.earlier ++ s1.calls))
                    a.state
                ∙ ap (λ q. b.later ++ four (s.ctx_at c) (s.http_at x) s.cur_state q)
                    (ap (λ cs. b.earlier ++ cs) a.calls
                      ∙ sym (append_assoc b.earlier a.new s.calls));
            no_pool = b.no_pool;
          }

  -- A plugin context that is deleted while a request still uses it, `x` being its only HTTP context in
  -- use, is freed at the end of that request, wherever `x` stands among the request's HTTP contexts, if
  -- the others belong to other plugin contexts. Between the calls for those, the plugin is told of the
  -- end of the HTTP context first and of the plugin context right behind it, each by `proxy_on_done` and
  -- then `proxy_on_delete`; nothing is called at the deletion itself. Then the pool is gone.
  pub delete_plugin_ctx-cleanup :
      (x c : ℕ) (ys zs : List ℕ) (s : Store)
      → (s.http_at x).hwp_ctx ≡ c
      → (s.ctx_at c).occupied ≡ x ∷ []
      → All (λ y. (s.http_at y).hwp_ctx ≢ c) ys
      → All (λ z. (s.http_at z).hwp_ctx ≢ c) zs
      → (s1 : Store) × (delete_plugin_ctx w c s ≡ ok tt s1)
        × (s1.calls ≡ s.calls)
        × Returns (λ _. EndedAmong x c s) (cleanup w (ys ++ (x ∷ zs)) s1)
  unfolding delete_plugin_ctx
  delete_plugin_ctx-cleanup x c ys zs s owner busy before behind =
      let self : (c == c) ≡ true = ground arith in
      let m : Store = set_ctx s c (record (s.ctx_at c) { done = true }) in
      (
        m,
        free_plugin_ctx_busy w c x [] m (rw self busy),
        refl,
        mono (cleanup-EndedAmong x c ys zs m owner (rw self refl) (rw self busy) before behind)
            λ _ s' e. record {
              earlier = e.earlier;
              later = e.later;
              calls = e.calls ∙ rw self refl;
              no_pool = e.no_pool;
            },
      )
