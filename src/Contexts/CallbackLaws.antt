-- ===== src/Contexts/CallbackLaws.antt =====
-- The callbacks `ngx_http_wasm_on_http` of src/http/ngx_http_wasm_module.c, whatever the plugin answers.
use Prim.Native.String.{String}
use wasm_nginx_module.Prelude.{
  ℕ, ◌≡◌, refl, ◌∙◌, ◌⊎◌, inl, inr, true, List, [], ◌∷◌, Option, none, some, ◌==◌, arith,
  Bool-cases,
}
use wasm_nginx_module.Words.{is_neg32, slt32}
use wasm_nginx_module.Run.{Returns, returns, bind, mono}
use wasm_nginx_module.Contexts.{
  Store, World, set_ctx, Callback, no_state, ctx_state, call_for, clear_state,
}
use wasm_nginx_module.Contexts.Http.{
  Phase, enter, handle_rc, http_callback, run_http, on_http, declined, cb_name,
}
use wasm_nginx_module.Contexts.HttpLaws.{OwnFree, Asked}
use wasm_nginx_module.Contexts.FetchLaws.{fetch_http_ctx-again}

-- The store behind `enter`.
abbrev entered : ℕ → ℕ → Option (List ℕ) → Store → Store
entered c r body s =
    let ctx = s.ctx_at c in
    record (set_ctx s c
      (record ctx { req = some r; body = elim body [ none ↦ ctx.body | some b ↦ b ] })) {
        cur_state = ctx_state c;
      }

module _ (w : World) where
  -- Behind a callback of `ngx_http_wasm_on_http`, where `before` are the calls made before it: no state
  -- is current, the plugin context holds no body, and either there was no HTTP context, and nothing was
  -- called but perhaps the announcement of a context that the plugin refused; or there was one, and the
  -- latest call is that of the phase, made in the state of the plugin context, behind nothing but
  -- perhaps the announcement, and no status waits to be sent.
  pub record Left (c : ℕ) (type : Phase) (before : List Callback) (rc : ℕ) (s : Store)
      : Type 0 where
    pub state : s.cur_state ≡ no_state
    pub body : (s.ctx_at c).body ≡ []
    pub outcome :
        ((rc ≡ declined) × Asked w before none s.calls)
        ⊎ ((x : ℕ) × (cb : Callback) × (rest : List Callback) × (s.calls ≡ cb ∷ rest)
            × Asked w before (some x) rest
            × (cb.name ≡ cb_name w type)
            × (cb.state ≡ ctx_state c)
            × (s.code ≡ 0))

  handle_rc-Returns :
      (r rc : ℕ) (s : Store) → Returns (λ _ s'. s' ≡ record s { code = 0 }) (handle_rc w r rc s)
  unfolding handle_rc
  handle_rc-Returns r rc s = elim (Bool-cases (s.req_at r).callout) [
    | inl e ↦ rw e (returns refl)
    | inr e ↦ elim (Bool-cases (is_neg32 rc)) [
      | inl neg ↦ rw (e, neg) (returns refl)
      | inr pos ↦ elim (Bool-cases (slt32 s.code 100)) [
        | inl low ↦ rw (e, pos, low) (returns refl)
        | inr status ↦ rw (e, pos, status) (returns refl)
      ]
    ]
  ]

  call_for-Returns :
      (r p : ℕ) (name : String) (args : List ℕ) (s : Store)
      → Returns
          (λ _ s'.
            (s'.cur_state ≡ s.cur_state)
            × (s'.calls
                ≡ record { plugin = p; name = name; args = args; state = s.cur_state } ∷ s.calls))
          (call_for w r p name args s)
  unfolding call_for
  call_for-Returns r p name args s = returns (refl, refl)

  clear_state-Returns :
      (c : ℕ) (s : Store)
      → s.cur_state ≡ ctx_state c
      → Returns
          (λ _ s'. (s'.cur_state ≡ no_state) × ((s'.ctx_at c).body ≡ []) × (s'.calls ≡ s.calls))
          (clear_state w s)
  unfolding clear_state
  clear_state-Returns c s e = rw (clear_state, e) (returns (refl, ground arith, refl))

  http_callback-Left :
      (c r : ℕ) (type : Phase) (size end : ℕ) (before : List Callback) (got : Option ℕ) (s : Store)
      → s.cur_state ≡ ctx_state c
      → Asked w before got s.calls
      → Returns (Left c type before) (http_callback w c r type size end got s)
  unfolding http_callback clear_state
  http_callback-Left c r type size end before none s e asked =
      rw (http_callback, clear_state, e)
        (returns (record { state = refl; body = ground arith; outcome = inl (refl, asked) }))
  http_callback-Left c r type size end before (some x) s e asked =
      bind (call_for-Returns r _ _ _ s) λ rc s1 (state, calls).
        bind (clear_state-Returns c s1 (state ∙ e)) λ _ s2 (none_left, body, kept).
          mono (handle_rc-Returns r rc s2) λ rc' s3 same. rw same (record {
            state = none_left;
            body = body;
            outcome = inr (x, _, s.calls, kept ∙ calls, asked, refl, e, refl);
          })

  run_http-Left :
      (c r : ℕ) (type : Phase) (body : Option (List ℕ)) (size end : ℕ) (s : Store)
      → OwnFree c s
      → ((n : ℕ) → w.array_push n ≡ true)
      → Returns (Left c type s.calls) (run_http w c r type body size end s)
  unfolding run_http enter
  run_http-Left c r type body size end s own room =
      let self : (c == c) ≡ true = ground arith in
      bind (fetch_http_ctx-again w c r (entered c r body s) (rw self own) room)
        λ got s1 (state, asked, again).
          http_callback-Left c r type size end s.calls got s1 state asked

  -- With a VM, where `ngx_array_push` finds room, and for a plugin context whose free contexts are its
  -- own, `ngx_http_wasm_on_http` returns whatever the plugin answers. Then no state is current and the
  -- plugin context holds no body. Either there is no HTTP context, the result is NGX_DECLINED, and
  -- nothing was called, or only `proxy_on_context_create` for a context that the plugin refused; or there
  -- is one, and the last call is that of the phase, made in the state of the plugin context, no call was
  -- made before it but perhaps the one that announced the context, and no status is left in the main
  -- configuration.
  pub on_http-Left :
      (c r : ℕ) (type : Phase) (body : Option (List ℕ)) (size end : ℕ) (s : Store)
      → s.vm_inited ≡ true
      → OwnFree c s
      → ((n : ℕ) → w.array_push n ≡ true)
      → Returns (Left c type s.calls) (on_http w c r type body size end s)
  unfolding on_http
  on_http-Left c r type body size end s inited own room =
      simp inited (run_http-Left c r type body size end s own room)
