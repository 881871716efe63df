-- ===== src/Contexts/FetchLaws.antt =====
-- `ngx_http_wasm_fetch_http_ctx` of src/http/ngx_http_wasm_module.c gives a request one HTTP context for
-- each plugin context.
use wasm_nginx_module.Prelude.{
  ℕ, suc, ◌≡◌, refl, subst, ◌∙◌, ◌⊎◌, inl, inr, Bool, true, List, [], ◌∷◌, ◌++◌, Option, none, some,
  ◌==◌, arith, All, ◌&&◌, Bool-cases, Option-cases,
}
use wasm_nginx_module.Run.{ok, Returns, returns, bind, mono}
use wasm_nginx_module.Contexts.{Store, World, ReqCtx, set_req, alloc}
use wasm_nginx_module.Contexts.Http.{
  push_ctx, get_module_ctx, get_array, find_ctx, find_or_create, fetch_http_ctx,
}
use wasm_nginx_module.Contexts.HttpLaws.{Owns, Made, OwnFree, Asked, create_http_ctx-Made}

-- The request's context with `x` behind its HTTP contexts.
abbrev pushed : Store → ℕ → ℕ → ReqCtx
pushed s r x = let q = s.req_at r in record q { http_ctxs = q.http_ctxs ++ (x ∷ []) }

module _ (w : World) where
  find_ctx-push :
      (c x : ℕ) (s s' : Store) (xs : List ℕ)
      → find_ctx w s c xs ≡ none
      → Owns c s (some x) s'
      → find_ctx w s' c (xs ++ (x ∷ [])) ≡ some x
  unfolding find_ctx
  find_ctx-push c x s s' [] e own = ground (arith, own.0)
  find_ctx-push c x s s' (y ∷ ys) e own = elim (own.1 y) [
    | inl same ↦ ground (arith, same, find_ctx-push c x s s' ys)
    | inr eq ↦ ground (arith, eq, own.0)
  ]

  find_ctx-more :
      (c x : ℕ) (s t : Store) (xs ys : List ℕ)
      → find_ctx w s c xs ≡ some x
      → All (λ y. (t.http_at y).hwp_ctx ≡ (s.http_at y).hwp_ctx) xs
      → find_ctx w t c (xs ++ ys) ≡ some x
  unfolding find_ctx
  find_ctx-more c x s t [] ys e same = absurd (cc)
  find_ctx-more c x s t (y ∷ xs) ys e same = elim (Bool-cases ((s.http_at y).hwp_ctx == c)) [
    | inl hit ↦ let here : y ≡ x = ground arith in rw (same.0, hit, here)
    | inr other ↦ rw (same.0, other) (find_ctx-more c x s t xs ys (rw other at e) same.1)
  ]

  -- The request has its context and its array, and the plugin context `c` has an HTTP context among the
  -- request's, `x`.
  record Found (c r x : ℕ) (s : Store) : Type 0 where
    has_ctx : (s.req_at r).has_ctx ≡ true
    has_array : (s.req_at r).has_array ≡ true
    found : find_ctx w s c (s.req_at r).http_ctxs ≡ some x

  abbrev FoundOr : ℕ → ℕ → Option ℕ → Store → Type 0
  FoundOr c r none s = Unit
  FoundOr c r (some x) s = Found c r x s

  -- What a look-up in `s` leaves: the current state, at most one call, and a context that a later one
  -- finds, or none.
  record Fetched (c r : ℕ) (s : Store) (got : Option ℕ) (s' : Store) : Type 0 where
    state : s'.cur_state ≡ s.cur_state
    calls : Asked w s.calls got s'.calls
    found : FoundOr c r got s'

  push_ctx-Fetched :
      (c r : ℕ) (s : Store) (got : Option ℕ) (s1 : Store)
      → ((n : ℕ) → w.array_push n ≡ true)
      → (s.req_at r).has_ctx ≡ true
      → (s.req_at r).has_array ≡ true
      → find_ctx w s c (s.req_at r).http_ctxs ≡ none
      → Made w c r s got s1
      → Returns (Fetched c r s) (push_ctx w r got s1)
  unfolding push_ctx find_ctx
  push_ctx-Fetched c r s none s1 room a b e m =
      returns (record { state = m.state; calls = m.calls; found = tt })
  push_ctx-Fetched c r s (some x) s1 room a b e m =
      let self : (r == r) ≡ true = ground arith in
      rw (room s1.next) (
        returns (record {
          state = m.state;
          calls = m.calls;
          found = record {
            has_ctx = rw self (m.has_ctx ∙ a);
            has_array = rw self (m.has_array ∙ b);
            found =
                rw (self, m.http_ctxs)
                  (find_ctx-push c x s (set_req s1 r (pushed s1 r x)) (s.req_at r).http_ctxs e
                    m.owner);
          };
        }))

  find_or_create-Fetched :
      (c r : ℕ) (s : Store)
      → OwnFree c s
      → ((n : ℕ) → w.array_push n ≡ true)
      → (s.req_at r).has_ctx ≡ true
      → (s.req_at r).has_array ≡ true
      → Returns (Fetched c r s) (find_or_create w c r s)
  unfolding find_or_create
  find_or_create-Fetched c r s own room a b =
      elim (Option-cases (find_ctx w s c (s.req_at r).http_ctxs)) [
        | inr (x, e) ↦
            rw (find_or_create, e)
              (returns (record {
                state = refl;
                calls = inl refl;
                found = record { has_ctx = a; has_array = b; found = e };
              }))
        | inl e ↦
            rw (find_or_create, e)
              (bind (create_http_ctx-Made w c r s own)
                λ got s1 m. push_ctx-Fetched c r s got s1 room a b e m)
      ]

  -- What the two steps before leave: the request has a member, or the step failed.
  record Ready (s : Store) (done : Bool) (s' : Store) (has : ReqCtx → Bool) (r : ℕ) : Type 0 where
    state : s'.cur_state ≡ s.cur_state
    http : s'.http_at ≡ s.http_at
    ctx : s'.ctx_at ≡ s.ctx_at
    calls : s'.calls ≡ s.calls
    ready : done ≡ true → has (s'.req_at r) ≡ true

  get_module_ctx-Ready :
      (r : ℕ) (s : Store) → Returns (λ b s'. Ready s b s' (λ q. q.has_ctx) r) (get_module_ctx w r s)
  unfolding get_module_ctx alloc
  get_module_ctx-Ready r s = elim (Bool-cases (s.req_at r).has_ctx) [
    | inl e ↦
        rw e
          (returns (record { state = refl; http = refl; ctx = refl; calls = refl; ready = λ _. e }))
    | inr e ↦ elim (Bool-cases (w.alloc s.next)) [
      | inr short ↦
          rw (e, short)
            (returns (record {
              state = refl;
              http = refl;
              ctx = refl;
              calls = refl;
              ready = λ q. ground arith;
            }))
      | inl room ↦ elim (Bool-cases (w.alloc (suc s.next))) [
        | inr short ↦
            rw (e, room, short)
              (returns (record {
                state = refl;
                http = refl;
                ctx = refl;
                calls = refl;
                ready = λ q. ground arith;
              }))
        | inl more ↦
            rw (e, room, more)
              (returns (record {
                state = refl;
                http = refl;
                ctx = refl;
                calls = refl;
                ready = λ q. ground arith;
              }))
      ]
    ]
  ]

  get_array-Ready :
      (r : ℕ) (s : Store)
      → (s.req_at r).has_ctx ≡ true
      → Returns (λ b s'. Ready s b s' (λ q. q.has_ctx && q.has_array) r) (get_array w r s)
  unfolding get_array alloc
  get_array-Ready r s has = elim (Bool-cases (s.req_at r).has_array) [
    | inl e ↦ rw e (
        returns (record {
          state = refl;
          http = refl;
          ctx = refl;
          calls = refl;
          ready = λ _. rw (has, e);
        }))
    | inr e ↦ elim (Bool-cases (w.alloc s.next)) [
      | inr short ↦
          rw (e, short)
            (returns (record {
              state = refl;
              http = refl;
              ctx = refl;
              calls = refl;
              ready = λ q. ground arith;
            }))
      | inl room ↦
          rw (e, room)
            (returns (record {
              state = refl;
              http = refl;
              ctx = refl;
              calls = refl;
              ready = λ q. ground (arith, has);
            }))
    ]
  ]

  -- A store in which the request `r` still has what it has in `s`: its context, its array, and its HTTP
  -- contexts with their owners, and perhaps more of them behind.
  pub record Later (r : ℕ) (s t : Store) : Type 0 where
    pub has_ctx : (t.req_at r).has_ctx ≡ (s.req_at r).has_ctx
    pub has_array : (t.req_at r).has_array ≡ (s.req_at r).has_array
    pub others : List ℕ
    pub http_ctxs : (t.req_at r).http_ctxs ≡ (s.req_at r).http_ctxs ++ others
    pub owners : All (λ x. (t.http_at x).hwp_ctx ≡ (s.http_at x).hwp_ctx) (s.req_at r).http_ctxs

  Found-again :
      (c r x : ℕ) (s t : Store)
      → Found c r x s
      → Later r s t
      → fetch_http_ctx w c r t ≡ ok (some x) t
  unfolding fetch_http_ctx get_module_ctx get_array find_or_create
  Found-again c r x s t f l = rw (
    fetch_http_ctx,
    get_module_ctx,
    l.has_ctx,
    f.has_ctx,
    get_array,
    l.has_array,
    f.has_array,
    find_or_create,
    l.http_ctxs,
    find_ctx-more c x s t (s.req_at r).http_ctxs l.others f.found l.owners,
  )

  FoundOr-again :
      (c r : ℕ) (got : Option ℕ) (s : Store)
      → FoundOr c r got s
      → (got ≡ none) ⊎ ((t : Store) → Later r s t → fetch_http_ctx w c r t ≡ ok got t)
  FoundOr-again c r none s f = inl refl
  FoundOr-again c r (some x) s f = inr λ t l. Found-again c r x s t f l

  -- Where `ngx_array_push` finds room, fetching the HTTP context of a plugin context whose free contexts
  -- are its own returns, leaves the current state alone, and makes no call into the plugin but one that
  -- announces a new context. Unless it gives none, for want of memory or because the plugin refused the
  -- context, every later fetch gives the same one again, and changes nothing: in any store in which the
  -- request has the HTTP contexts that it has then, with the same owners, and perhaps more behind them.
  pub fetch_http_ctx-again :
      (c r : ℕ) (s : Store)
      → OwnFree c s
      → ((n : ℕ) → w.array_push n ≡ true)
      → Returns
          (λ got s'.
            (s'.cur_state ≡ s.cur_state)
            × Asked w s.calls got s'.calls
            × ((got ≡ none) ⊎ ((t : Store) → Later r s' t → fetch_http_ctx w c r t ≡ ok got t)))
          (fetch_http_ctx w c r s)
  unfolding fetch_http_ctx
  fetch_http_ctx-again c r s own room = bind (get_module_ctx-Ready r s) λ a s1 q.
      elim (Bool-cases a) [
        | inr e ↦ rw e (returns (q.state, inl q.calls, inl refl))
        | inl e ↦ rw e (
            bind (get_array-Ready r s1 (q.ready e)) λ b s2 p. elim (Bool-cases b) [
              | inr e ↦ rw e (returns (p.state ∙ q.state, inl (p.calls ∙ q.calls), inl refl))
              | inl e' ↦ rw e' (
                  mono
                    (find_or_create-Fetched c r s2 (rw (p.http, q.http, p.ctx, q.ctx) own) room
                      (ground (arith, p.ready e')) (ground (arith, p.ready e')))
                    λ got s3 f. (
                      f.state ∙ p.state ∙ q.state,
                      subst (λ cs. Asked w cs got s3.calls) (p.calls ∙ q.calls) f.calls,
                      FoundOr-again c r got s3 f.found,
                    ))
            ])
      ]
