-- ===== src/Contexts/HttpLaws.antt =====
-- `ngx_http_wasm_create_http_ctx` of src/http/ngx_http_wasm_module.c gives a new HTTP context of the
-- plugin context, with one call into the plugin at most.
use wasm_nginx_module.Prelude.{
  ℕ, suc, ◌≡◌, refl, subst, ap, ◌⊎◌, inl, inr, Bool, true, false, List, [], ◌∷◌, Option, none, some,
  ◌==◌, arith, All, Bool-cases, Option-cases,
}
use wasm_nginx_module.Run.{Returns, returns, bind}
use wasm_nginx_module.Contexts.{Store, World, Callback, count, alloc, call_for, pop_last}
use wasm_nginx_module.Contexts.Http.{take_http_ctx, announce_http_ctx, create_http_ctx}

-- `got` belongs to the plugin context `c` in `s'`, and every other HTTP context has its owner of `s`.
abbrev pub Owns : ℕ → Store → Option ℕ → Store → Type 0
Owns c s none s' = Unit
Owns c s (some x) s' =
    ((s'.http_at x).hwp_ctx ≡ c)
    × ((y : ℕ) → ((s'.http_at y).hwp_ctx ≡ (s.http_at y).hwp_ctx) ⊎ (y ≡ x))

abbrev is_given : Option ℕ → Bool
is_given none = false
is_given (some x) = true

-- The calls that a look-up makes: none, or one that announces the context, whose result tells whether
-- there is one.
abbrev pub Asked : World → List Callback → Option ℕ → List Callback → Type 0
Asked w before got after =
    (after ≡ before)
    ⊎ ((cb : Callback) × (cb.name ≡ "proxy_on_context_create")
        × (after ≡ cb ∷ before)
        × (((w.call (count before) cb).rc == 0) ≡ is_given got))

-- What making an HTTP context for the request `r` leaves as it is.
pub record Made (w : World) (c r : ℕ) (s : Store) (got : Option ℕ) (s' : Store) : Type 0 where
  pub state : s'.cur_state ≡ s.cur_state
  pub has_ctx : (s'.req_at r).has_ctx ≡ (s.req_at r).has_ctx
  pub has_array : (s'.req_at r).has_array ≡ (s.req_at r).has_array
  pub http_ctxs : (s'.req_at r).http_ctxs ≡ (s.req_at r).http_ctxs
  pub owner : Owns c s got s'
  pub calls : Asked w s.calls got s'.calls

-- The steps before the announcement make no call.
record Taken (c r : ℕ) (s : Store) (got : Option ℕ) (s' : Store) : Type 0 where
  state : s'.cur_state ≡ s.cur_state
  req : s'.req_at ≡ s.req_at
  owner : Owns c s got s'
  calls : s'.calls ≡ s.calls

-- The free contexts of `c` are its own.
abbrev pub OwnFree : ℕ → Store → Type 0
OwnFree c s = All (λ x. (s.http_at x).hwp_ctx ≡ c) (s.ctx_at c).free

pop_last-All :
    (P : ℕ → Type 0) (xs : List ℕ) (l : ℕ) (rest : List ℕ)
    → All P xs
    → pop_last xs ≡ some (l, rest)
    → P l
unfolding pop_last
pop_last-All P [] l rest all e = absurd (ground arith)
pop_last-All P (x ∷ xs) l rest all e = elim (Option-cases (pop_last xs)) [
  | inl n ↦ let same : x ≡ l = ground arith in subst P same all.0
  | inr ((k, ks), h) ↦
      let same : k ≡ l = ground arith in subst P same (pop_last-All P xs k ks all.1 h)
]

-- The call that announces the HTTP context `x`.
abbrev announcement : ℕ → ℕ → Store → Callback
announcement c x s = record {
  plugin = (s.ctx_at c).hw_plugin;
  name = "proxy_on_context_create";
  args = (s.http_at x).id ∷ (s.ctx_at c).id ∷ [];
  state = s.cur_state;
}

module _ (w : World) where
  alloc-Returns : (s : Store) → Returns (λ got s'. s' ≡ record s { next = suc s.next }) (alloc w s)
  unfolding alloc
  alloc-Returns s = elim (Bool-cases (w.alloc s.next)) [
    | inl e ↦ rw e (returns refl)
    | inr e ↦ rw e (returns refl)
  ]

  take_http_ctx-Taken :
      (c r : ℕ) (s : Store) → OwnFree c s → Returns (Taken c r s) (take_http_ctx w c s)
  unfolding take_http_ctx alloc
  take_http_ctx-Taken c r s own = elim (Option-cases (pop_last (s.ctx_at c).free)) [
    | inr ((x, rest), e) ↦
        rw (take_http_ctx, e)
          (returns (record {
            state = refl;
            req = refl;
            calls = refl;
            owner = (
              pop_last-All (λ y. (s.http_at y).hwp_ctx ≡ c) (s.ctx_at c).free x rest own e,
              λ y. inl refl,
            );
          }))
    | inl e ↦ elim (Bool-cases (w.alloc s.next)) [
      | inr short ↦
          rw (take_http_ctx, e, short)
            (returns (record { state = refl; req = refl; calls = refl; owner = tt }))
      | inl room ↦
          rw (take_http_ctx, e, room)
            (returns (record {
              state = refl;
              req = refl;
              calls = refl;
              owner = (ground arith, λ y. ground arith);
            }))
    ]
  ]

  announce_http_ctx-Made :
      (c r : ℕ) (s : Store) (got : Option ℕ) (s1 : Store)
      → Taken c r s got s1
      → Returns (Made w c r s) (announce_http_ctx w c r got s1)
  unfolding announce_http_ctx call_for
  announce_http_ctx-Made c r s none s1 m = returns (record {
    state = m.state;
    has_ctx = ap (λ f. (f r).has_ctx) m.req;
    has_array = ap (λ f. (f r).has_array) m.req;
    http_ctxs = ap (λ f. (f r).http_ctxs) m.req;
    owner = tt;
    calls = inl m.calls;
  })
  announce_http_ctx-Made c r s (some x) s1 m =
      let self : (r == r) ≡ true = ground arith in
      elim (Bool-cases ((w.call (count s1.calls) (announcement c x s1)).rc == 0)) [
        | inl e ↦
            rw (announce_http_ctx, call_for, e)
              (returns (record {
                state = m.state;
                has_ctx = rw self (ap (λ f. (f r).has_ctx) m.req);
                has_array = rw self (ap (λ f. (f r).has_array) m.req);
                http_ctxs = rw self (ap (λ f. (f r).http_ctxs) m.req);
                owner = m.owner;
                calls =
                    inr (_, refl, ap (λ cs. announcement c x s1 ∷ cs) m.calls, rw (← m.calls) e);
              }))
        | inr e ↦
            rw (announce_http_ctx, call_for, e)
              (returns (record {
                state = m.state;
                has_ctx = rw self (ap (λ f. (f r).has_ctx) m.req);
                has_array = rw self (ap (λ f. (f r).has_array) m.req);
                http_ctxs = rw self (ap (λ f. (f r).http_ctxs) m.req);
                owner = tt;
                calls =
                    inr (_, refl, ap (λ cs. announcement c x s1 ∷ cs) m.calls, rw (← m.calls) e);
              }))
      ]

  pub create_http_ctx-Made :
      (c r : ℕ) (s : Store) → OwnFree c s → Returns (Made w c r s) (create_http_ctx w c r s)
  unfolding create_http_ctx
  create_http_ctx-Made c r s own =
      bind (take_http_ctx-Taken c r s own) λ got s1 m. announce_http_ctx-Made c r s got s1 m
