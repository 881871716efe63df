-- ===== src/Call/Count.antt =====
-- How many headers `ngx_http_wasm_call_get` of src/http/ngx_http_wasm_call.c gives, on whatever bytes a
-- plugin has put into its map.
use wasm_nginx_module.Prelude.{
  ℕ, zero, suc, ◌+◌, ◌-◌, ◌≤◌, ◌<◌, ◌≡◌, ◌≢◌, ◌∙◌, refl, inl, inr, List, [], ◌∷◌, none, some, arith,
  length, Bool-cases, Option-cases, ◌==◌, length-append,
}
use wasm_nginx_module.Words.{u32, add32, add64, add32_small}
use wasm_nginx_module.Run.{Run, M, ok, fault, out_of_fuel, and_then, ◌>>=◌, IfOk, Ends}
use wasm_nginx_module.Memory.{Memory, fits, load32}
use wasm_nginx_module.Map.{Iter, Entry, Next, done, entry, init_iter, next}
use wasm_nginx_module.Map.Layout.{Header}
use wasm_nginx_module.Map.Walk.{entry_texts}
use wasm_nginx_module.Host.{Nginx, Host, Callout}
use wasm_nginx_module.SetHeader.Laws.{IsBytes}
use wasm_nginx_module.Pseudo.{
  Pseudo, path, method, scheme, authority, status, starts_with_colon, find_pseudo,
}
use wasm_nginx_module.Call.{
  CallOut, on_map, call_get, call_loop, call_table, take_header, set_pseudo, push_header,
  max_headers_count, count_headers,
}
use wasm_nginx_module.Call.Loop.{init_iter-IfOk, call_get-Ends}

-- What follows a call of `proxy_wasm_map_next`, where it returns.
next-IfOk :
    {B : Type 0} (P : B → Memory → Type 0) (it : Iter) (m : Memory) (k : Next → M Memory B)
    → (it.idx ≡ it.len → IfOk P (k done m))
    → (it.idx ≢ it.len
        → (e : Entry) (it' : Iter) → it'.idx ≡ add32 it.idx 1
        → it'.len ≡ it.len
        → IfOk P (k (entry e it') m))
    → IfOk P (and_then (next it m) k)
unfolding next load32
next-IfOk P it m k last more = elim (Bool-cases (it.idx == it.len)) [
  | inl e ↦ rw (e, IfOk) (last (ground arith))
  | inr e ↦ elim (Bool-cases (fits m it.size_ptr 4)) [
    | inr f ↦ rw (e, f, IfOk) tt
    | inl f ↦ elim (Bool-cases (fits m (add64 it.size_ptr 4) 4)) [
      | inr g ↦ rw (e, f, g, IfOk) tt
      | inl g ↦ rw (e, f, g, IfOk) (more (ground arith) _ _ refl refl)
    ]
  ]
]

length-push_header :
    (o : CallOut) (k v : List ℕ) → length (push_header o k v).headers ≤ length o.headers + 1
length-push_header o k v =
    omega (arith, length-append o.headers (record { key = k; value = v } ∷ []))

module _ (ng : Nginx) where
  set_pseudo-length :
      (ty : Pseudo) (h : Header) (o : CallOut)
      → length (set_pseudo ty h o).headers ≤ length o.headers + 1
  unfolding set_pseudo
  set_pseudo-length path h o = omega arith
  set_pseudo-length method h o = omega arith
  set_pseudo-length scheme h o = omega arith
  set_pseudo-length authority h o = length-push_header o _ _
  set_pseudo-length status h o = length-push_header o _ _

  take_header-length :
      (h : Header) (o : CallOut) → length (take_header ng h o).headers ≤ length o.headers + 1
  unfolding take_header
  take_header-length h o = elim (Bool-cases (starts_with_colon h.key)) [
    | inr plain ↦ rw plain (length-push_header o _ _)
    | inl colon ↦ elim (Option-cases (find_pseudo ng call_table h.key)) [
      | inl other ↦ rw (colon, other) (length-push_header o _ _)
      | inr (ty, found) ↦ rw (colon, found) (set_pseudo-length ty h o)
    ]
  ]

  -- A round gives one header at most.
  call_loop-length :
      (k : ℕ) (it : Iter) (o : CallOut) (m : Memory) (n : ℕ)
      → it.idx ≤ it.len
      → it.len < u32
      → length o.headers + (it.len - it.idx) ≤ n
      → IfOk (λ o' m'. length o'.headers ≤ n) (call_loop ng k it o m)
  unfolding call_loop
  call_loop-length zero it o m n le word room = tt
  call_loop-length (suc k) it o m n le word room =
      next-IfOk _ it m _ (λ e. omega arith)
        λ ne e it' up same.
          let up' : it'.idx ≡ it.idx + 1 = up ∙ add32_small it.idx 1 (omega arith) in
          elim (Bool-cases (e.key_len == 0)) [
            | inl z ↦ rw z (call_loop-length k it' o m n (omega arith) (omega arith) (omega arith))
            | inr full ↦ rw full (
                after_texts (entry_texts e m) _ λ h m2.
                  let one = take_header-length h o in
                  call_loop-length k it' (take_header ng h o) m2 n (omega arith) (omega arith)
                    (omega arith))
          ]
    where
      after_texts :
          (r : Run Memory Header) (f : Header → M Memory CallOut)
          → ((h : Header) (m : Memory) → IfOk (λ o' m'. length o'.headers ≤ n) (f h m))
          → IfOk (λ o' m'. length o'.headers ≤ n) (and_then r f)
      after_texts (ok h m) f next = next h m
      after_texts fault f next = tt
      after_texts out_of_fuel f next = tt

  -- The caller makes room for as many headers as `ngx_http_wasm_call_max_headers_count` says: whatever
  -- bytes the plugin has put into the map of the call, and whatever number it announces there, where that
  -- function returns a count, `ngx_http_wasm_call_get` comes to an end, and gives no more headers than
  -- that, the count taken without sign.
  pub call_get-max_headers_count :
      (h h' : Host) (n : ℕ) (old : CallOut)
      → ((c : Callout) (m : Memory) → h.ctx.callout ≡ some c → c.map_data ≡ some m → IsBytes m)
      → max_headers_count h ≡ ok n h'
      → Ends (call_get ng old h)
        × IfOk (λ (o : CallOut) (h2 : Host). length o.headers ≤ n) (call_get ng old h)
  unfolding call_get max_headers_count count_headers on_map
  call_get-max_headers_count h h' n old bytes count = (
    call_get-Ends ng h old bytes,
    elim (Option-cases h.ctx.callout) [
      | inl e ↦ rw (e, IfOk) tt
      | inr (c, e) ↦ elim (Option-cases c.map_data) [
        | inl f ↦ rw (e, f, IfOk) tt
        | inr (m, f) ↦
            rw (e, f)
              (counted c m (init_iter 0 m) _ _ (init_iter-IfOk ng 0 m (bytes c m e f))
                (rw (e, f) at count))
      ]
    ],
  )
    where
      gave :
          (c : Callout) (g : Host) (q : Run Memory CallOut)
          → IfOk (λ (o : CallOut) (m : Memory). length o.headers ≤ n) q
          → IfOk
              (λ (o : CallOut) (h2 : Host). length o.headers ≤ n)
              (and_then
                (elim q [ ok o m ↦ ok o g | fault ↦ fault | out_of_fuel ↦ out_of_fuel ])
                λ (o : CallOut). ok (record o { body = elim c.body [ none ↦ [] | some b ↦ b ] }))
      gave c g (ok o m) p = p
      gave c g fault p = tt
      gave c g out_of_fuel p = tt

      counted :
          (c : Callout) (m : Memory) (r : Run Memory Iter) (g0 g : Host)
          → IfOk (λ (it : Iter) (m' : Memory). (it.idx ≡ 0) × (it.len < u32)) r
          → and_then
              (elim r [ ok it m' ↦ ok it g0 | fault ↦ fault | out_of_fuel ↦ out_of_fuel ])
              (λ (it : Iter). ok it.len)
            ≡ ok n h'
          → IfOk
              (λ (o : CallOut) (h2 : Host). length o.headers ≤ n)
              (and_then
                (elim r [ ok it m' ↦ ok it g | fault ↦ fault | out_of_fuel ↦ out_of_fuel ])
                λ it.
                  on_map (some m) (
                    call_loop ng
                      (suc it.len)
                      it
                      (record old { host = c.up; timeout = c.timeout_ms; headers = [] }))
                  >>= λ (o : CallOut).
                      ok (record o { body = elim c.body [ none ↦ [] | some b ↦ b ] }))
      counted c m (ok it m') g0 g (first, word) e =
          let same : it.len ≡ n = cc in
          gave c _ _ (call_loop-length (suc it.len) it _ m n (omega arith) word (omega arith))
      counted c m fault g0 g p e = tt
      counted c m out_of_fuel g0 g p e = tt
