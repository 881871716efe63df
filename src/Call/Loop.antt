-- ===== src/Call/Loop.antt =====
-- The loop of `ngx_http_wasm_call_get` of src/http/ngx_http_wasm_call.c: it ends on any bytes that a
-- plugin may have put into its map, and on a well-formed map it sorts the entries.
use wasm_nginx_module.Prelude.{
  ℕ, zero, suc, ◌+◌, ◌-◌, ◌*◌, ◌≤◌, refl, ◌<◌, ◌≡◌, ◌∙◌, inl, inr, Option, none, some, List, [],
  ◌∷◌, arith, length, Bool-cases, Option-cases, ◌==◌, if◌then◌else◌,
}
use wasm_nginx_module.Words.{u32, half32, add32_small, of_le32}
use wasm_nginx_module.Run.{Run, M, ok, fault, out_of_fuel, and_then, IfOk, Ends, Ends-and_then}
use wasm_nginx_module.Memory.{Memory, fits, word, load32}
use wasm_nginx_module.Map.{Iter, init_iter}
use wasm_nginx_module.Map.Layout.{Header, Holds, text_size}
use wasm_nginx_module.Map.Walk.{
  next-Ends, init_iter-Ends, entry_texts, entry_texts-Ends, next-entry, next-done, stepped,
  entry_texts-ok,
}
use wasm_nginx_module.Host.{Nginx, Host, Callout}
use wasm_nginx_module.SetHeader.Laws.{IsBytes}
use wasm_nginx_module.Call.{CallOut, on_map, call_get, call_loop, take_header}

Ends-IfOk : {A : Type 0} (r : Run Memory A) → Ends r → IfOk (λ a m. Unit {0}) r
Ends-IfOk (ok a m) t = tt
Ends-IfOk fault t = tt
Ends-IfOk out_of_fuel t = tt

module _ (ng : Nginx) where
  -- As many rounds as the count has entries left, and one, are enough, whatever the memory holds.
  pub call_loop-Ends :
      (k : ℕ) (it : Iter) (o : CallOut) (m : Memory)
      → it.idx ≤ it.len
      → it.len < u32
      → it.len - it.idx < k
      → Ends (call_loop ng k it o m)
  unfolding call_loop
  call_loop-Ends zero it o m le word fuel = elim fuel [ ]
  call_loop-Ends (suc k) it o m le word fuel =
      next-Ends it m _ (λ e. tt)
        λ ne e it' m' up same.
          let up' : it'.idx ≡ it.idx + 1 = up ∙ add32_small it.idx 1 (omega arith) in
          elim (Bool-cases (e.key_len == 0)) [
            | inl z ↦ rw z (call_loop-Ends k it' o m' (omega arith) (omega arith) (omega arith))
            | inr n ↦ rw n (
                Ends-and_then (entry_texts e m') _ (entry_texts-Ends e m') λ h m2.
                  call_loop-Ends k it' (take_header ng h o) m2 (omega arith) (omega arith)
                    (omega arith))
          ]

  -- What the loop makes of the headers of a map.
  unfoldable pub take_headers : List Header → CallOut → CallOut
  take_headers [] o = o
  take_headers (h ∷ hs) o = take_headers hs (if length h.key == 0 then o else take_header ng h o)

  pub call_loop-take_headers :
      (k : ℕ) (it : Iter) (hs : List Header) (o : CallOut) (m : Memory)
      → length hs < k
      → it.idx + length hs ≡ it.len
      → it.len < u32
      → Holds m it.size_ptr it.data_ptr hs
      → it.size_ptr + 8 * length hs ≤ m.size
      → it.data_ptr + text_size hs ≤ m.size
      → text_size hs < half32
      → m.size ≤ u32
      → call_loop ng k it o m ≡ ok (take_headers hs o) m
  unfolding call_loop take_headers
  call_loop-take_headers zero it hs o m fuel e count holds a b short small = elim fuel [ ]
  call_loop-take_headers (suc k) it [] o m fuel e count holds a b short small =
      rw (next-done it m (omega arith))
  call_loop-take_headers (suc k) it (h ∷ hs) o m fuel e count holds a b short small =
      let rest = λ (o' : CallOut).
        call_loop-take_headers k (stepped it h) hs o' m (omega arith) (omega arith) count holds.1
          (omega arith) (omega arith) (omega arith) small in
      rw
        (next-entry it h m (omega arith) count holds.0 (omega arith) (omega arith) (omega arith)
          small)
        (elim (Bool-cases (length h.key == 0)) [
          | inl z ↦ rw z (rest o)
          | inr n ↦
              rw (n, entry_texts-ok it.size_ptr it.data_ptr h m holds.0 (omega arith))
                (rest (take_header ng h o))
        ])

  -- What `proxy_wasm_map_init_iter` gives on bytes: the count is a 32-bit word.
  pub init_iter-IfOk :
      (p : ℕ) (m : Memory)
      → IsBytes m
      → IfOk (λ it m'. (it.idx ≡ 0) × (it.len < u32)) (init_iter p m)
  unfolding init_iter load32 word of_le32
  init_iter-IfOk p m bytes =
      let b0 = bytes p in
      let b1 = bytes (p + 1) in
      let b2 = bytes (p + 2) in
      let b3 = bytes (p + 3) in
      elim (Bool-cases (fits m p 4)) [
        | inl e ↦ rw (e, IfOk) (refl, omega arith)
        | inr e ↦ rw (e, IfOk) tt
      ]

  -- A read of the map of a callout, and what follows it.
  on_map-Ends :
      {A B : Type 0} (map_data : Option Memory) (f : M Memory A) (P : A → Type 0) (k : A → M Host B)
      (h : Host)
      → ((m : Memory) → map_data ≡ some m → IfOk (λ a m'. P a) (f m) × Ends (f m))
      → ((a : A) → P a → Ends (k a h))
      → Ends (and_then (on_map map_data f h) k)
  unfolding on_map
  on_map-Ends none f P k h reads next = tt
  on_map-Ends {A = A} (some m) f P k h reads next =
      let (meets, ends) = reads m refl in after (f m) meets ends
    where
      after :
          (r : Run Memory A)
          → IfOk (λ a m'. P a) r
          → Ends r
          → Ends
              (and_then (elim r [ ok a m' ↦ ok a h | fault ↦ fault | out_of_fuel ↦ out_of_fuel ]) k)
      after (ok a m') p t = next a p
      after fault p t = tt
      after out_of_fuel p t = t

  -- `ngx_http_wasm_call_get` comes to an end on whatever bytes the plugin has put into its map.
  pub call_get-Ends :
      (h : Host) (old : CallOut)
      → ((c : Callout) (m : Memory) → h.ctx.callout ≡ some c → c.map_data ≡ some m → IsBytes m)
      → Ends (call_get ng old h)
  unfolding call_get
  call_get-Ends h old bytes = elim (Option-cases h.ctx.callout) [
    | inl e ↦ rw e tt
    | inr (c, e) ↦
        let h' : Host = record h { ctx = record (h.ctx) { callout = none } } in
        let begun : CallOut = record old { host = c.up; timeout = c.timeout_ms; headers = [] } in
        rw e (
          on_map-Ends c.map_data (init_iter 0) (λ it. (it.idx ≡ 0) × (it.len < u32)) _ h'
            (λ m given. (init_iter-IfOk 0 m (bytes c m e given), init_iter-Ends 0 m))
            λ it (first, count).
              on_map-Ends c.map_data (call_loop ng (suc it.len) it begun) (λ o. Unit {0}) _ h'
                (λ m given.
                  let ends =
                    call_loop-Ends (suc it.len) it begun m (omega arith) count (omega arith) in
                  (Ends-IfOk _ ends, ends))
                λ o u. tt)
  ]
