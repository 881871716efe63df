-- ===== src/HttpCall/Laws.antt =====
-- What becomes of an HTTP call that a plugin asks for: from its memory, through `proxy_http_call` of
-- src/http/ngx_http_wasm_api.c and the functions of src/http/ngx_http_wasm_call.c, to the Lua code.
use wasm_nginx_module.Prelude.{
  ℕ, suc, ◌+◌, ◌%◌, ◌≤◌, ◌<◌, ◌≡◌, ◌∙◌, ◌⊎◌, inl, inr, refl, true, false, List, [], Option, none,
  some, arith, Bool-cases, if◌then◌else◌,
}
use wasm_nginx_module.Words.{u32, half32, is_neg32, add32, sext64_pos, le32}
use wasm_nginx_module.Run.{M, ok, fault, Returns, returns}
use wasm_nginx_module.Memory.{Memory, fits, write, read, word}
use wasm_nginx_module.Memory.Laws.{copy_out-ok, word-write, write-SameBut}
use wasm_nginx_module.Map.Layout.{Header, IsMap, map_size}
use wasm_nginx_module.Vm.{ngx_ok}
use wasm_nginx_module.Host.{Host, Nginx, Callout, ProxyResult, result_ok, on_mem, with_mem, ticked}
use wasm_nginx_module.State.{get_req, must_get_req}
use wasm_nginx_module.Copy.Laws.{Inside, must_get_memory-Inside, on_mem-store32}
use wasm_nginx_module.Pseudo.{path, method, scheme}
use wasm_nginx_module.SetHeader.{palloc}
use wasm_nginx_module.Call.{
  CallOut, call_register, call_get, max_headers_count, count_headers, on_map,
}
use wasm_nginx_module.Call.Laws.{sent_all, latest}
use wasm_nginx_module.Call.Get.{HasMap, taken, call_get-Got}
use wasm_nginx_module.HttpCall.{
  block, copy_block, copy_as_str, copy_headers, is_yieldable, positive, with_headers, with_body,
  register_call, call_upstream, http_call,
}
use wasm_nginx_module.HttpCall.Blocks.{IsMap-block}

-- The copy of the body; NULL where there is none.
abbrev pub body_of : Memory → ℕ → ℕ → Option (List ℕ)
body_of m body_data body_size =
    if positive body_size then some (read m body_data body_size) else none

-- The host with a call registered.
abbrev pub registered : Host → Callout → Host
registered h c = record h {
  ctx = record (h.ctx) { callout = some c; callout_id = h.cur_callout_id };
  cur_callout_id = add32 h.cur_callout_id 1;
}

-- The host behind a call of `proxy_http_call` that was registered.
abbrev pub behind : Host → ℕ → ℕ → Callout → Host
behind h t callout_addr c =
    registered (with_mem (ticked h t) (write h.mem callout_addr (le32 h.cur_callout_id))) c

module _ (ng : Nginx) (room : (n size : ℕ) → ng.palloc n size ≡ true) where
  copy_as_str-ok :
      (p n : ℕ) (h : Host)
      → p + n ≤ h.mem.size
      → copy_as_str ng p n h ≡ ok (some (read h.mem p n)) (ticked h (suc h.tick))
  unfolding copy_as_str palloc on_mem
  copy_as_str-ok p n h fits = rw (room, copy_out-ok p n h.mem fits)

  copy_headers-ok :
      (p n : ℕ) (h : Host)
      → p + n ≤ h.mem.size
      → copy_headers ng p n h ≡ ok (some (block h.mem p n)) (ticked h (suc h.tick))
  unfolding copy_headers palloc on_mem copy_block
  copy_headers-ok p n h fits_p =
      let inside : fits h.mem p n ≡ true = ground (arith, fits_p) in rw (room, inside)

  with_headers-ok :
      (p n : ℕ) (rest : Option Memory → M Host ProxyResult) (h : Host)
      → Inside h p n
      → 0 < n
      → with_headers ng p n rest h ≡ rest (some (block h.mem p n)) (ticked h (suc h.tick))
  unfolding with_headers
  with_headers-ok p n rest h i pos =
      let low = i.low in
      let given : positive n ≡ true = ground arith in
      rw (given, must_get_memory-Inside p n _ h i, copy_headers-ok p n h i.fits)

  with_body-ok :
      (p n : ℕ) (rest : Option (List ℕ) → M Host ProxyResult) (h : Host)
      → (positive n ≡ true → Inside h p n)
      → (t : ℕ) × (with_body ng p n rest h ≡ rest (body_of h.mem p n) (ticked h t))
  unfolding with_body
  with_body-ok p n rest h i = elim (Bool-cases (positive n)) [
    | inr e ↦ (h.tick, rw (e, body_of))
    | inl e ↦ (
      suc h.tick,
      rw (e, must_get_memory-Inside p n _ h (i e), copy_as_str-ok p n h (i e).fits, body_of),
    )
  ]

  call_register-ok :
      (h : Host) (up : List ℕ) (m : Option Memory) (body : Option (List ℕ)) (timeout : ℕ)
      → h.ctx.callout ≡ none
      → timeout < half32
      → call_register ng up m body timeout h
        ≡ ok
            (ngx_ok, h.cur_callout_id)
            (registered
              (ticked h (suc h.tick))
              (record { timeout_ms = timeout; up = up; map_data = m; body = body }))
  unfolding call_register
  call_register-ok h up m body timeout free pos =
      let signed : is_neg32 timeout ≡ false = ground arith in rw (free, room, signed)

  register_call-ok :
      (h : Host) (up : List ℕ) (m : Option Memory) (body : Option (List ℕ))
      (timeout callout_addr : ℕ)
      → h.ctx.callout ≡ none
      → timeout < half32
      → Inside h callout_addr 4
      → register_call ng up m body timeout callout_addr h
        ≡ ok result_ok (
            registered
              (with_mem (ticked h (suc h.tick)) (write h.mem callout_addr (le32 h.cur_callout_id)))
              (record { timeout_ms = timeout; up = up; map_data = m; body = body }))
  unfolding register_call
  register_call-ok h up m body timeout callout_addr free pos cell =
      let c : Callout = record { timeout_ms = timeout; up = up; map_data = m; body = body } in
      let g : Host = registered (ticked h (suc h.tick)) c in
      let cell' : Inside g callout_addr 4 = record { fits = cell.fits; low = cell.low } in
      rw (
        call_register-ok h up m body timeout free pos,
        must_get_memory-Inside callout_addr 4 _ g cell',
        on_mem-store32 callout_addr h.cur_callout_id g cell.fits,
      )

-- What it takes for a call to be registered: a request in a phase that can wait, memory, an upstream
-- that parses, a body in memory or none, a timeout that is not negative, no call that is pending, and
-- a cell for the id.
pub record Registers (ng : Nginx) (h : Host)
    (up_data up_size body_data body_size timeout callout_addr : ℕ) : Type 0 where
  pub req : get_req h.cur_state ≡ true
  pub yieldable : is_yieldable ng h.r ≡ true
  pub room : (n size : ℕ) → ng.palloc n size ≡ true
  pub free : h.ctx.callout ≡ none
  pub up : Inside h up_data up_size
  pub url : ng.parse_url (read h.mem up_data up_size) ≡ true
  pub body : positive body_size ≡ true → Inside h body_data body_size
  pub not_negative : timeout < half32
  pub cell : Inside h callout_addr 4

-- The memory holds a map of the headers `hs`.
pub record HeadersAt (h : Host) (hs : List Header) (headers_data : ℕ) : Type 0 where
  pub inside : Inside h headers_data (map_size hs)
  pub is_map : IsMap h.mem headers_data hs

-- What the plugin's memory at `h` said, as the Lua code gets it.
pub record Delivered (ng : Nginx) (h : Host) (hs : List Header)
    (up_data up_size body_data body_size timeout : ℕ) (old o : CallOut) : Type 0 where
  pub host : o.host ≡ read h.mem up_data up_size
  pub timeout_ms : o.timeout ≡ timeout
  pub headers : o.headers ≡ sent_all ng hs
  pub path_value : o.path ≡ latest ng path hs old.path
  pub method_value : o.method ≡ latest ng method hs old.method
  pub scheme_value : o.scheme ≡ latest ng scheme hs old.scheme
  pub body : o.body ≡ (if positive body_size then read h.mem body_data body_size else [])

-- The plugin has got the id of the call, and nothing else of its memory has changed.
pub record Told (h h' : Host) (callout_addr : ℕ) : Type 0 where
  pub callout_id : word h'.mem callout_addr ≡ h.cur_callout_id % u32
  pub next_id : h'.cur_callout_id ≡ add32 h.cur_callout_id 1
  pub others : (x : ℕ) → (x < callout_addr) ⊎ (callout_addr + 4 ≤ x) → h'.mem.byte x ≡ h.mem.byte x

body_value :
    (m : Memory) (p n : ℕ)
    → (elim (body_of m p n) [ none ↦ [] | some b ↦ b ]) ≡ (if positive n then read m p n else [])
body_value m p n = elim (Bool-cases (positive n)) [
  | inl e ↦ rw (body_of, e)
  | inr e ↦ rw (body_of, e)
]

module _ (ng : Nginx) where
  http_call-registered :
      (h : Host) (mp : Option Memory) (t1 : ℕ)
      (up_data up_size headers_data headers_size body_data body_size timeout callout_addr : ℕ)
      → Registers ng h up_data up_size body_data body_size timeout callout_addr
      → ((rest : Option Memory → M Host ProxyResult)
          → with_headers ng headers_data headers_size rest (ticked h (suc h.tick))
            ≡ rest mp (ticked h t1))
      → (t : ℕ) × (http_call ng up_data up_size headers_data headers_size body_data body_size
            timeout callout_addr h
          ≡ ok result_ok (
              behind h t callout_addr (record {
                timeout_ms = timeout;
                up = read h.mem up_data up_size;
                map_data = mp;
                body = body_of h.mem body_data body_size;
              })))
  unfolding http_call call_upstream must_get_req
  http_call-registered h mp t1 up_data up_size headers_data headers_size body_data body_size timeout
        callout_addr a headers =
      let low = a.up.low in
      let up = read h.mem up_data up_size in
      let (t, body) =
        with_body-ok ng a.room body_data body_size
          (λ body. register_call ng up mp body timeout callout_addr) (ticked h t1)
          (λ e. record { fits = (a.body e).fits; low = (a.body e).low }) in
      (
        suc t,
        rw (
          a.req,
          a.yieldable,
          must_get_memory-Inside up_data up_size _ h a.up,
          sext64_pos up_size (omega arith),
          copy_as_str-ok ng a.room up_data up_size h a.up.fits,
          a.url,
          headers,
          body,
          register_call-ok ng a.room (ticked h t) up mp (body_of h.mem body_data body_size) timeout
              callout_addr a.free a.not_negative (record { fits = a.cell.fits; low = a.cell.low }),
        ),
      )

  told :
      (h : Host) (t callout_addr : ℕ) (c : Callout)
      → Told h (behind h t callout_addr c) callout_addr
  unfolding le32
  told h t callout_addr c = record {
    callout_id = word-write h.mem callout_addr h.cur_callout_id;
    next_id = refl;
    others = λ x apart. write-SameBut h.mem callout_addr _ x (omega arith);
  }

  -- What the plugin passes reaches Lua: where `Registers` holds and the headers are a well-formed map,
  -- `proxy_http_call` gives PROXY_RESULT_OK, the plugin gets the id, and `ngx_http_wasm_call_get` then
  -- returns and gives the Lua code the upstream, the timeout, the body and the headers that the
  -- plugin's memory held, the pseudo headers sorted out of them; after that no call is pending.
  pub http_call-call_get :
      (h : Host) (hs : List Header)
      (up_data up_size headers_data body_data body_size timeout callout_addr : ℕ) (old : CallOut)
      → Registers ng h up_data up_size body_data body_size timeout callout_addr
      → HeadersAt h hs headers_data
      → Returns
          (λ res h'.
            (res ≡ result_ok)
            × Told h h' callout_addr
            × ((o : CallOut) × (call_get ng old h' ≡ ok o (taken h'))
                × Delivered ng h hs up_data up_size body_data body_size timeout old o))
          (http_call ng up_data up_size headers_data
            (map_size hs)
            body_data
            body_size
            timeout
            callout_addr
            h)
  http_call-call_get h hs up_data up_size headers_data body_data body_size timeout callout_addr old
        a at =
      let m : Memory = block h.mem headers_data (map_size hs) in
      let (t, e) =
        http_call-registered h (some m) (suc (suc h.tick)) up_data up_size headers_data
          (map_size hs) body_data body_size timeout callout_addr a
          λ rest.
            with_headers-ok ng a.room headers_data (map_size hs) rest (ticked h (suc h.tick))
              (record { fits = at.inside.fits; low = at.inside.low }) (omega arith) in
      let c : Callout = record {
        timeout_ms = timeout;
        up = read h.mem up_data up_size;
        map_data = some m;
        body = body_of h.mem body_data body_size;
      } in
      let w : HasMap c hs = record {
        mem = m;
        given = refl;
        is_map = IsMap-block h.mem headers_data (map_size hs) hs at.is_map;
        inside = omega arith;
        short = omega (arith, at.inside.low);
        small = omega (arith, at.inside.low);
      } in
      let (o, got, g) = call_get-Got ng (behind h t callout_addr c) c hs old refl w in
      let delivered : Delivered ng h hs up_data up_size body_data body_size timeout old o = record {
        host = g.host;
        timeout_ms = g.timeout;
        headers = g.headers;
        path_value = g.path;
        method_value = g.method;
        scheme_value = g.scheme;
        body = g.body ∙ body_value h.mem body_data body_size;
      } in
      rw e (returns (refl, told h t callout_addr c, (o, got, delivered)))

  call_get_null :
      (h : Host) (c : Callout) (old : CallOut)
      → h.ctx.callout ≡ some c
      → c.map_data ≡ none
      → (call_get ng old h ≡ fault) × (max_headers_count h ≡ fault)
  unfolding call_get max_headers_count count_headers on_map
  call_get_null h c old e null = (rw (e, null), rw (e, null))

  -- A call without headers is registered with a map that is NULL: where `Registers` holds and
  -- `headers_size` is zero or negative, `proxy_http_call` gives PROXY_RESULT_OK and the plugin gets an
  -- id, but both functions with which the Lua code fetches the call are undefined then.
  pub http_call_without_headers :
      (h : Host)
      (up_data up_size headers_data headers_size body_data body_size timeout callout_addr : ℕ)
      (old : CallOut)
      → Registers ng h up_data up_size body_data body_size timeout callout_addr
      → positive headers_size ≡ false
      → Returns
          (λ res h'.
            (res ≡ result_ok)
            × Told h h' callout_addr
            × (call_get ng old h' ≡ fault)
            × (max_headers_count h' ≡ fault))
          (http_call ng up_data up_size headers_data headers_size body_data body_size timeout
            callout_addr h)
  unfolding with_headers
  http_call_without_headers h up_data up_size headers_data headers_size body_data body_size timeout
        callout_addr old a no_headers =
      let c : Callout = record {
        timeout_ms = timeout;
        up = read h.mem up_data up_size;
        map_data = none;
        body = body_of h.mem body_data body_size;
      } in
      let (t, e) =
        http_call-registered h none (suc h.tick) up_data up_size headers_data headers_size body_data
          body_size timeout callout_addr a λ rest. rw no_headers in
      let (x, y) = call_get_null (behind h t callout_addr c) c old refl refl in
      rw e (returns (refl, told h t callout_addr c, x, y))
