-- ===== src/Call/Get.antt =====
-- `ngx_http_wasm_call_register`, `ngx_http_wasm_call_max_headers_count` and `ngx_http_wasm_call_get`
-- of src/http/ngx_http_wasm_call.c, one after the other.
use wasm_nginx_module.Prelude.{
  ℕ, suc, ◌+◌, ◌*◌, ◌≤◌, ◌<◌, ◌≡◌, refl, true, false, List, [], Option, none, some, arith, length,
}
use wasm_nginx_module.Words.{u32, half32, add32, is_neg32}
use wasm_nginx_module.Run.{M, ok, fault}
use wasm_nginx_module.Memory.{Memory}
use wasm_nginx_module.Map.{Iter, init_iter}
use wasm_nginx_module.Map.Layout.{Header, IsMap, map_size}
use wasm_nginx_module.Map.Walk.{init_iter-ok}
use wasm_nginx_module.Vm.{ngx_ok, ngx_error}
use wasm_nginx_module.Host.{Host, Nginx, Callout}
use wasm_nginx_module.Pseudo.{path, method, scheme}
use wasm_nginx_module.Call.{CallOut, call_get, call_register, on_map, call_loop, count_headers}
use wasm_nginx_module.Call.Loop.{take_headers, call_loop-take_headers}
use wasm_nginx_module.Call.Laws.{sent_all, latest, take_headers-Sorted}

-- A callout whose map is well formed, with the headers `hs`.
pub record HasMap (c : Callout) (hs : List Header) : Type 0 where
  pub mem : Memory
  pub given : c.map_data ≡ some mem
  pub is_map : IsMap mem 0 hs
  pub inside : map_size hs ≤ mem.size
  pub short : map_size hs < half32
  pub small : mem.size ≤ u32

-- What the Lua code gets of a callout: the host and timeout as registered, the headers that are sent,
-- the body, and each of the three pseudo headers that the map has; one that the map does not have is
-- left as the previous call left it.
pub record Got (ng : Nginx) (c : Callout) (hs : List Header) (old o : CallOut) : Type 0 where
  pub host : o.host ≡ c.up
  pub timeout : o.timeout ≡ c.timeout_ms
  pub headers : o.headers ≡ sent_all ng hs
  pub path : o.path ≡ latest ng path hs old.path
  pub method : o.method ≡ latest ng method hs old.method
  pub scheme : o.scheme ≡ latest ng scheme hs old.scheme
  pub body : o.body ≡ elim c.body [ none ↦ [] | some b ↦ b ]

-- The host without its callout.
abbrev pub taken : Host → Host
taken h = record h { ctx = record (h.ctx) { callout = none } }

on_map-ok :
    {A : Type 0} (m : Memory) (f : M Memory A) (h : Host) (a : A) (m' : Memory)
    → f m ≡ ok a m'
    → on_map (some m) f h ≡ ok a h
unfolding on_map
on_map-ok m f h a m' e = rw (e, on_map)

count_headers-length :
    (h : Host) (c : Callout) (hs : List Header)
    → HasMap c hs
    → count_headers (some c) h ≡ ok (length hs) h
unfolding count_headers
count_headers-length h c hs w = rw (
  w.given,
  on_map-ok w.mem (init_iter 0) h _ w.mem
      (init_iter-ok 0 hs w.mem w.is_map (omega (arith, w.inside)) w.short w.small),
)

module _ (ng : Nginx) where
  -- With a well-formed map `ngx_http_wasm_call_get` returns, takes the callout out of the context, and
  -- gives what `Got` says.
  pub call_get-Got :
      (h : Host) (c : Callout) (hs : List Header) (old : CallOut)
      → h.ctx.callout ≡ some c
      → HasMap c hs
      → (o : CallOut) × (call_get ng old h ≡ ok o (taken h)) × Got ng c hs old o
  unfolding call_get
  call_get-Got h c hs old has w =
      let it : Iter = record {
        idx = 0;
        len = length hs;
        size_ptr = 4;
        data_ptr = 4 + 8 * length hs;
      } in
      let start : CallOut = record old { host = c.up; timeout = c.timeout_ms; headers = [] } in
      let s = take_headers-Sorted ng hs start in
      (
        record (take_headers ng hs start) { body = elim c.body [ none ↦ [] | some b ↦ b ] },
        rw (
          has,
          w.given,
          on_map-ok w.mem (init_iter 0) (taken h) it w.mem
              (init_iter-ok 0 hs w.mem w.is_map (omega (arith, w.inside)) w.short w.small),
          on_map-ok w.mem (call_loop ng (suc (length hs)) it start) (taken h)
              (take_headers ng hs start) w.mem
              (call_loop-take_headers ng (suc (length hs)) it hs start w.mem (omega arith)
                (omega arith) (omega (arith, w.short)) w.is_map.entries (omega (arith, w.inside))
                (omega (arith, w.inside)) (omega (arith, w.short)) w.small),
        ),
        record {
          host = s.host;
          timeout = s.timeout;
          headers = s.headers;
          path = s.path;
          method = s.method;
          scheme = s.scheme;
          body = refl;
        },
      )

  get_nothing : (old : CallOut) (h : Host) → call_get ng old (taken h) ≡ fault
  unfolding call_get
  get_nothing old h = refl

  -- One call at a time. A registration in a context without a callout, with a timeout that is not
  -- negative, memory for it, and a well-formed map, gives the next id; after it any other is refused and
  -- changes nothing, until `ngx_http_wasm_call_get` has given the first one's data and emptied the
  -- context. To get once more is undefined.
  pub register-get :
      (h : Host) (up : List ℕ) (m : Memory) (hs : List Header) (body : Option (List ℕ))
      (timeout : ℕ) (old : CallOut)
      → h.ctx.callout ≡ none
      → ng.palloc h.tick 32 ≡ true
      → timeout < half32
      → HasMap (record { timeout_ms = timeout; up = up; map_data = some m; body = body }) hs
      → (h' : Host) × (o : CallOut) × (call_register ng up (some m) body timeout h
          ≡ ok (ngx_ok, h.cur_callout_id) h')
        × (h'.cur_callout_id ≡ add32 h.cur_callout_id 1)
        × ((up' : List ℕ) (map' : Option Memory) (body' : Option (List ℕ)) (timeout' : ℕ)
            → call_register ng up' map' body' timeout' h' ≡ ok (ngx_error, 0) h')
        × (call_get ng old h' ≡ ok o (taken h'))
        × Got ng (record { timeout_ms = timeout; up = up; map_data = some m; body = body }) hs old o
        × (call_get ng old (taken h') ≡ fault)
  unfolding call_register
  register-get h up m hs body timeout old free room pos w =
      let c : Callout = record { timeout_ms = timeout; up = up; map_data = some m; body = body } in
      let signed : is_neg32 timeout ≡ false = ground arith in
      let h' : Host = record h {
        plugin = record { mem = h.mem; tick = suc h.tick };
        ctx = record (h.ctx) { callout = some c; callout_id = h.cur_callout_id };
        cur_callout_id = add32 h.cur_callout_id 1;
      } in
      let (o, e, g) = call_get-Got h' c hs old refl w in
      (
        h',
        o,
        rw (free, room, signed),
        refl,
        λ up' map' body' timeout'. refl,
        e,
        g,
        get_nothing old h',
      )
