-- ===== src/GetHeader/Laws.antt =====
-- What `proxy_get_header_map_value` of src/http/ngx_http_wasm_api.c hands over: the value of the first
-- header with the name that the plugin asks for.
use wasm_nginx_module.Prelude.{
  ℕ, ◌%◌, ◌<◌, ◌≡◌, ◌≢◌, true, false, List, [], none, some, arith, length, ◌==◌, All, Bool-cases,
  inl, inr,
}
use wasm_nginx_module.Words.{u32, half32, is_neg32, le32}
use wasm_nginx_module.Run.{M, ok, Returns}
use wasm_nginx_module.Memory.{write, read}
use wasm_nginx_module.Memory.Laws.{copy_out-ok}
use wasm_nginx_module.Map.Layout.{Header}
use wasm_nginx_module.Vm.{Engine}
use wasm_nginx_module.Host.{
  Host, Nginx, TableElt, elements, IsList, ProxyResult, result_ok, not_found, on_mem, with_mem,
}
use wasm_nginx_module.State.{get_req, must_get_req}
use wasm_nginx_module.Copy.{memory_alloc}
use wasm_nginx_module.Copy.Laws.{
  Inside, Allocated, HandedOver, must_get_memory-Inside, copy_to_wasm-HandedOver,
}
use wasm_nginx_module.Pseudo.{get_pseudo_header, req_table, starts_with_colon}
use wasm_nginx_module.GetHeader.{
  matches, with_key, hand_over, find_req_header, req_get_header, http_call_resp_get_header, get_at,
  get_header_map_value,
}
use wasm_nginx_module.GetHeader.Search.{
  First, First-nonempty, is_named, first_value, first_value-First, first_value-none,
  search_part-first_value, search_headers-first_value, search_parts-elements,
}

-- The plugin asks from within a request, with a name in its memory.
pub record AsksFor (h : Host) (key_data key_size : ℕ) : Type 0 where
  pub req : get_req h.cur_state ≡ true
  pub key : Inside h key_data key_size

-- The plugin's allocator gives room for a value that is not empty.
pub record RoomFor (e : Engine) (h h' : Host) (val : List ℕ) (buf addr size : ℕ) : Type 0 where
  pub not_empty : val ≢ []
  pub short : length val < half32
  pub cell : Inside h size 4
  pub alloc :
      memory_alloc e (length val) (with_mem h (write h.mem size (le32 (length val)))) ≡ ok buf h'
  pub allocated :
      Allocated (with_mem h (write h.mem size (le32 (length val)))) h' buf (length val) addr size

with_key-ok :
    (p n : ℕ) (absent : M Host ProxyResult) (rest : List ℕ → M Host ProxyResult) (h : Host)
    → Inside h p n
    → with_key p n absent rest h ≡ rest (read h.mem p n) h
unfolding with_key on_mem
with_key-ok p n absent rest h i =
    let low = i.low in
    let pos : is_neg32 n ≡ false = ground arith in rw (pos, copy_out-ok p n h.mem i.fits)

module _ (e : Engine) where
  hand_over-HandedOver :
      (h h' : Host) (val : List ℕ) (buf addr size : ℕ)
      → RoomFor e h h' val buf addr size
      → Returns
          (λ r h2. (r ≡ result_ok) × HandedOver h' h2 buf addr size val)
          (hand_over e addr size (some val) h)
  unfolding hand_over
  hand_over-HandedOver h h' val buf addr size r =
      let short = r.short in
      let len : length val % u32 ≡ length val = omega arith in
      rw (hand_over, len)
        (copy_to_wasm-HandedOver e h h' buf addr size val r.not_empty r.short r.cell r.alloc
          r.allocated)

module _ (e : Engine) (ng : Nginx) where
  asked :
      (type key_data key_size addr size : ℕ) (h : Host)
      → AsksFor h key_data key_size
      → get_header_map_value e ng type key_data key_size addr size h
        ≡ get_at e ng type key_data key_size addr size h
  unfolding get_header_map_value must_get_req
  asked type key_data key_size addr size h a =
      rw (a.req, must_get_memory-Inside key_data key_size _ h a.key)

  get_pseudo_header_plain :
      (key : List ℕ) (h : Host)
      → starts_with_colon key ≡ false
      → get_pseudo_header ng req_table key h ≡ ok none h
  unfolding get_pseudo_header
  get_pseudo_header_plain key h plain = rw plain

  req_searched :
      (key_data key_size addr size : ℕ) (h : Host)
      → AsksFor h key_data key_size
      → IsList h.r.headers_in
      → starts_with_colon (read h.mem key_data key_size) ≡ false
      → get_header_map_value e ng 0 key_data key_size addr size h
        ≡ hand_over e addr size
            (first_value
              (matches ng (read h.mem key_data key_size))
              (λ x. x.value)
              (elements h.r.headers_in.part h.r.headers_in.next))
            h
  unfolding get_at req_get_header find_req_header
  req_searched key_data key_size addr size h a list plain = rw (
    asked 0 key_data key_size addr size h a,
    with_key-ok key_data key_size _ _ h a.key,
    get_pseudo_header_plain (read h.mem key_data key_size) h plain,
    search_parts-elements ng (read h.mem key_data key_size) h.r.headers_in.part h.r.headers_in.next
        h list,
    search_part-first_value,
  )

  resp_searched :
      (key_data key_size addr size : ℕ) (h : Host)
      → AsksFor h key_data key_size
      → (length h.ctx.call_resp_headers == 0) ≡ false
      → get_header_map_value e ng 6 key_data key_size addr size h
        ≡ hand_over e addr size
            (first_value
              (is_named ng (read h.mem key_data key_size))
              (λ x. x.value)
              h.ctx.call_resp_headers)
            h
  unfolding get_at http_call_resp_get_header
  resp_searched key_data key_size addr size h a some_headers = rw (
    asked 6 key_data key_size addr size h a,
    some_headers,
    with_key-ok key_data key_size _ _ h a.key,
    search_headers-first_value,
  )

  -- The first header of the request with the name that the plugin asks for reaches the plugin,
  -- whichever part of nginx's list it is in: for a name without a colon in front, and with an allocator
  -- that gives room for a value that is not empty, `proxy_get_header_map_value` returns and hands over
  -- the header's value.
  pub get_header_map_value-HandedOver :
      (h h' : Host) (header : TableElt) (key_data key_size buf addr size : ℕ)
      → AsksFor h key_data key_size
      → IsList h.r.headers_in
      → starts_with_colon (read h.mem key_data key_size) ≡ false
      → First
          (matches ng (read h.mem key_data key_size))
          (elements h.r.headers_in.part h.r.headers_in.next)
          header
      → RoomFor e h h' header.value buf addr size
      → Returns
          (λ r h2. (r ≡ result_ok) × HandedOver h' h2 buf addr size header.value)
          (get_header_map_value e ng 0 key_data key_size addr size h)
  get_header_map_value-HandedOver h h' header key_data key_size buf addr size a list plain f room =
      rw
        (
          req_searched key_data key_size addr size h a list plain,
          first_value-First (matches ng (read h.mem key_data key_size)) (λ x. x.value) _ header f,
        )
        (hand_over-HandedOver e h h' header.value buf addr size room)

  -- The same for the headers of an HTTP call's response, and any name.
  pub get_call_header-HandedOver :
      (h h' : Host) (header : Header) (key_data key_size buf addr size : ℕ)
      → AsksFor h key_data key_size
      → First (is_named ng (read h.mem key_data key_size)) h.ctx.call_resp_headers header
      → RoomFor e h h' header.value buf addr size
      → Returns
          (λ r h2. (r ≡ result_ok) × HandedOver h' h2 buf addr size header.value)
          (get_header_map_value e ng 6 key_data key_size addr size h)
  get_call_header-HandedOver h h' header key_data key_size buf addr size a f room =
      rw
        (
          resp_searched key_data key_size addr size h a (First-nonempty _ _ header f),
          first_value-First (is_named ng (read h.mem key_data key_size)) (λ x. x.value) _ header f,
        )
        (hand_over-HandedOver e h h' header.value buf addr size room)

  -- With a request, nginx's list of headers in the form that its push gives it (`IsList`), and for a
  -- name in the plugin's memory without a colon in front: where no header that has not been removed
  -- has it, neither of the request nor of the call's response, the answer is
  -- PROXY_RESULT_NOT_FOUND for both, and nothing is changed.
  pub get_header_map_value_absent :
      (h : Host) (key_data key_size addr size : ℕ)
      → AsksFor h key_data key_size
      → IsList h.r.headers_in
      → starts_with_colon (read h.mem key_data key_size) ≡ false
      → All
          (λ x. matches ng (read h.mem key_data key_size) x ≡ false)
          (elements h.r.headers_in.part h.r.headers_in.next)
      → All (λ x. is_named ng (read h.mem key_data key_size) x ≡ false) h.ctx.call_resp_headers
      → (get_header_map_value e ng 0 key_data key_size addr size h ≡ ok not_found h)
        × (get_header_map_value e ng 6 key_data key_size addr size h ≡ ok not_found h)
  unfolding hand_over get_at http_call_resp_get_header with_key
  get_header_map_value_absent h key_data key_size addr size a list plain no_in no_resp = (
    rw (
      req_searched key_data key_size addr size h a list plain,
      first_value-none (matches ng (read h.mem key_data key_size)) (λ x. x.value) _ no_in,
    ),
    elim (Bool-cases (length h.ctx.call_resp_headers == 0)) [
      | inl empty ↦ rw (asked 6 key_data key_size addr size h a, empty)
      | inr some_headers ↦ rw (
        resp_searched key_data key_size addr size h a some_headers,
        first_value-none (is_named ng (read h.mem key_data key_size)) (λ x. x.value) _ no_resp,
      )
    ],
  )
