-- ===== src/Pairs/Response.antt =====
-- `ngx_http_wasm_resp_get_headers` of src/http/ngx_http_wasm_api.c, which hands the headers of the
-- response over, and `proxy_get_header_map_pairs`, which chooses among the three getters.
use wasm_nginx_module.Prelude.{
  ℕ, ◌+◌, ◌%◌, List, [], ◌∷◌, Option, none, some, length, take, if◌then◌else◌, ◌==◌,
}
use wasm_nginx_module.Words.{u32}
use wasm_nginx_module.Run.{M, pure, undefined, ◌>>=◌, ◌>>◌}
use wasm_nginx_module.Memory.{Memory}
use wasm_nginx_module.Map.{Slot, init_map, init_iter, reserve_literal}
use wasm_nginx_module.Map.Layout.{Header}
use wasm_nginx_module.Map.Build.{put_header}
use wasm_nginx_module.Map.Full.{start}
use wasm_nginx_module.Vm.{Engine}
use wasm_nginx_module.Host.{
  Host, Nginx, Request, TableElt, ProxyResult, result_ok, internal_failure, invalid_memory_access,
  unimplemented, on_mem,
}
use wasm_nginx_module.State.{must_get_req}
use wasm_nginx_module.Copy.{get_buf_to_write}
use wasm_nginx_module.Pseudo.{bytes}
use wasm_nginx_module.SetHeader.{palloc}
use wasm_nginx_module.Pairs.{count_map, req_get_headers, http_call_resp_get_headers}

-- `count` and `size`, two variables of type `int`.
abbrev pub Count : Type 0
Count = ℕ × ℕ

-- `count++; size += n;`.
unfoldable pub bump : Count → ℕ → Count
bump acc n = ((acc.0 + 1) % u32, (acc.1 + n) % u32)

-- The first loop, over a part. An element with the hash zero is passed over.
unfoldable pub count_part : List TableElt → Count → Count
unfolding bump
count_part [] acc = acc
count_part (header ∷ part) acc =
    let passed = count_part part acc in
    let counted = count_part part (bump acc (length header.key + length header.value + 2)) in
    if header.hash == 0 then passed else counted

-- The first loop. Behind the last element of a part it goes on with element 0 of the next part,
-- without a look at its number of elements.
unfoldable pub count_parts : List TableElt → List (List TableElt) → Count → M Host Count
unfolding count_part
count_parts part [] acc = pure (count_part part acc)
count_parts part (part' ∷ next) acc =
    let rest = count_parts part' next (count_part part acc) in
    if length part' == 0 then undefined else rest

-- The variable `part` behind the first loop.
unfoldable pub last_part : List TableElt → List (List TableElt) → List TableElt
last_part part [] = part
last_part part (part' ∷ next) = last_part part' next

-- `r->headers_out.content_length_n` where it is counted as a header, and `r->headers_out.status`.
abbrev pub asked_length : Request → Option ℕ
asked_length r = if r.content_length then none else r.content_length_n

abbrev pub asked_status : Request → Option ℕ
asked_status r = if r.status == 0 then none else some r.status

-- The value of the connection header. NGX_HTTP_SWITCHING_PROTOCOLS is 101.
unfoldable pub connection : Request → List ℕ
connection r =
    if r.status == 101
    then bytes "upgrade"
    else if r.keepalive
    then bytes "keep-alive"
    else bytes "close"

-- A header's value where there is one: `sizeof` of the key's literal, the value, and a NUL.
abbrev pub bump_text : List ℕ → Option (List ℕ) → Count → Count
bump_text key none acc = acc
bump_text key (some val) acc = bump acc (length key + 1 + length val + 1)

abbrev pub asked_type : Request → Option (List ℕ)
asked_type r = if length r.content_type == 0 then none else some r.content_type

abbrev pub asked_chunked : Request → Option (List ℕ)
asked_chunked r = if r.chunked then some (bytes "chunked") else none

-- The counting behind the first loop. The connection header is counted with the size of another key.
unfoldable pub count_rest : Request → Option (List ℕ) → Option (List ℕ) → Count → Count
unfolding bump connection
count_rest r content_length_hdr status_length_hdr acc =
    let typed = bump_text (bytes "content-type") (asked_type r) acc in
    let sized = bump_text (bytes "content-length") content_length_hdr typed in
    let connected = bump_text (bytes "content-length") (some (connection r)) sized in
    let chunked = bump_text (bytes "transfer-encoding") (asked_chunked r) connected in
    bump_text (bytes ":status") status_length_hdr chunked

-- `proxy_wasm_map_reserve_literal` with the caller's iterator.
unfoldable pub put_literal : Header → Slot → M Memory Slot
unfolding reserve_literal
put_literal h s = do (_, it) ← reserve_literal s.it h.key h.value; pure (record s { it = it })

-- `proxy_wasm_map_reserve` and the two `ngx_memcpy` for a value that may be missing.
abbrev pub put_text : List ℕ → Option (List ℕ) → Slot → M Memory Slot
put_text key none s = pure s
put_text key (some val) s = put_header s (record { key = key; value = val })

abbrev pub put_chunked : Option (List ℕ) → Slot → M Memory Slot
put_chunked none s = pure s
put_chunked (some val) s = put_literal (record { key = bytes "transfer-encoding"; value = val }) s

module _ (ng : Nginx) where
  -- `ngx_snprintf` into NGX_OFF_T_LEN or NGX_INT_T_LEN bytes, both 20, behind their allocation.
  unfoldable pub with_number :
      Option ℕ → (Option (List ℕ) → M Host ProxyResult) → M Host ProxyResult
  unfolding palloc
  with_number none rest = rest none
  with_number (some n) rest = do
    room ← palloc ng 20
    if room then rest (some (take 20 (ng.sprintf n))) else pure internal_failure

  -- The second loop, over a part: the key is copied in lower case.
  unfoldable pub put_part : List TableElt → Slot → M Memory Slot
  unfolding put_header
  put_part [] s = pure s
  put_part (header ∷ part) s =
      let rest = put_part part in
      let put =
        put_header s (record { key = ng.strlow header.key; value = header.value }) >>= rest in
      if header.hash == 0 then rest s else put

  -- All that is written behind `proxy_wasm_map_init_iter`. The second loop begins with the variable
  -- `part` as the first loop left it.
  unfoldable pub put_resp_headers :
      Request → Option (List ℕ) → Option (List ℕ) → Slot → M Memory Slot
  unfolding put_part last_part put_literal connection put_header
  put_resp_headers r content_length_hdr status_length_hdr = λ s.
      put_part (last_part r.headers_out.part r.headers_out.next) s
      >>= put_text (bytes "content-type") (asked_type r)
      >>= put_text (bytes "content-length") content_length_hdr
      >>= put_literal (record { key = bytes "connection"; value = connection r })
      >>= put_chunked (asked_chunked r)
      >>= put_text (bytes ":status") status_length_hdr

module _ (e : Engine) (ng : Nginx) where
  unfoldable pub write_resp_headers :
      Count → Option (List ℕ) → Option (List ℕ) → ℕ → ℕ → M Host ProxyResult
  unfolding put_resp_headers count_map
  write_resp_headers acc content_length_hdr status_length_hdr addr size_addr h =
      (do
        buf ← get_buf_to_write e (count_map acc.0 acc.1) addr size_addr
        elim buf [
          | none ↦ pure invalid_memory_access
          | some p ↦ do
            it ← on_mem (init_map p acc.0 >> init_iter p)
            on_mem (put_resp_headers ng h.r content_length_hdr status_length_hdr (start it))
            pure result_ok
        ])
        h

  -- `ngx_http_wasm_resp_get_headers`.
  unfoldable pub resp_get_headers : ℕ → ℕ → M Host ProxyResult
  resp_get_headers addr size_addr h =
      (do
        acc ← count_parts h.r.headers_out.part h.r.headers_out.next (0, 0)
        with_number ng (asked_length h.r) λ content_length_hdr.
            with_number ng (asked_status h.r) λ status_length_hdr.
              write_resp_headers (count_rest h.r content_length_hdr status_length_hdr acc)
                content_length_hdr status_length_hdr addr size_addr)
        h

  -- `proxy_get_header_map_pairs`.
  unfoldable pub get_header_map_pairs : ℕ → ℕ → ℕ → M Host ProxyResult
  unfolding resp_get_headers
  get_header_map_pairs type addr size_addr = must_get_req (
      if type == 0
      then req_get_headers e ng addr size_addr
      else if type == 2
      then resp_get_headers addr size_addr
      else if type == 6
      then http_call_resp_get_headers e addr size_addr
      else pure unimplemented)
