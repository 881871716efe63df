-- ===== src/LocalResponse/Laws.antt =====
-- What `proxy_send_local_response` of src/http/ngx_http_wasm_api.c leaves for the answer to the request.
use wasm_nginx_module.Prelude.{
  ℕ, zero, suc, ◌+◌, ◌*◌, ◌≤◌, ◌<◌, ◌≡◌, refl, inl, inr, Bool, true, false, List, [], ◌∷◌, none,
  some, arith, length, ◌==◌, ◌&&◌, Bool-cases, Option-cases, if◌then◌else◌,
}
use wasm_nginx_module.Words.{u32, half32, sext64, sext64_pos}
use wasm_nginx_module.Run.{M, ok, Returns, returns}
use wasm_nginx_module.Memory.{read, get_memory}
use wasm_nginx_module.Memory.Laws.{copy_out-ok}
use wasm_nginx_module.Map.{Iter}
use wasm_nginx_module.Map.Layout.{Header, Holds, text_size, map_size}
use wasm_nginx_module.Map.Walk.{next-entry, next-done, entry_texts-ok, stepped, init_iter-ok}
use wasm_nginx_module.Host.{
  Host, Nginx, Request, MainConf, ProxyResult, result_ok, invalid_memory_access, on_mem, get_mem,
  must_get_memory, ticked,
}
use wasm_nginx_module.State.{get_req, must_get_req}
use wasm_nginx_module.Copy.Laws.{Inside, must_get_memory-Inside}
use wasm_nginx_module.Pseudo.{bytes}
use wasm_nginx_module.SetHeader.{palloc, set_resp_header, succeeded}
use wasm_nginx_module.HttpCall.{positive}
use wasm_nginx_module.HttpCall.Laws.{HeadersAt}
use wasm_nginx_module.LocalResponse.{
  set_headers, with_resp_headers, put_resp_body, send_local_response, fetch_local_body,
}

-- The host with another request, and with another configuration.
abbrev with_r : Host → Request → Host
with_r h r = record h { r = r }

abbrev with_conf : Host → MainConf → Host
with_conf h c = record h { wmcf = c }

module _ (ng : Nginx) where
  -- What `ngx_http_wasm_set_resp_header` answers for a header, and the request behind it.
  unfoldable set_one : Header → Request → Bool × Request
  set_one hdr r =
      let plain : ℕ × Request = ng.set_resp_header r hdr.key false (some hdr.value) false in
      if length hdr.key == 7 && ng.strncasecmp_eq hdr.key (bytes ":status")
      then elim (ng.atoi hdr.value) [
        | none ↦ (false, r)
        | some code ↦ (succeeded (ng.set_resp_status r code).0, (ng.set_resp_status r code).1)
      ]
      else (succeeded plain.0, plain.1)

  -- The same for a list of headers, up to the first that is refused.
  unfoldable pub set_all : List Header → Request → Bool × Request
  unfolding set_one
  set_all [] r = (true, r)
  set_all (hdr ∷ hdrs) r =
      let rest = set_all hdrs (set_one hdr r).1 in
      if (set_one hdr r).0 then rest else (false, (set_one hdr r).1)

  set_resp_header-set_one :
      (hdr : Header) (h : Host)
      → set_resp_header ng hdr.key false (some hdr.value) false h
        ≡ ok (set_one hdr h.r).0 (with_r h (set_one hdr h.r).1)
  unfolding set_resp_header set_one
  set_resp_header-set_one hdr h =
      elim (Bool-cases (length hdr.key == 7 && ng.strncasecmp_eq hdr.key (bytes ":status"))) [
        | inr other ↦ rw other refl
        | inl status ↦ elim (Option-cases (ng.atoi hdr.value)) [
          | inl bad ↦ rw (status, bad) refl
          | inr (code, good) ↦ rw (status, good) refl
        ]
      ]

  -- On a well-formed map the loop sets the headers in order.
  set_headers-set_all :
      (k : ℕ) (it : Iter) (hs : List Header) (h : Host)
      → length hs < k
      → it.idx + length hs ≡ it.len
      → it.len < u32
      → Holds h.mem it.size_ptr it.data_ptr hs
      → it.size_ptr + 8 * length hs ≤ h.mem.size
      → it.data_ptr + text_size hs ≤ h.mem.size
      → text_size hs < half32
      → h.mem.size ≤ u32
      → set_headers ng k it h ≡ ok (set_all hs h.r).0 (with_r h (set_all hs h.r).1)
  unfolding set_headers set_all on_mem
  set_headers-set_all zero it hs h fuel e count holds a b short small = elim fuel [ ]
  set_headers-set_all (suc k) it [] h fuel e count holds a b short small =
      rw (next-done it h.mem (omega arith))
  set_headers-set_all (suc k) it (hdr ∷ hdrs) h fuel e count holds a b short small =
      let rest =
        set_headers-set_all k (stepped it hdr) hdrs (with_r h (set_one hdr h.r).1) (omega arith)
          (omega arith) count holds.1 (omega arith) (omega arith) (omega arith) small in
      rw
        (
          next-entry it hdr h.mem (omega arith) count holds.0 (omega arith) (omega arith)
              (omega arith) small,
          entry_texts-ok it.size_ptr it.data_ptr hdr h.mem holds.0 (omega arith),
          set_resp_header-set_one hdr h,
        )
        (elim (Bool-cases (set_one hdr h.r).0) [
          | inl accepted ↦ rw accepted rest
          | inr refused ↦ rw refused refl
        ])

  with_resp_headers-set_all :
      (p : ℕ) (hs : List Header) (rest : M Host ProxyResult) (h : Host)
      → HeadersAt h hs p
      → h.mem.size ≤ u32
      → (set_all hs h.r).0 ≡ true
      → with_resp_headers ng p (map_size hs) rest h ≡ rest (with_r h (set_all hs h.r).1)
  unfolding with_resp_headers on_mem
  with_resp_headers-set_all p hs rest h at small accepted =
      let fits = at.inside.fits in
      let low = at.inside.low in
      let given : positive (map_size hs) ≡ true = ground arith in
      let it : Iter = record {
        idx = 0;
        len = length hs;
        size_ptr = p + 4;
        data_ptr = p + 4 + 8 * length hs;
      } in
      rw (
        given,
        must_get_memory-Inside p (map_size hs) _ h at.inside,
        init_iter-ok p hs h.mem at.is_map fits (omega arith) small,
        set_headers-set_all (suc (length hs)) it hs h (omega arith) (omega arith) (omega arith)
            at.is_map.entries (omega arith) (omega arith) (omega arith) small,
        accepted,
      )

  put_resp_body-ok :
      (p n : ℕ) (h : Host)
      → ((k size : ℕ) → ng.palloc k size ≡ true)
      → Inside h p n
      → 0 < n
      → put_resp_body ng p n h
        ≡ ok result_ok (
            with_conf
              (ticked h (suc h.tick))
              (record (h.wmcf) { body_data = some (read h.mem p n) }))
  unfolding put_resp_body palloc on_mem
  put_resp_body-ok p n h room i pos =
      let low = i.low in
      let given : positive n ≡ true = ground arith in
      rw (given, must_get_memory-Inside p n _ h i, room, copy_out-ok p n h.mem i.fits)

  -- What a plugin answers reaches the request and the Lua code: with a well-formed map of headers that
  -- are all accepted, a body that is not empty, and memory for it, `proxy_send_local_response` gives
  -- PROXY_RESULT_OK, the headers are those of the response in their order, the status is the plugin's,
  -- and `ngx_http_wasm_fetch_local_body` gives the bytes that the plugin's memory held.
  pub send_local_response-fetch_local_body :
      (h : Host) (hs : List Header) (res_code body body_size headers : ℕ)
      → get_req h.cur_state ≡ true
      → ((k size : ℕ) → ng.palloc k size ≡ true)
      → HeadersAt h hs headers
      → h.mem.size ≤ u32
      → (set_all hs h.r).0 ≡ true
      → Inside h body body_size
      → 0 < body_size
      → Returns
          (λ res h'.
            (res ≡ result_ok)
            × (h'.r ≡ (set_all hs h.r).1)
            × (h'.wmcf.code ≡ res_code)
            × (fetch_local_body h'.wmcf ≡ some (body_size, some (read h.mem body body_size)))
            × (h'.mem ≡ h.mem))
          (send_local_response ng res_code body body_size headers (map_size hs) h)
  unfolding send_local_response must_get_req fetch_local_body
  send_local_response-fetch_local_body h hs res_code body body_size headers req room at small
        accepted i pos =
      let low = i.low in
      let size : sext64 body_size ≡ body_size = sext64_pos body_size (omega arith) in
      let some_body : (body_size == 0) ≡ false = ground arith in
      let h1 : Host = with_conf h (record (h.wmcf) { code = res_code; body_len = body_size }) in
      let at1 : HeadersAt h1 hs headers = record {
        inside = record { fits = at.inside.fits; low = at.inside.low };
        is_map = at.is_map;
      } in
      rw
        (
          req,
          size,
          with_resp_headers-set_all headers hs (put_resp_body ng body body_size) h1 at1 small
              accepted,
          put_resp_body-ok body body_size (with_r h1 (set_all hs h.r).1) room
              (record { fits = i.fits; low = i.low }) pos,
        )
        (returns (refl, refl, refl, rw some_body refl, refl))

  -- With a request, without headers (`headers_size` zero or negative), and with a positive length of a
  -- body that is not in the plugin's memory, `proxy_send_local_response` gives
  -- PROXY_RESULT_INVALID_MEMORY_ACCESS, but its length is set all the same: what
  -- `ngx_http_wasm_fetch_local_body` gives then is the data of an earlier answer, or NULL, with the
  -- length of this one.
  pub send_local_response_stale :
      (h : Host) (res_code body body_size headers headers_size : ℕ)
      → get_req h.cur_state ≡ true
      → positive headers_size ≡ false
      → positive body_size ≡ true
      → get_memory h.mem body body_size ≡ none
      → Returns
          (λ res h'.
            (res ≡ invalid_memory_access)
            × (h'.wmcf.code ≡ res_code)
            × (fetch_local_body h'.wmcf ≡ some (body_size, h.wmcf.body_data)))
          (send_local_response ng res_code body body_size headers headers_size h)
  unfolding send_local_response must_get_req fetch_local_body with_resp_headers put_resp_body
      must_get_memory get_mem
  send_local_response_stale h res_code body body_size headers headers_size req no_headers given
        outside =
      let size : sext64 body_size ≡ body_size = sext64_pos body_size (ground arith) in
      let some_body : (body_size == 0) ≡ false = ground arith in
      rw (req, size, no_headers, given, outside) (returns (refl, refl, rw some_body refl))
