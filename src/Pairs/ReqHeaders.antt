-- ===== src/Pairs/ReqHeaders.antt =====
-- What `ngx_http_wasm_req_get_headers` of src/http/ngx_http_wasm_api.c hands to the plugin: one map
-- of the request's headers and, behind them, the four pseudo headers.
use wasm_nginx_module.Prelude.{
  ℕ, ◌+◌, ◌*◌, ◌%◌, ◌<◌, ◌≡◌, ◌≢◌, refl, ◌∙◌, inl, inr, true, false, List, [], ◌∷◌, ◌++◌, some,
  arith, length, ◌==◌, length-append, leb, Option-cases, Option-cases,
}
use wasm_nginx_module.Words.{u32, half32, is_neg32}
use wasm_nginx_module.Run.{ok, pure, Returns, returns, bind}
use wasm_nginx_module.Memory.Laws.{size-write}
use wasm_nginx_module.Map.Layout.{Header, text_size, map_size}
use wasm_nginx_module.Map.Build.{put_headers}
use wasm_nginx_module.Map.Full.{start, first, put_headers-Written}
use wasm_nginx_module.Vm.{Engine}
use wasm_nginx_module.Host.{Host, Nginx, Request, result_ok}
use wasm_nginx_module.Copy.{memory_alloc}
use wasm_nginx_module.Copy.Laws.{Block, get_buf_to_write-ok, take-length}
use wasm_nginx_module.Pseudo.{PseudoHeader, req_table}
use wasm_nginx_module.Pairs.{
  count_texts, count_map, get_string_buf, fetch_req_headers, write_req_headers, pseudo_headers,
  req_get_headers, ffi_bad_context,
}
use wasm_nginx_module.Pairs.Laws.{
  count_texts-text_size, on_mem-Returns, on_mem-start, Handed, given, Handed-Written, on_mem-append,
}

text_size-append : (hs ks : List Header) → text_size (hs ++ ks) ≡ text_size hs + text_size ks
text_size-append [] ks = omega arith
text_size-append (h ∷ hs) ks = omega (arith, text_size-append hs ks)

module _ (e : Engine) (ng : Nginx) where
  length-pseudo_headers :
      (whs : List PseudoHeader) (r : Request) (ps : List Header)
      → pseudo_headers ng whs r ≡ some ps
      → length ps ≡ length whs
  unfolding pseudo_headers
  length-pseudo_headers [] r ps eq = ground arith
  length-pseudo_headers (wh ∷ whs) r ps eq = elim (Option-cases (pseudo_headers ng whs r)) [
    | inl e ↦ ground arith
    | inr (qs, e) ↦ ground (arith, length-pseudo_headers whs r qs e)
  ]

  write_req_headers-Handed :
      (h h' : Host) (buf addr size_addr : ℕ) (hs ps : List Header)
      → pseudo_headers ng req_table h.r ≡ some ps
      → map_size (hs ++ ps) < half32
      → memory_alloc e (map_size (hs ++ ps)) h ≡ ok buf h'
      → Block h' buf (map_size (hs ++ ps)) addr size_addr
      → Returns
          (λ r h2. (r ≡ result_ok) × Handed h' h2 buf addr size_addr (hs ++ ps))
          (write_req_headers e ng (length hs) hs addr size_addr h)
  unfolding write_req_headers count_map
  write_req_headers-Handed h h' buf addr size_addr hs ps pseudo short alloc b =
      let four : length ps ≡ 4 = length-pseudo_headers req_table h.r ps pseudo in
      let n : length (hs ++ ps) ≡ length hs + length ps = length-append hs ps in
      let t : text_size (hs ++ ps) ≡ text_size hs + text_size ps = text_size-append hs ps in
      let count : (length hs + 4) % u32 ≡ length (hs ++ ps) = omega arith in
      let texts : count_texts ps (count_texts hs 0) ≡ text_size (hs ++ ps) =
        rw (count_texts-text_size hs 0 (omega arith))
          (count_texts-text_size ps (0 + text_size hs) (omega arith) ∙ omega arith) in
      let size : (text_size (hs ++ ps) + 4 + length (hs ++ ps) * 2 * 4) % u32
          ≡ map_size (hs ++ ps) =
        omega arith in
      let g : Host = given h' buf (map_size (hs ++ ps)) addr size_addr in
      let z : g.mem.size ≡ h'.mem.size = size-write _ _ _ ∙ size-write _ _ _ in
      let fits = b.block.fits in
      let small = b.small in
      rw
        (
          pseudo,
          write_req_headers,
          count,
          texts,
          size,
          get_buf_to_write-ok e h h' buf (map_size (hs ++ ps)) addr size_addr alloc b,
          count,
          on_mem-start buf (length (hs ++ ps)) g (omega arith) (omega arith) (omega arith),
        )
        (rw (on_mem-append (start (first buf (length (hs ++ ps)))) hs ps (pure result_ok) _) (
          bind
            (on_mem-Returns (put_headers (start (first buf (length (hs ++ ps)))) (hs ++ ps)) _
              (put_headers-Written buf (hs ++ ps) g.mem (omega arith) short (omega arith)))
            λ s h2 (w, same).
              returns (refl, Handed-Written h' h2 buf addr size_addr (hs ++ ps) b (omega arith) w)))

  -- Where the request's headers are fetched, `count` of them, the whole getter goes on to write them.
  fetched :
      (h h1 : Host) (hs : List Header)
      → ng.get_req_headers_count h.r ≡ length hs
      → length hs < half32
      → ng.get_req_headers h.r ≡ some hs
      → get_string_buf ng (length hs * 32) h ≡ ok true h1
      → hs ≢ []
      → fetch_req_headers ng (length hs) h ≡ ok (result_ok, hs) h1
  unfolding fetch_req_headers
  fetched h h1 hs count few got room ne =
      let a : (length hs == 0) ≡ false = ground arith in
      let b : is_neg32 (length hs) ≡ false = ground arith in
      let c : leb (length hs) (length hs) ≡ true = ground arith in
      rw (a, b, room, got, c, take-length hs)

  -- The request's headers reach the plugin, where there are some, nginx counts as many as it then gives,
  -- there is memory for fetching them, and each of the four pseudo headers can be read, so that the
  -- request has a Host: with an allocator that gives a block for a map of less than 2 GiB, the call
  -- returns, and the plugin holds one map of the headers with the four pseudo headers behind.
  pub req_get_headers-Handed :
      (h h1 h' : Host) (buf addr size_addr : ℕ) (hs ps : List Header)
      → ng.get_req_headers_count h.r ≡ length hs
      → hs ≢ []
      → get_string_buf ng (length hs * 32) h ≡ ok true h1
      → ng.get_req_headers h.r ≡ some hs
      → pseudo_headers ng req_table h1.r ≡ some ps
      → map_size (hs ++ ps) < half32
      → memory_alloc e (map_size (hs ++ ps)) h1 ≡ ok buf h'
      → Block h' buf (map_size (hs ++ ps)) addr size_addr
      → Returns
          (λ r h2. (r ≡ result_ok) × Handed h' h2 buf addr size_addr (hs ++ ps))
          (req_get_headers e ng addr size_addr h)
  unfolding req_get_headers
  req_get_headers-Handed h h1 h' buf addr size_addr hs ps count ne room got pseudo short alloc b =
      let n : length (hs ++ ps) ≡ length hs + length ps = length-append hs ps in
      let few : length hs < half32 = omega arith in
      let right : (length hs == ffi_bad_context) ≡ false = ground arith in
      rw (count, right, fetched h h1 hs count few got room ne, count)
        (write_req_headers-Handed h1 h' buf addr size_addr hs ps pseudo short alloc b)
