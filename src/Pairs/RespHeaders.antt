-- ===== src/Pairs/RespHeaders.antt =====
-- What `ngx_http_wasm_resp_get_headers` of src/http/ngx_http_wasm_api.c hands to the plugin.
use wasm_nginx_module.Prelude.{
  ℕ, ◌+◌, ◌*◌, ◌%◌, ◌≤◌, ◌<◌, ◌≡◌, ◌≢◌, refl, sym, ap, subst, ◌∙◌, true, List, [], ◌∷◌, Option,
  none, some, arith, length, length-append, take, All,
}
use wasm_nginx_module.Words.{u32, half32, le32}
use wasm_nginx_module.Run.{M, ok, Returns, returns, bind, mono}
use wasm_nginx_module.Memory.{write, word}
use wasm_nginx_module.Memory.Laws.{size-write, write-SameBut, word-write, word-SameAt}
use wasm_nginx_module.Map.Layout.{Header, Holds, IsMap, text_size, map_size}
use wasm_nginx_module.Map.Build.{Filled}
use wasm_nginx_module.Map.Full.{start, first}
use wasm_nginx_module.Map.Stages.{text_size-append}
use wasm_nginx_module.Vm.{Engine}
use wasm_nginx_module.Host.{
  Host, Nginx, Request, TableElt, ProxyResult, result_ok, elements, IsList, ticked,
}
use wasm_nginx_module.Copy.{memory_alloc}
use wasm_nginx_module.Copy.Laws.{Block, get_buf_to_write-ok}
use wasm_nginx_module.SetHeader.{palloc}
use wasm_nginx_module.Pairs.{count_map}
use wasm_nginx_module.Pairs.Laws.{given, Answered, Answered-SameBut, on_mem-Returns, on_mem-start}
use wasm_nginx_module.Pairs.Response.{
  last_part, asked_length, asked_status, with_number, put_resp_headers, write_resp_headers,
  resp_get_headers,
}
use wasm_nginx_module.Pairs.ResponseLaws.{
  live, live-append, with_rest, length-with_rest, text_size-with_rest, count_parts-elements,
  with_rest_more, count_rest-with_rest, put_resp_headers-Puts,
}

-- The text of a number that is a header, and the allocations made for it.
abbrev pub number : Nginx → Option ℕ → Option (List ℕ)
number ng none = none
number ng (some n) = some (take 20 (ng.sprintf n))

abbrev pub allocations : Option ℕ → ℕ
allocations none = 0
allocations (some n) = 1

module _ (ng : Nginx) where
  -- The entries for a response with the elements `part` in the loop.
  abbrev pub resp_headers : Request → List TableElt → List Header
  resp_headers r part =
      with_rest (live ng part) r (number ng (asked_length r)) (number ng (asked_status r))

  -- All entries, which are counted, and those that are written.
  abbrev pub counted : Request → List Header
  counted r = resp_headers r (elements r.headers_out.part r.headers_out.next)

  abbrev pub written : Request → List Header
  written r = resp_headers r (last_part r.headers_out.part r.headers_out.next)

  -- Behind the allocation of the numbers.
  abbrev pub numbered : Host → Host
  numbered h = ticked h (h.tick + allocations (asked_length h.r) + allocations (asked_status h.r))

  -- The answer says that there is a map of the entries `hs`, in four bytes more than it takes, and the
  -- entries that stand there are `ws`.
  pub record Listed (h h' : Host) (buf addr size_addr : ℕ) (hs ws : List Header) : Type 0 where
    pub answered : Answered h h' buf (map_size hs + 4) addr size_addr
    pub count : word h'.mem buf ≡ length hs
    pub entries : Holds h'.mem (buf + 4) (buf + 4 + 8 * length hs) ws

module _ (ng : Nginx) (room : (n size : ℕ) → ng.palloc n size ≡ true) where
  with_number-ok :
      (asked : Option ℕ) (rest : Option (List ℕ) → M Host ProxyResult) (h : Host)
      → with_number ng asked rest h ≡ rest (number ng asked) (ticked h (h.tick + allocations asked))
  unfolding with_number palloc
  with_number-ok none rest h = ap (λ t. rest none (ticked h t)) (omega arith)
  with_number-ok (some n) rest h =
      rw room (ap (λ t. rest (some (take 20 (ng.sprintf n))) (ticked h t)) (omega arith))

module _ (ng : Nginx) where
  -- The last part is one of them, so that what is written is at most what is counted.
  last_live :
      (part : List TableElt) (next : List (List TableElt))
      → (length (live ng (last_part part next)) ≤ length (live ng (elements part next)))
        × (text_size (live ng (last_part part next)) ≤ text_size (live ng (elements part next)))
  unfolding last_part
  last_live part [] = (omega arith, omega arith)
  last_live part (part' ∷ next) =
      let e = live-append ng part (elements part' next) in
      let (l, t) = last_live part' next in
      (
        omega (arith, l, ap length e, length-append (live ng part) (live ng (elements part' next))),
        omega (
          arith,
          t,
          ap text_size e,
          text_size-append (live ng part) (live ng (elements part' next)),
        ),
      )

  written_small :
      (r : Request)
      → (length (written ng r) ≤ length (counted ng r))
        × (text_size (written ng r) ≤ text_size (counted ng r))
  written_small r =
      let (l, t) = last_live r.headers_out.part r.headers_out.next in
      (length-with_rest _ _ r _ _ l, text_size-with_rest _ _ r _ _ t)

  Listed-Filled :
      (h h2 : Host) (buf addr size_addr : ℕ) (hs ws : List Header)
      → Block h buf (map_size hs + 4) addr size_addr
      → map_size hs + 4 < half32
      → length ws ≤ length hs
      → text_size ws ≤ text_size hs
      → Filled
          (write (given h buf (map_size hs + 4) addr size_addr).mem buf (le32 (length hs)))
          h2.mem
          (buf + 4)
          (buf + 4 + 8 * length hs)
          ws
      → Listed ng h h2 buf addr size_addr hs ws
  unfolding le32
  Listed-Filled h h2 buf addr size_addr hs ws b short l t f = record {
    answered =
        Answered-SameBut h h2 buf (map_size hs + 4) addr size_addr b (omega arith)
          (λ x o. f.same x (omega arith) (omega arith) ∙ write-SameBut _ buf _ x (omega arith));
    count =
        word-SameAt
          (write (given h buf (map_size hs + 4) addr size_addr).mem buf (le32 (length hs))) h2.mem
          buf (λ x p q. f.same x (omega arith) (omega arith))
        ∙ word-write _ buf (length hs)
        ∙ omega arith;
    entries = f.holds;
  }

module _ (e : Engine) (ng : Nginx) where
  write_resp_headers-Listed :
      (h h' : Host) (buf addr size_addr : ℕ)
      → map_size (counted ng h.r) + 4 < half32
      → memory_alloc e (map_size (counted ng h.r) + 4) h ≡ ok buf h'
      → Block h' buf (map_size (counted ng h.r) + 4) addr size_addr
      → Returns
          (λ res h2.
            (res ≡ result_ok)
            × Listed ng h' h2 buf addr size_addr (counted ng h.r) (written ng h.r))
          (write_resp_headers e ng
            (length (counted ng h.r), text_size (counted ng h.r) + 4)
            (number ng (asked_length h.r))
            (number ng (asked_status h.r))
            addr
            size_addr
            h)
  unfolding write_resp_headers count_map
  write_resp_headers-Listed h h' buf addr size_addr short alloc b =
      let hs : List Header = counted ng h.r in
      let ws : List Header = written ng h.r in
      let size : (text_size hs + 4 + 4 + length hs * 2 * 4) % u32 ≡ map_size hs + 4 = omega arith in
      let g : Host = given h' buf (map_size hs + 4) addr size_addr in
      let z : g.mem.size ≡ h'.mem.size = size-write _ _ _ ∙ size-write _ _ _ in
      let fits = b.block.fits in
      let small = b.small in
      let (l, t) = written_small ng h.r in
      rw
        (
          size,
          get_buf_to_write-ok e h h' buf (map_size hs + 4) addr size_addr alloc b,
          on_mem-start buf (length hs) g (omega arith) (omega arith) (omega arith),
        )
        (bind
          (on_mem-Returns
            (put_resp_headers ng h.r (number ng (asked_length h.r)) (number ng (asked_status h.r))
              (start (first buf (length hs))))
            _
            (put_resp_headers-Puts ng h.r (number ng (asked_length h.r))
              (number ng (asked_status h.r)) (start (first buf (length hs)))
              (write g.mem buf (le32 (length hs)))
              (let y = size-write g.mem buf (le32 (length hs)) in
                record {
                  entries = omega arith;
                  count = omega arith;
                  apart = omega arith;
                  inside = omega arith;
                  short = omega arith;
                  small = omega arith;
                })))
          λ s h2 ((f, it), same).
            returns (refl, Listed-Filled ng h' h2 buf addr size_addr hs ws b short l t f))

module _ (e : Engine) (ng : Nginx) (keeps : (k : List ℕ) → length (ng.strlow k) ≡ length k)
    (room : (n size : ℕ) → ng.palloc n size ≡ true) where
  -- What the plugin gets of the response's headers, where memory is given out and lower-casing keeps
  -- the length of a name: PROXY_RESULT_OK and a map whose count is that of all headers of all parts of
  -- nginx's list and the five that the host makes up, in a block with four bytes too many. Of the list
  -- only the last part's headers are written, with the made-up ones behind them.
  pub resp_get_headers-Listed :
      (h h' : Host) (buf addr size_addr : ℕ)
      → IsList h.r.headers_out
      → map_size (counted ng h.r) + 4 < half32
      → memory_alloc e (map_size (counted ng h.r) + 4) (numbered ng h) ≡ ok buf h'
      → Block h' buf (map_size (counted ng h.r) + 4) addr size_addr
      → Returns
          (λ res h2.
            (res ≡ result_ok)
            × Listed ng h' h2 buf addr size_addr (counted ng h.r) (written ng h.r))
          (resp_get_headers e ng addr size_addr h)
  unfolding resp_get_headers
  resp_get_headers-Listed h h' buf addr size_addr list short alloc b =
      let r = h.r in
      let all = live ng (elements r.headers_out.part r.headers_out.next) in
      let (few, small) =
        with_rest_more all r (number ng (asked_length r)) (number ng (asked_status r)) in
      rw
        (
          count_parts-elements ng keeps r.headers_out.part r.headers_out.next h list
              (omega (arith, short, few)) (omega (arith, short, small)),
          with_number-ok ng room (asked_length r) _ h,
          with_number-ok ng room (asked_status r) _
              (ticked h (h.tick + allocations (asked_length r))),
          count_rest-with_rest all r (number ng (asked_length r)) (number ng (asked_status r))
              (omega (arith, short)) (omega (arith, short)),
        )
        (write_resp_headers-Listed e ng (numbered ng h) h' buf addr size_addr short alloc b)

  -- Where nginx's list has one part, what the plugin gets is a well-formed map of all the response's
  -- headers, those that the host makes up included.
  pub resp_get_headers-IsMap :
      (h h' : Host) (buf addr size_addr : ℕ)
      → h.r.headers_out.next ≡ []
      → map_size (counted ng h.r) + 4 < half32
      → memory_alloc e (map_size (counted ng h.r) + 4) (numbered ng h) ≡ ok buf h'
      → Block h' buf (map_size (counted ng h.r) + 4) addr size_addr
      → Returns
          (λ res h2.
            (res ≡ result_ok)
            × (word h2.mem addr ≡ buf)
            × IsMap h2.mem buf (resp_headers ng h.r h.r.headers_out.part))
          (resp_get_headers e ng addr size_addr h)
  unfolding last_part
  resp_get_headers-IsMap h h' buf addr size_addr one short alloc b =
      let list : IsList h.r.headers_out = subst (All (λ part. part ≢ [])) (sym one) tt in
      mono (resp_get_headers-Listed h h' buf addr size_addr list short alloc b) λ res h2 (ok', l).
        let all : counted ng h.r ≡ resp_headers ng h.r h.r.headers_out.part =
          ap (λ x. resp_headers ng h.r (elements h.r.headers_out.part x)) one in
        let last : written ng h.r ≡ resp_headers ng h.r h.r.headers_out.part =
          ap (λ x. resp_headers ng h.r (last_part h.r.headers_out.part x)) one in
        (
          ok',
          l.answered.address,
          record {
            count = l.count ∙ ap length all;
            entries =
                subst
                  (λ n.
                    Holds h2.mem (buf + 4) (buf + 4 + 8 * n)
                      (resp_headers ng h.r h.r.headers_out.part))
                  (ap length all)
                  (subst (λ ws. Holds h2.mem (buf + 4) (buf + 4 + 8 * length (counted ng h.r)) ws)
                    last l.entries);
          },
        )
