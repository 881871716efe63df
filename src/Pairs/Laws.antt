-- ===== src/Pairs/Laws.antt =====
-- What `ngx_http_wasm_http_call_resp_get_headers` and `ngx_http_wasm_req_get_headers` of
-- src/http/ngx_http_wasm_api.c hand to the plugin: a map that reads back as the headers.
use wasm_nginx_module.Prelude.{
  ℕ, suc, ◌+◌, ◌*◌, ◌%◌, ◌≤◌, ◌<◌, ◌≡◌, ◌≢◌, refl, ◌∙◌, ◌⊎◌, false, List, [], ◌∷◌, ◌++◌, arith,
  length, ◌==◌,
}
use wasm_nginx_module.Words.{u32, half32, le32}
use wasm_nginx_module.Run.{
  Run, M, and_then, ok, fault, out_of_fuel, ◌>>=◌, ◌>>◌, Returns, returns, bind,
}
use wasm_nginx_module.Memory.{Memory, write, word}
use wasm_nginx_module.Memory.Laws.{SameBut, size-write, write-SameBut, word-write, word-SameAt}
use wasm_nginx_module.Map.{Slot, init_map, init_iter}
use wasm_nginx_module.Map.Layout.{Header, IsMap, text_size, map_size}
use wasm_nginx_module.Map.Build.{put_headers, put_headers-append}
use wasm_nginx_module.Map.Full.{start, first, init_iter-first, Written, put_headers-Written}
use wasm_nginx_module.Map.Walk.{read_map, read_map-IsMap}
use wasm_nginx_module.Vm.{Engine}
use wasm_nginx_module.Host.{Host, result_ok, on_mem, with_mem, after_mem}
use wasm_nginx_module.Copy.{memory_alloc}
use wasm_nginx_module.Copy.Laws.{Block, get_buf_to_write-ok}
use wasm_nginx_module.Pairs.{count_texts, count_map, http_call_resp_get_headers}

pub count_texts-text_size :
    (hs : List Header) (size : ℕ)
    → size + text_size hs < u32
    → count_texts hs size ≡ size + text_size hs
unfolding count_texts
count_texts-text_size [] size h = omega arith
count_texts-text_size (x ∷ hs) size h =
    let small : (size + length x.key + length x.value + 2) % u32
        ≡ size + length x.key + length x.value + 2 =
      omega arith in
    rw small (count_texts-text_size hs _ (omega arith) ∙ omega arith)

-- The size that the getters count is that of the map.
pub count_map-map_size :
    (hs : List Header) → map_size hs < u32 → count_map (length hs) (count_texts hs 0) ≡ map_size hs
unfolding count_map
count_map-map_size hs h = rw (count_texts-text_size hs 0 (omega arith)) (omega arith)

-- A function on the memory leaves the rest of the host alone.
after_mem-Returns :
    {A : Type 0} {P : A → Memory → Type 0} {r : Run Memory A} (h : Host)
    → Returns P r
    → Returns (λ a h'. P a h'.mem × (h' ≡ with_mem h h'.mem)) (after_mem h r)
after_mem-Returns h (returns p) = returns (p, refl)

pub on_mem-Returns :
    {A : Type 0} {P : A → Memory → Type 0} (f : M Memory A) (h : Host)
    → Returns P (f h.mem)
    → Returns (λ a h'. P a h'.mem × (h' ≡ with_mem h h'.mem)) (on_mem f h)
unfolding on_mem
on_mem-Returns f h r = after_mem-Returns h r

-- The plugin has been handed the headers `hs`: the cells hold the address and the size of a block,
-- the block is their map, and no other byte has changed since the allocation at `h`.
pub record Handed (h h' : Host) (buf addr size_addr : ℕ) (hs : List Header) : Type 0 where
  pub address : word h'.mem addr ≡ buf
  pub size : word h'.mem size_addr ≡ map_size hs
  pub is_map : IsMap h'.mem buf hs
  pub others :
      (x : ℕ)
      → (x < buf) ⊎ (buf + map_size hs ≤ x)
      → (x < addr) ⊎ (addr + 4 ≤ x)
      → (x < size_addr) ⊎ (size_addr + 4 ≤ x)
      → h'.mem.byte x ≡ h.mem.byte x

-- The host behind `ngx_http_wasm_get_buf_to_write`.
abbrev pub given : Host → ℕ → ℕ → ℕ → ℕ → Host
given h buf len addr size_addr =
    with_mem h (write (write h.mem addr (le32 buf)) size_addr (le32 len))

-- The cells of the answer behind a change of the block, and the bytes outside of all three.
pub record Answered (h h' : Host) (buf len addr size_addr : ℕ) : Type 0 where
  pub address : word h'.mem addr ≡ buf
  pub size : word h'.mem size_addr ≡ len
  pub others :
      (x : ℕ)
      → (x < buf) ⊎ (buf + len ≤ x)
      → (x < addr) ⊎ (addr + 4 ≤ x)
      → (x < size_addr) ⊎ (size_addr + 4 ≤ x)
      → h'.mem.byte x ≡ h.mem.byte x

pub Answered-SameBut :
    (h h2 : Host) (buf len addr size_addr : ℕ)
    → Block h buf len addr size_addr
    → len < u32
    → SameBut buf len (given h buf len addr size_addr).mem h2.mem
    → Answered h h2 buf len addr size_addr
unfolding le32
Answered-SameBut h h2 buf len addr size_addr b small same = record {
  address =
      word-SameAt (write h.mem addr (le32 buf)) _ addr
        (λ x p q. same x (omega arith) ∙ write-SameBut _ size_addr _ x (omega arith))
      ∙ word-write h.mem addr buf
      ∙ omega arith;
  size =
      word-SameAt (given h buf len addr size_addr).mem _ size_addr (λ x p q. same x (omega arith))
      ∙ word-write _ size_addr len
      ∙ omega arith;
  others = λ x p q r.
      same x (omega arith)
      ∙ write-SameBut _ size_addr _ x (omega arith)
      ∙ write-SameBut _ addr _ x (omega arith);
}

pub Handed-Written :
    (h h2 : Host) (buf addr size_addr : ℕ) (hs : List Header)
    → Block h buf (map_size hs) addr size_addr
    → map_size hs < u32
    → Written (given h buf (map_size hs) addr size_addr).mem h2.mem buf hs
    → Handed h h2 buf addr size_addr hs
Handed-Written h h2 buf addr size_addr hs b small w =
    let a = Answered-SameBut h h2 buf (map_size hs) addr size_addr b small w.same in
    record { address = a.address; size = a.size; is_map = w.is_map; others = a.others }

after_mem-with_mem :
    {A : Type 0} (h : Host) (m : Memory) (r : Run Memory A)
    → after_mem (with_mem h m) r ≡ after_mem h r
after_mem-with_mem h m (ok a s) = refl
after_mem-with_mem h m fault = refl
after_mem-with_mem h m out_of_fuel = refl

after_mem_bind :
    {A B C : Type 0} (h : Host) (r : Run Memory A) (k : A → M Memory B) (rest : B → M Host C)
    → and_then (after_mem h r) (λ a h'. and_then (after_mem h' (k a h'.mem)) rest)
      ≡ and_then (after_mem h (and_then r k)) rest
after_mem_bind h (ok a m) k rest = rw (after_mem-with_mem h m (k a m))
after_mem_bind h fault k rest = refl
after_mem_bind h out_of_fuel k rest = refl

-- Two loops in a row on the memory are one over both lists.
pub on_mem-append :
    {A : Type 0} (s : Slot) (hs ks : List Header) (rest : M Host A) (h : Host)
    → (on_mem (put_headers s hs) >>= λ s'. on_mem (put_headers s' ks) >> rest) h
      ≡ (on_mem (put_headers s (hs ++ ks)) >> rest) h
unfolding on_mem
on_mem-append s hs ks rest h =
    after_mem_bind h (put_headers s hs h.mem) (λ s'. put_headers s' ks) (λ _. rest)
    ∙ rw (put_headers-append s hs ks h.mem)

pub on_mem-start :
    (p n : ℕ) (h : Host)
    → 2 * n < half32
    → p + 4 + 8 * n ≤ h.mem.size
    → h.mem.size ≤ u32
    → on_mem (init_map p n >> init_iter p) h ≡ ok (first p n) (with_mem h (write h.mem p (le32 n)))
unfolding on_mem
on_mem-start p n h few room small = rw (init_iter-first p n h.mem few room small)

module _ (e : Engine) where
  -- The headers of an HTTP call's response reach the plugin: whenever there are some and the plugin's
  -- allocator gives a block, the call returns, and the plugin holds their map.
  pub http_call_resp_get_headers-Handed :
      (h h' : Host) (buf addr size_addr : ℕ)
      → h.ctx.call_resp_headers ≢ []
      → map_size h.ctx.call_resp_headers < half32
      → memory_alloc e (map_size h.ctx.call_resp_headers) h ≡ ok buf h'
      → Block h' buf (map_size h.ctx.call_resp_headers) addr size_addr
      → Returns
          (λ r h2. (r ≡ result_ok) × Handed h' h2 buf addr size_addr h.ctx.call_resp_headers)
          (http_call_resp_get_headers e addr size_addr h)
  unfolding http_call_resp_get_headers
  http_call_resp_get_headers-Handed h h' buf addr size_addr ne short alloc b =
      let hs : List Header = h.ctx.call_resp_headers in
      let g : Host = given h' buf (map_size hs) addr size_addr in
      let some_headers : (length hs == 0) ≡ false = ground arith in
      let z : g.mem.size ≡ h'.mem.size = size-write _ _ _ ∙ size-write _ _ _ in
      rw
        (
          some_headers,
          count_map-map_size hs (omega arith),
          get_buf_to_write-ok e h h' buf (map_size hs) addr size_addr alloc b,
          on_mem-start buf (length hs) g (omega arith) (omega (arith, b.block.fits))
              (omega (arith, b.small)),
        )
        (bind
          (on_mem-Returns (put_headers (start (first buf (length hs))) hs) _ (
            put_headers-Written buf hs g.mem (omega (arith, b.block.fits)) short
              (omega (arith, b.small))))
          λ s h2 (w, same).
            returns (refl, Handed-Written h' h2 buf addr size_addr hs b (omega arith) w))

-- What has been handed over reads back, by the host's own reader of maps, as the headers.
pub read_map-Handed :
    (h h' : Host) (buf addr size_addr : ℕ) (hs : List Header)
    → Handed h h' buf addr size_addr hs
    → buf + map_size hs ≤ h'.mem.size
    → map_size hs < half32
    → h'.mem.size ≤ u32
    → read_map (suc (length hs)) (word h'.mem addr) h'.mem ≡ ok hs h'.mem
read_map-Handed h h' buf addr size_addr hs d room short small =
    rw d.address (read_map-IsMap buf hs h'.mem d.is_map room short small)
