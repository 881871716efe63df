-- ===== src/Copy/Laws.antt =====
-- What `ngx_http_wasm_copy_to_wasm` and `ngx_http_wasm_get_buf_to_write` of
-- src/http/ngx_http_wasm_api.c leave in the plugin's memory, on each of their ways out.
use wasm_nginx_module.Prelude.{
  Bool-cases, inl, inr, ℕ, ◌+◌, suc, ◌-◌, ◌≤◌, ◌<◌, ◌≡◌, ◌≢◌, refl, ◌∙◌, ◌⊎◌, false, true, List, [],
  ◌∷◌, none, some, arith, length, take, leb, ◌==◌,
}
use wasm_nginx_module.Words.{u32, u64, half32, add32, sext64, sext64_pos, le32}
use wasm_nginx_module.Run.{M, ok, fault, Returns, returns}
use wasm_nginx_module.Memory.{Memory, write, read, word, copy_in, store32, get_memory}
use wasm_nginx_module.Memory.Laws.{
  size-write, write-SameBut, read-write, word-write, read-SameAt, word-SameAt, copy_in-ok,
  store32-ok, get_memory_inside,
}
use wasm_nginx_module.Vm.{Engine, trapped, ngx_error}
use wasm_nginx_module.Host.{
  Host, ProxyResult, result_ok, internal_failure, invalid_memory_access, on_mem, get_mem,
  must_get_memory, with_mem,
}
use wasm_nginx_module.Copy.{memory_alloc, copy_from_host, copy_to_wasm, get_buf_to_write}

pub take-length {ℓ} : {A : Type ℓ} (xs : List A) → take (length xs) xs ≡ xs
take-length [] = refl
take-length (x ∷ xs) = rw (take-length xs)

pub on_mem-copy_in :
    (p : ℕ) (bs : List ℕ) (h : Host)
    → p + length bs ≤ h.mem.size
    → on_mem (copy_in p bs) h ≡ ok tt (with_mem h (write h.mem p bs))
unfolding on_mem
on_mem-copy_in p bs h room = rw (copy_in-ok p bs h.mem room, on_mem)

pub on_mem-store32 :
    (p w : ℕ) (h : Host)
    → p + 4 ≤ h.mem.size
    → on_mem (store32 p w) h ≡ ok tt (with_mem h (write h.mem p (le32 w)))
unfolding on_mem
on_mem-store32 p w h room = rw (store32-ok p w h.mem room, on_mem)

-- The range lies in the memory, below 2 GiB.
pub record Inside (h : Host) (addr size : ℕ) : Type 0 where
  pub fits : addr + size ≤ h.mem.size
  pub low : addr + size < half32

pub get_mem-Inside :
    (addr size : ℕ) (h : Host) → Inside h addr size → get_mem addr size h ≡ ok (some addr) h
unfolding get_mem
get_mem-Inside addr size h i = rw (get_memory_inside h.mem addr size i.fits i.low)

pub must_get_memory-Inside :
    (addr size : ℕ) (rest : ℕ → M Host ProxyResult) (h : Host)
    → Inside h addr size
    → must_get_memory addr size rest h ≡ rest addr h
unfolding must_get_memory
must_get_memory-Inside addr size rest h i = rw (get_mem-Inside addr size h i)

-- The two ranges have no address in common.
abbrev pub Apart : ℕ → ℕ → ℕ → ℕ → Type 0
Apart a n b k = (a + n ≤ b) ⊎ (b + k ≤ a)

-- What a host function relies on when the plugin's allocator has given out `len` bytes at `buf`: a
-- block in memory that is not NULL and not over the two cells of the answer.
pub record Block (h : Host) (buf len addr size_addr : ℕ) : Type 0 where
  pub not_null : buf ≢ 0
  pub block : Inside h buf len
  pub addr_cell : Inside h addr 4
  pub size_cell : Inside h size_addr 4
  pub block_addr : Apart buf len addr 4
  pub block_size : Apart buf len size_addr 4
  pub addr_size : Apart addr 4 size_addr 4
  pub small : h.mem.size ≤ u32

-- An allocation from `h` to `h'` that leaves the length in the answer's cell alone.
pub record Allocated (h h' : Host) (buf len addr size_addr : ℕ) : Type 0 where
  pub gives : Block h' buf len addr size_addr
  pub open gives use *
  pub kept : word h'.mem size_addr ≡ word h.mem size_addr

-- The answer of a host function that hands `bs` over: the address of a block with the bytes in the
-- one cell, their number in the other, and no other byte of the memory changed.
pub record HandedOver (h h' : Host) (buf addr size_addr : ℕ) (bs : List ℕ) : Type 0 where
  pub address : word h'.mem addr ≡ buf
  pub size : word h'.mem size_addr ≡ length bs
  pub bytes : read h'.mem buf (length bs) ≡ bs
  pub others :
      (x : ℕ)
      → (x < buf) ⊎ (buf + length bs ≤ x)
      → (x < addr) ⊎ (addr + 4 ≤ x)
      → h'.mem.byte x ≡ h.mem.byte x

-- The memory behind a successful answer.
abbrev pub answered : Host → ℕ → ℕ → List ℕ → Host
answered h buf addr bs = with_mem h (write (write h.mem buf bs) addr (le32 buf))

answered-HandedOver :
    (h h' : Host) (buf addr size_addr : ℕ) (bs : List ℕ)
    → Allocated h h' buf (length bs) addr size_addr
    → word h.mem size_addr ≡ length bs
    → HandedOver h' (answered h' buf addr bs) buf addr size_addr bs
unfolding le32
answered-HandedOver h h' buf addr size_addr bs a size = record {
  address = word-write _ addr buf ∙ omega arith;
  size =
      word-SameAt h'.mem _ size_addr (λ x p q.
        write-SameBut _ addr _ x (omega arith) ∙ write-SameBut h'.mem buf bs x (omega arith))
      ∙ a.kept
      ∙ size;
  bytes =
      read-SameAt (write h'.mem buf bs) _ buf (length bs)
        (λ x p q. write-SameBut _ addr _ x (omega arith))
      ∙ read-write h'.mem buf bs;
  others =
      λ x p q. write-SameBut _ addr _ x (omega arith) ∙ write-SameBut h'.mem buf bs x (omega arith);
}

-- `bs` is what a copy of its length takes from a host buffer that holds `host_data`.
pub record IsPrefix (bs host_data : List ℕ) : Type 0 where
  pub fits : length bs ≤ length host_data
  pub taken : take (length bs) host_data ≡ bs

module _ (e : Engine) where
  copy_from_host-ok :
      (buf : ℕ) (host_data bs : List ℕ) (h : Host)
      → IsPrefix bs host_data
      → buf + length bs ≤ h.mem.size
      → length bs < half32
      → copy_from_host e buf host_data (length bs) h ≡ ok tt (with_mem h (write h.mem buf bs))
  unfolding copy_from_host
  copy_from_host-ok buf host_data bs h part room short =
      let all : leb (length bs) (length host_data) ≡ true = ground (arith, part.fits) in
      rw (sext64_pos (length bs) short, all, part.taken, on_mem-copy_in buf bs h room)

  -- With an allocator that gives a block, the first bytes of the host's buffer arrive: the block holds
  -- them, the two cells its address and their number, and nothing else has changed since the allocation.
  pub copy_to_wasm-IsPrefix :
      (h h' : Host) (buf addr size_addr : ℕ) (host_data bs : List ℕ)
      → IsPrefix bs host_data
      → bs ≢ []
      → length bs < half32
      → Inside h size_addr 4
      → memory_alloc e (length bs) (with_mem h (write h.mem size_addr (le32 (length bs))))
        ≡ ok buf h'
      → Allocated
          (with_mem h (write h.mem size_addr (le32 (length bs))))
          h'
          buf
          (length bs)
          addr
          size_addr
      → Returns
          (λ r h2. (r ≡ result_ok) × HandedOver h' h2 buf addr size_addr bs)
          (copy_to_wasm e host_data (length bs) addr size_addr h)
  unfolding copy_to_wasm
  copy_to_wasm-IsPrefix h h' buf addr size_addr host_data bs part ne short cell alloc a =
      let some_bytes : (length bs == 0) ≡ false = ground arith in
      let some_block : (buf == 0) ≡ false = ground (arith, a.not_null) in
      rw
        (
          must_get_memory-Inside size_addr 4 _ h cell,
          on_mem-store32 size_addr (length bs) h cell.fits,
          some_bytes,
          alloc,
          some_block,
          must_get_memory-Inside buf (length bs) _ h' a.block,
          copy_from_host-ok buf host_data bs h' part a.block.fits short,
          must_get_memory-Inside addr 4 _ (with_mem h' (write h'.mem buf bs))
              (record { fits = omega (arith, size-write h'.mem buf bs); low = a.addr_cell.low }),
          on_mem-store32 addr buf (with_mem h' (write h'.mem buf bs))
              (omega (arith, size-write h'.mem buf bs, a.addr_cell.fits)),
        )
        (returns (
          refl,
          answered-HandedOver _ h' buf addr size_addr bs a
              (word-write h.mem size_addr (length bs) ∙ omega arith),
        ))

  -- A whole value reaches the plugin: with an allocator that gives a block, the call returns, the block
  -- holds the bytes, the two cells its address and length, and nothing else has changed since the
  -- allocation.
  pub copy_to_wasm-HandedOver :
      (h h' : Host) (buf addr size_addr : ℕ) (bs : List ℕ)
      → bs ≢ []
      → length bs < half32
      → Inside h size_addr 4
      → memory_alloc e (length bs) (with_mem h (write h.mem size_addr (le32 (length bs))))
        ≡ ok buf h'
      → Allocated
          (with_mem h (write h.mem size_addr (le32 (length bs))))
          h'
          buf
          (length bs)
          addr
          size_addr
      → Returns
          (λ r h2. (r ≡ result_ok) × HandedOver h' h2 buf addr size_addr bs)
          (copy_to_wasm e bs (length bs) addr size_addr h)
  copy_to_wasm-HandedOver h h' buf addr size_addr bs =
      copy_to_wasm-IsPrefix h h' buf addr size_addr bs bs
        (record { fits = omega arith; taken = take-length bs })

  -- The ways out on which nothing is handed over: a bad cell for the length leaves the host as it is,
  -- an empty value writes its length only, and an allocator that gives NULL twice is a failure.
  pub copy_to_wasm_refused :
      (h h' : Host) (addr size_addr : ℕ) (bs : List ℕ) (len : ℕ)
      → (get_memory h.mem size_addr 4 ≡ none
          → copy_to_wasm e bs len addr size_addr h ≡ ok invalid_memory_access h)
        × (Inside h size_addr 4
            → copy_to_wasm e bs 0 addr size_addr h
              ≡ ok result_ok (with_mem h (write h.mem size_addr (le32 0))))
        × (Inside h size_addr 4
            → len ≢ 0
            → memory_alloc e len (with_mem h (write h.mem size_addr (le32 len))) ≡ ok 0 h'
            → copy_to_wasm e bs len addr size_addr h ≡ ok internal_failure h')
  unfolding copy_to_wasm
  copy_to_wasm_refused h h' addr size_addr bs len = (
    λ bad. rw (must_get_memory, get_mem, bad) refl,
    λ cell.
        rw (must_get_memory-Inside size_addr 4 _ h cell, on_mem-store32 size_addr 0 h cell.fits),
    λ cell ne alloc.
        let some_bytes : (len == 0) ≡ false = ground (arith, ne) in
        rw (
          must_get_memory-Inside size_addr 4 _ h cell,
          on_mem-store32 size_addr len h cell.fits,
          some_bytes,
          alloc,
        ),
  )

  -- A buffer for the caller to fill: its address and length are in the two cells, and no other byte
  -- has changed since the allocation.
  pub get_buf_to_write-ok :
      (h h' : Host) (buf len addr size_addr : ℕ)
      → memory_alloc e len h ≡ ok buf h'
      → Block h' buf len addr size_addr
      → get_buf_to_write e len addr size_addr h
        ≡ ok (some buf) (with_mem h' (write (write h'.mem addr (le32 buf)) size_addr (le32 len)))
  unfolding get_buf_to_write
  get_buf_to_write-ok h h' buf len addr size_addr alloc b =
      let some_block : (buf == 0) ≡ false = ground (arith, b.not_null) in
      let h2 : Host = with_mem h' (write h'.mem addr (le32 buf)) in
      let z : h2.mem.size ≡ h'.mem.size = size-write h'.mem addr (le32 buf) in
      rw (
        alloc,
        some_block,
        get_mem-Inside buf len h' b.block,
        get_mem-Inside addr 4 h' b.addr_cell,
        on_mem-store32 addr buf h' b.addr_cell.fits,
        get_mem-Inside size_addr 4 h2
            (record { fits = omega (arith, z, b.size_cell.fits); low = b.size_cell.low }),
        on_mem-store32 size_addr len h2 (omega (arith, z, b.size_cell.fits)),
      )

  memory_alloc_trapped :
      (len : ℕ) (m : Memory) (h : Host)
      → e.exports "proxy_on_memory_allocate" ≡ true
      → e.is_function "proxy_on_memory_allocate" ≡ true
      → e.invoke h.tick "proxy_on_memory_allocate" (len ∷ []) h.mem ≡ (trapped, m)
      → memory_alloc e len h
        ≡ ok ngx_error (record h { plugin = record { mem = m; tick = suc h.tick } })
  unfolding memory_alloc
  memory_alloc_trapped len m h exported function trap = ground arith

  memory_alloc_odd :
      (len : ℕ) (h : Host)
      → e.exports "proxy_on_memory_allocate" ≡ true
      → e.is_function "proxy_on_memory_allocate" ≡ false
      → memory_alloc e len h ≡ fault
  unfolding memory_alloc
  memory_alloc_odd len h exported odd = ground arith

  must_get_memory_minus_one :
      (len : ℕ) (rest : ℕ → M Host ProxyResult) (h : Host)
      → 0 < len
      → len ≤ h.mem.size
      → len < half32
      → must_get_memory ngx_error len rest h ≡ rest (u64 - 1) h
  unfolding must_get_memory add32 sext64
  must_get_memory_minus_one len rest h pos room short = ground arith

  copy_from_host_fault :
      (buf : ℕ) (bs : List ℕ) (h : Host)
      → h.mem.size < buf
      → length bs < half32
      → copy_from_host e buf bs (length bs) h ≡ fault
  unfolding copy_from_host
  copy_from_host_fault buf bs h out short =
      let all : leb (length bs) (length bs) ≡ true = ground arith in
      rw (sext64_pos (length bs) short, all, take-length bs) (ground arith)

  -- A plugin whose `proxy_on_memory_allocate` traps: NGX_ERROR is taken for the address -1, the range
  -- from there passes the test of `get_memory`, and the value is written in front of the memory.
  pub copy_to_wasm_trapped :
      (h : Host) (addr size_addr : ℕ) (bs : List ℕ) (m : Memory)
      → bs ≢ []
      → length bs < half32
      → Inside h size_addr 4
      → e.exports "proxy_on_memory_allocate" ≡ true
      → e.invoke h.tick "proxy_on_memory_allocate"
          (length bs ∷ [])
          (write h.mem size_addr (le32 (length bs)))
        ≡ (trapped, m)
      → length bs ≤ m.size
      → m.size ≤ u32
      → copy_to_wasm e bs (length bs) addr size_addr h ≡ fault
  unfolding copy_to_wasm memory_alloc
  copy_to_wasm_trapped h addr size_addr bs m ne short cell exported trap room small =
      let some_bytes : (length bs == 0) ≡ false = ground arith in
      let h1 : Host = with_mem h (write h.mem size_addr (le32 (length bs))) in
      let h2 : Host = record h1 { plugin = record { mem = m; tick = suc h.tick } } in
      rw
        (
          must_get_memory-Inside size_addr 4 _ h cell,
          on_mem-store32 size_addr (length bs) h cell.fits,
          some_bytes,
        )
        (elim (Bool-cases (e.is_function "proxy_on_memory_allocate")) [
          | inl function ↦ rw (
            memory_alloc_trapped (length bs) m h1 exported function trap,
            must_get_memory_minus_one (length bs) _ h2 (ground arith) room short,
            copy_from_host_fault (u64 - 1) bs h2 (omega arith) short,
          )
          | inr odd ↦ rw (memory_alloc_odd (length bs) h1 exported odd)
        ])
