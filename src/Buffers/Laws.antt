-- ===== src/Buffers/Laws.antt =====
-- Which part of a body `proxy_get_buffer_bytes` of src/http/ngx_http_wasm_api.c hands to the plugin.
use wasm_nginx_module.Prelude.{
  ℕ, zero, suc, ◌+◌, ◌-◌, ◌%◌, ◌≤◌, ◌<◌, ◌≡◌, ◌≢◌, refl, sym, ap, ◌⊎◌, inl, inr, true, false, not,
  ◌||◌, List, [], ◌∷◌, some, arith, length, take, drop, leb, ◌==◌, Bool-cases,
}
use wasm_nginx_module.Words.{u32, half32, is_neg32, slt32, add32, le32, sext64_pos}
use wasm_nginx_module.Run.{ok, fault, Returns}
use wasm_nginx_module.Memory.{write, get_memory}
use wasm_nginx_module.Vm.{Engine}
use wasm_nginx_module.Host.{Host, WasmState, result_ok, with_mem, must_get_memory, get_mem}
use wasm_nginx_module.Copy.{memory_alloc, copy_from_host, copy_to_wasm}
use wasm_nginx_module.Copy.Laws.{
  Inside, Allocated, HandedOver, IsPrefix, copy_to_wasm-IsPrefix, take-length,
  must_get_memory-Inside, on_mem-store32,
}
use wasm_nginx_module.Buffers.{clamp, copy_part, copy_buffer, get_buffer_bytes}

length-drop {ℓ} : {A : Type ℓ} (n : ℕ) (xs : List A) → length (drop n xs) ≡ length xs - n
length-drop zero xs = omega arith
length-drop (suc n) [] = omega arith
length-drop (suc n) (x ∷ xs) = omega (arith, length-drop n xs)

length-take {ℓ} : {A : Type ℓ} (n : ℕ) (xs : List A) → n ≤ length xs → length (take n xs) ≡ n
length-take zero xs h = refl
length-take (suc n) [] h = absurd (omega arith)
length-take (suc n) (x ∷ xs) h = omega (arith, length-take n xs (omega arith))

take_all {ℓ} : {A : Type ℓ} (n : ℕ) (xs : List A) → length xs ≤ n → take n xs ≡ xs
take_all zero [] h = refl
take_all zero (x ∷ xs) h = absurd (omega arith)
take_all (suc n) [] h = refl
take_all (suc n) (x ∷ xs) h = ap (λ ys. x ∷ ys) (take_all n xs (omega arith))

-- The part of a buffer that a plugin asks for.
abbrev pub part : ℕ → ℕ → List ℕ → List ℕ
part start size buffer = take size (drop start buffer)

-- A range that starts in the buffer and whose end is an `int32_t`.
pub record Asked (start size : ℕ) (buffer : List ℕ) : Type 0 where
  pub starts : start < length buffer
  pub some_bytes : 0 < size
  pub no_overflow : start + size < half32
  pub short : length buffer < half32

clamp_lem :
    (start size : ℕ) (buffer : List ℕ)
    → Asked start size buffer
    → clamp start size (length buffer) ≡ length (part start size buffer)
unfolding clamp add32
clamp_lem start size buffer a = elim (Bool-cases (leb (start + size) (length buffer))) [
  | inl fits ↦
      let le : start + size ≤ length buffer = ground arith in
      let low : slt32 (length buffer) ((start + size) % u32) ≡ false =
        ground (arith, a.starts, a.no_overflow, a.short) in
      rw low (sym (length-take size (drop start buffer) (omega (arith, length-drop start buffer))))
  | inr past ↦
      let gt : length buffer < start + size = ground arith in
      let high : slt32 (length buffer) ((start + size) % u32) ≡ true =
        ground (arith, a.starts, a.no_overflow, a.short) in
      rw (high, take_all size (drop start buffer) (omega (arith, length-drop start buffer)))
        (sym (length-drop start buffer))
]

part-IsPrefix :
    (start size : ℕ) (buffer : List ℕ) → IsPrefix (part start size buffer) (drop start buffer)
part-IsPrefix start size buffer = elim (Bool-cases (leb size (length (drop start buffer)))) [
  | inl fits ↦
      let le : size ≤ length (drop start buffer) = ground arith in
      let n : length (part start size buffer) ≡ size =
        length-take size (drop start buffer) (omega arith) in
      record { fits = omega arith; taken = rw n refl }
  | inr past ↦
      let gt : length (drop start buffer) < size = ground arith in
      let all : part start size buffer ≡ drop start buffer =
        take_all size (drop start buffer) (omega arith) in
      rw all (record { fits = omega arith; taken = take-length (drop start buffer) })
]

part_size :
    (start size : ℕ) (buffer : List ℕ)
    → Asked start size buffer
    → (0 < length (part start size buffer)) × (length (part start size buffer) < half32)
part_size start size buffer a = (
  elim (Bool-cases (leb size (length (drop start buffer)))) [
    | inl fits ↦
        let le : size ≤ length (drop start buffer) = ground arith in
        omega (arith, length-take size (drop start buffer) le, a.some_bytes)
    | inr past ↦
        let gt : length (drop start buffer) < size = ground arith in
        rw (take_all size (drop start buffer) (omega arith))
          (omega (arith, length-drop start buffer, a.starts))
  ],
  omega (arith, (part-IsPrefix start size buffer).fits, length-drop start buffer, a.short),
)

module _ (e : Engine) where
  copy_part-Asked :
      (start size addr size_addr : ℕ) (buffer : List ℕ) (h : Host)
      → Asked start size buffer
      → copy_part e buffer start size addr size_addr h
        ≡ copy_to_wasm e (drop start buffer) (length (part start size buffer)) addr size_addr h
  unfolding copy_part
  copy_part-Asked start size addr size_addr buffer h a =
      let word : length buffer % u32 ≡ length buffer = omega (arith, a.short) in
      let good : (is_neg32 start
            || ((is_neg32 size || size == 0) || not (slt32 start (length buffer))))
          ≡ false =
        ground (arith, a.starts, a.some_bytes, a.no_overflow, a.short) in
      rw (word, good, clamp_lem start size buffer a)

  copy_buffer-Asked :
      (start size addr size_addr : ℕ) (buffer : List ℕ) (h : Host)
      → Asked start size buffer
      → copy_buffer e false start size addr size_addr (some buffer) h
        ≡ copy_part e buffer start size addr size_addr h
  unfolding copy_buffer
  copy_buffer-Asked start size addr size_addr buffer h a =
      let full : (length buffer % u32 == 0) ≡ false = ground (arith, a.starts, a.short) in rw full

  get_body_bytes :
      (type start size addr size_addr : ℕ) (h : Host) (s : WasmState)
      → h.cur_state ≡ some s
      → (type ≡ 0) ⊎ (type ≡ 1)
      → get_buffer_bytes e type start size addr size_addr h
        ≡ copy_buffer e false start size addr size_addr (some s.body) h
  unfolding get_buffer_bytes
  get_body_bytes type start size addr size_addr h s state is_body = elim is_body [
    | inl zero_type ↦ rw (zero_type, state)
    | inr one_type ↦ rw (one_type, state)
  ]

  -- A plugin that asks for a part of the request's or the response's body, from `start` on and `size`
  -- bytes at most, gets exactly that part, shorter at the body's end: for a range that starts in the
  -- body and whose end is an `int32_t`, with an allocator that gives a block, the call returns.
  pub get_buffer_bytes-HandedOver :
      (type start size addr size_addr buf : ℕ) (h h' : Host) (s : WasmState)
      → (type ≡ 0) ⊎ (type ≡ 1)
      → h.cur_state ≡ some s
      → Asked start size s.body
      → Inside h size_addr 4
      → memory_alloc e
          (length (part start size s.body))
          (with_mem h (write h.mem size_addr (le32 (length (part start size s.body)))))
        ≡ ok buf h'
      → Allocated
          (with_mem h (write h.mem size_addr (le32 (length (part start size s.body)))))
          h'
          buf
          (length (part start size s.body))
          addr
          size_addr
      → Returns
          (λ r h2. (r ≡ result_ok) × HandedOver h' h2 buf addr size_addr (part start size s.body))
          (get_buffer_bytes e type start size addr size_addr h)
  get_buffer_bytes-HandedOver type start size addr size_addr buf h h' s is_body state a cell alloc
        b =
      rw
        (
          get_body_bytes type start size addr size_addr h s state is_body,
          copy_buffer-Asked start size addr size_addr s.body h a,
          copy_part-Asked start size addr size_addr s.body h a,
        )
        (copy_to_wasm-IsPrefix e h h' buf addr size_addr (drop start s.body)
          (part start size s.body) (part-IsPrefix start size s.body)
          (λ empty. omega (arith, ap length empty, (part_size start size s.body a).0))
          (part_size start size s.body a).1 cell alloc b)

  too_long :
      (len buf : ℕ) (host_data : List ℕ) (h : Host)
      → len < half32
      → length host_data < len
      → copy_from_host e buf host_data len h ≡ fault
  unfolding copy_from_host
  too_long len buf host_data h short long =
      let over : leb len (length host_data) ≡ false = ground arith in
      rw (sext64_pos len short, over) refl

  copy_to_wasm_long :
      (len addr size_addr buf p : ℕ) (host_data : List ℕ) (h h' : Host)
      → len < half32
      → length host_data < len
      → Inside h size_addr 4
      → memory_alloc e len (with_mem h (write h.mem size_addr (le32 len))) ≡ ok buf h'
      → buf ≢ 0
      → get_memory h'.mem buf len ≡ some p
      → copy_to_wasm e host_data len addr size_addr h ≡ fault
  unfolding copy_to_wasm
  copy_to_wasm_long len addr size_addr buf p host_data h h' short long cell alloc ne inside =
      let some_bytes : (len == 0) ≡ false = ground arith in
      let some_block : (buf == 0) ≡ false = ground (arith, ne) in
      rw
        (
          must_get_memory-Inside size_addr 4 _ h cell,
          on_mem-store32 size_addr len h cell.fits,
          some_bytes,
          alloc,
          some_block,
          must_get_memory,
          get_mem,
          inside,
          too_long len p host_data h' short long,
        )
        refl

  -- When the end of the range is no `int32_t`, the sum wraps to a negative number, and the size is not
  -- cut: if the plugin's allocator gives a range that passes `get_memory`, the host copies `size` bytes
  -- from behind the end of the body.
  pub get_buffer_bytes_overflow :
      (type start size addr size_addr buf p : ℕ) (h h' : Host) (s : WasmState)
      → (type ≡ 0) ⊎ (type ≡ 1)
      → h.cur_state ≡ some s
      → start < length s.body
      → length s.body < half32
      → size < half32
      → half32 ≤ start + size
      → Inside h size_addr 4
      → memory_alloc e size (with_mem h (write h.mem size_addr (le32 size))) ≡ ok buf h'
      → buf ≢ 0
      → get_memory h'.mem buf size ≡ some p
      → get_buffer_bytes e type start size addr size_addr h ≡ fault
  unfolding copy_buffer copy_part clamp add32
  get_buffer_bytes_overflow type start size addr size_addr buf p h h' s is_body state starts short
        word over cell alloc ne inside =
      let full : (length s.body % u32 == 0) ≡ false = ground arith in
      let len : length s.body % u32 ≡ length s.body = omega arith in
      let good : (is_neg32 start
            || ((is_neg32 size || size == 0) || not (slt32 start (length s.body))))
          ≡ false =
        ground arith in
      let low : slt32 (length s.body) ((start + size) % u32) ≡ false = ground arith in
      rw
        (
          get_body_bytes type start size addr size_addr h s state is_body,
          full,
          len,
          good,
          low,
          copy_to_wasm_long size addr size_addr buf p (drop start s.body) h h' word
              (omega (arith, length-drop start s.body)) cell alloc ne inside,
        )
        refl
