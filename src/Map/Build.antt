-- ===== src/Map/Build.antt =====
-- The loops of src/http/ngx_http_wasm_api.c that fill a map: `proxy_wasm_map_reserve` for each
-- header, then its two texts. A slot with room is filled with the entry that the layout asks for.
use wasm_nginx_module.Prelude.{
  ℕ, ◌+◌, ◌%◌, ◌≤◌, ◌<◌, ◌≡◌, ◌≢◌, ◌∙◌, refl, ◌⊎◌, ◌*◌, false, List, [], ◌∷◌, ◌++◌, arith, length,
  ◌==◌,
}
use wasm_nginx_module.Words.{u32, half32, add32, add64, le32, add32_small, add64_small, sext64_pos}
use wasm_nginx_module.Run.{M, ok, pure, ◌>>=◌, ◌>>◌, Returns, returns, mono, and_then_split}
use wasm_nginx_module.Memory.{Memory, write, copy_in}
use wasm_nginx_module.Memory.Laws.{copy_in-ok, store32-ok, size-write}
use wasm_nginx_module.Map.{Iter, Slot, reserve}
use wasm_nginx_module.Map.Layout.{Header, Holds, text_size, HoldsEntry-SameAt}
use wasm_nginx_module.Map.Placed.{
  lengths, nuls, texts, placed, size-lengths, size-nuls, size-placed, placed_same,
  placed-HoldsEntry,
}

-- One round: `proxy_wasm_map_reserve` and the two `ngx_memcpy`. The result of the call is not read.
unfoldable pub put_header : Slot → Header → M Memory Slot
unfolding reserve
put_header s h = do
  (_, s') ← reserve s (length h.key % u32) (length h.value % u32)
  copy_in s'.key h.key
  copy_in s'.val h.value
  pure s'

unfoldable pub put_headers : Slot → List Header → M Memory Slot
unfolding put_header
put_headers s [] = pure s
put_headers s (h ∷ hs) = do s' ← put_header s h; put_headers s' hs

-- The slot after that round.
abbrev pub advanced : Slot → Header → Slot
advanced s h = record {
  it = record {
    idx = add32 s.it.idx 1;
    len = s.it.len;
    size_ptr = s.it.size_ptr + 8;
    data_ptr = s.it.data_ptr + (length h.key + length h.value + 2);
  };
  key = s.it.data_ptr;
  val = s.it.data_ptr + length h.key + 1;
}

-- A round with room for its entry returns, in the slot behind it.
pub put_header-ok :
    (s : Slot) (h : Header) (m : Memory)
    → s.it.idx ≢ s.it.len
    → s.it.size_ptr + 8 ≤ m.size
    → s.it.data_ptr + (length h.key + length h.value + 2) ≤ m.size
    → length h.key + length h.value + 2 < half32
    → m.size ≤ u32
    → put_header s h m ≡ ok (advanced s h) (placed m s.it.size_ptr s.it.data_ptr h)
unfolding put_header placed lengths nuls texts
put_header-ok s h m ne room_sp room_dp short small =
    let sp : ℕ = s.it.size_ptr in
    let dp : ℕ = s.it.data_ptr in
    let test : (s.it.idx == s.it.len) ≡ false = ground arith in
    let k : length h.key % u32 ≡ length h.key = omega arith in
    let v : length h.value % u32 ≡ length h.value = omega arith in
    let a : add64 sp 4 ≡ sp + 4 = add64_small sp 4 (omega arith) in
    let b : add64 sp 8 ≡ sp + 8 = add64_small sp 8 (omega arith) in
    let c : add64 dp (length h.key) ≡ dp + length h.key = add64_small _ _ (omega arith) in
    let d : add64 (dp + length h.key) 1 ≡ dp + length h.key + 1 = add64_small _ _ (omega arith) in
    let e : add64 (dp + length h.key + 1) (length h.value)
        ≡ dp + length h.key + 1 + length h.value =
      add64_small _ _ (omega arith) in
    let f : add64 (dp + length h.key + 1 + length h.value) 1
        ≡ dp + (length h.key + length h.value + 2) =
      add64_small _ _ (omega arith) ∙ omega arith in
    let m1 : Memory = write m sp (le32 (length h.key)) in
    let m2 : Memory = lengths m sp h in
    let m3 : Memory = write m2 (dp + length h.key) (0 ∷ []) in
    let m4 : Memory = nuls m2 dp h in
    let m5 : Memory = write m4 dp h.key in
    let s1 : m1.size ≡ m.size = size-write _ _ _ in
    let s2 : m2.size ≡ m.size = size-lengths m sp h in
    let s3 : m3.size ≡ m.size = size-write _ _ _ ∙ s2 in
    let s4 : m4.size ≡ m.size = size-nuls m2 dp h ∙ s2 in
    let s5 : m5.size ≡ m.size = size-write _ _ _ ∙ s4 in
    rw (
      test,
      k,
      v,
      sext64_pos (length h.key) (omega arith),
      sext64_pos (length h.value) (omega arith),
      a,
      b,
      c,
      d,
      e,
      f,
      store32-ok sp (length h.key) m (omega arith),
      store32-ok (sp + 4) (length h.value) m1 (omega arith),
      copy_in-ok (dp + length h.key) (0 ∷ []) m2 (omega arith),
      copy_in-ok (dp + length h.key + 1 + length h.value) (0 ∷ []) m3 (omega arith),
      copy_in-ok dp h.key m4 (omega arith),
      copy_in-ok (dp + length h.key + 1) h.value m5 (omega arith),
    )

-- The iterator behind the entries `hs`.
abbrev pub behind : Iter → List Header → Iter
behind it hs = record {
  idx = it.idx + length hs;
  len = it.len;
  size_ptr = it.size_ptr + 8 * length hs;
  data_ptr = it.data_ptr + text_size hs;
}

-- `m'` is `m` with the entries `hs` put at the cursors `sp` and `dp`, and with no other change.
pub record Filled (m m' : Memory) (sp dp : ℕ) (hs : List Header) : Type 0 where
  pub size : m'.size ≡ m.size
  pub holds : Holds m' sp dp hs
  pub same :
      (x : ℕ)
      → (x < sp) ⊎ (sp + 8 * length hs ≤ x)
      → (x < dp) ⊎ (dp + text_size hs ≤ x)
      → m'.byte x ≡ m.byte x

-- What a loop needs to fill in `hs`: entries left in the map, the lengths in front of the texts, and
-- the texts within the memory.
pub record Room (it : Iter) (hs : List Header) (m : Memory) : Type 0 where
  pub entries : it.idx + length hs ≤ it.len
  pub count : it.len < u32
  pub apart : it.size_ptr + 8 * length hs ≤ it.data_ptr
  pub inside : it.data_ptr + text_size hs ≤ m.size
  pub short : text_size hs < half32
  pub small : m.size ≤ u32

pub Filled-cons :
    (m m' : Memory) (sp dp : ℕ) (h : Header) (hs : List Header)
    → sp + 8 * length (h ∷ hs) ≤ dp
    → length h.key < u32
    → length h.value < u32
    → Filled (placed m sp dp h) m' (sp + 8) (dp + (length h.key + length h.value + 2)) hs
    → Filled m m' sp dp (h ∷ hs)
Filled-cons m m' sp dp h hs apart ks vs f = record {
  size = f.size ∙ size-placed m sp dp h;
  holds = (
    HoldsEntry-SameAt (placed m sp dp h) m' sp dp h (λ x r. f.same x (omega arith) (omega arith))
        (placed-HoldsEntry m sp dp h (omega arith) ks vs),
    f.holds,
  );
  same = λ x o p.
      f.same x (omega arith) (omega arith) ∙ placed_same m sp dp x h (omega arith) (omega arith);
}

-- The loop fills in every header, in order, and returns behind the last.
pub put_headers-Filled :
    (s : Slot) (hs : List Header) (m : Memory)
    → Room s.it hs m
    → Returns
        (λ s' m'. Filled m m' s.it.size_ptr s.it.data_ptr hs × (s'.it ≡ behind s.it hs))
        (put_headers s hs m)
unfolding put_headers
put_headers-Filled s [] m r =
    returns (record { size = refl; holds = tt; same = λ x o p. refl }, ground arith)
put_headers-Filled s (h ∷ hs) m r =
    rw (put_header-ok s h m (omega arith) (omega arith) (omega arith) (omega arith) r.small) (
      mono
        (put_headers-Filled (advanced s h) hs (placed m s.it.size_ptr s.it.data_ptr h) (
          let z = size-placed m s.it.size_ptr s.it.data_ptr h in
          record {
            entries = omega (arith, add32_small s.it.idx 1 (omega arith));
            count = r.count;
            apart = omega arith;
            inside = omega arith;
            short = omega arith;
            small = omega arith;
          }))
        λ s' m' (f, e). (
          Filled-cons m m' s.it.size_ptr s.it.data_ptr h hs (omega arith) (omega arith)
              (omega arith) f,
          e ∙ ground (arith, add32_small s.it.idx 1 (omega arith)),
        ))

-- Two loops in a row are one over both lists.
pub put_headers-append :
    (s : Slot) (hs ks : List Header) (m : Memory)
    → put_headers s (hs ++ ks) m ≡ (put_headers s hs >>= λ s'. put_headers s' ks) m
unfolding put_headers
put_headers-append s [] ks m = refl
put_headers-append s (h ∷ hs) ks m =
    and_then_split (put_header s h m) _ _ _ λ s' m'. put_headers-append s' hs ks m'
