-- ===== src/Map/Literal.antt =====
-- One entry of a map as `proxy_wasm_map_reserve_literal_with_len` of
-- src/proxy_wasm/proxy_wasm_map.c leaves it in memory: two lengths, and two texts with their NULs. It is
-- the same entry that `proxy_wasm_map_reserve` and its callers leave.
use wasm_nginx_module.Prelude.{
  ℕ, suc, ◌+◌, ◌%◌, ◌≤◌, ◌<◌, ◌≡◌, ◌≢◌, refl, ap, ◌∙◌, ◌⊎◌, true, false, List, [], ◌∷◌, ◌++◌, arith,
  length, length-append, ◌==◌,
}
use wasm_nginx_module.Words.{u32, half32, add32, add64, le32, add32_small, add64_small}
use wasm_nginx_module.Run.{ok, returns}
use wasm_nginx_module.Memory.{Memory, poke, write}
use wasm_nginx_module.Memory.Laws.{
  size-write, write-SameBut, read-write, word-write, read-SameAt, word-SameAt, byte-write,
  copy_in-ok, store32-ok,
}
use wasm_nginx_module.Map.{Iter, reserve_literal}
use wasm_nginx_module.Map.Layout.{Header, HoldsEntry}
use wasm_nginx_module.Map.Placed.{lengths, size-lengths, placed}
use wasm_nginx_module.Map.Build.{Filled, put_header, put_header-ok, Filled-cons}
use wasm_nginx_module.Map.Stages.{Puts}

pub put_header-Puts : (h : Header) → Puts (λ s. put_header s h) (h ∷ [])
put_header-Puts h s m r =
    rw
      (put_header-ok s h m (omega (arith, r.entries)) (omega (arith, r.apart, r.inside))
        (omega (arith, r.inside)) (omega (arith, r.short)) r.small)
      (returns (
        Filled-cons m (placed m s.it.size_ptr s.it.data_ptr h) s.it.size_ptr s.it.data_ptr h []
            (omega (arith, r.apart)) (omega (arith, r.short)) (omega (arith, r.short))
            (record { size = refl; holds = tt; same = λ x o p. refl }),
        ground (arith, add32_small s.it.idx 1 (omega (arith, r.entries, r.count))),
      ))

write-append :
    (m : Memory) (a b : ℕ) (xs ys : List ℕ)
    → b ≡ a + length xs
    → write m a (xs ++ ys) ≡ write (write m a xs) b ys
unfolding write
write-append m a b [] ys e = ap (λ x. write m x ys) (omega arith)
write-append m a b (x ∷ xs) ys e = write-append (poke m a x) (suc a) b xs ys (omega arith)

-- The two texts with their NULs, one behind the other.
unfoldable texts : Memory → ℕ → Header → Memory
texts m dp h =
    let m1 = write (write m dp h.key) (dp + length h.key) (0 ∷ []) in
    write (write m1 (dp + length h.key + 1) h.value) (dp + length h.key + 1 + length h.value)
      (0 ∷ [])

size-texts : (m : Memory) (dp : ℕ) (h : Header) → (texts m dp h).size ≡ m.size
unfolding texts
size-texts m dp h = size-write _ _ _ ∙ size-write _ _ _ ∙ size-write _ _ _ ∙ size-write _ _ _

texts_same :
    (m : Memory) (dp x : ℕ) (h : Header)
    → (x < dp) ⊎ (dp + (length h.key + length h.value + 2) ≤ x)
    → (texts m dp h).byte x ≡ m.byte x
unfolding texts
texts_same m dp x h o =
    write-SameBut _ _ _ x (omega arith)
    ∙ write-SameBut _ _ _ x (omega arith)
    ∙ write-SameBut _ _ _ x (omega arith)
    ∙ write-SameBut m dp _ x (omega arith)

-- The lengths and the texts of the entry.
unfoldable pub literal : Memory → ℕ → ℕ → Header → Memory
unfolding lengths texts
literal m sp dp h = texts (lengths m sp h) dp h

literal-HoldsEntry :
    (m : Memory) (sp dp : ℕ) (h : Header)
    → sp + 8 ≤ dp
    → length h.key < u32
    → length h.value < u32
    → HoldsEntry (literal m sp dp h) sp dp h
unfolding literal lengths texts le32
literal-HoldsEntry m sp dp h apart ks vs = record {
  key_len =
      word-SameAt (lengths m sp h) _ sp (λ x a b. texts_same _ dp x h (omega arith))
      ∙ word-SameAt (write m sp (le32 (length h.key))) _ sp
          (λ x a b. write-SameBut _ (sp + 4) _ x (omega arith))
      ∙ word-write m sp (length h.key)
      ∙ omega arith;
  val_len =
      word-SameAt (lengths m sp h) _ (sp + 4) (λ x a b. texts_same _ dp x h (omega arith))
      ∙ word-write _ (sp + 4) (length h.value)
      ∙ omega arith;
  key =
      read-SameAt (write (lengths m sp h) dp h.key) _ dp (length h.key) (λ x a b.
        write-SameBut _ _ _ x (omega arith)
        ∙ write-SameBut _ _ _ x (omega arith)
        ∙ write-SameBut _ _ _ x (omega arith))
      ∙ read-write _ dp h.key;
  key_nul =
      write-SameBut _ _ _ _ (omega arith) ∙ write-SameBut _ _ _ _ (omega arith) ∙ byte-write _ _ 0;
  val =
      read-SameAt
        (write (write (write (lengths m sp h) dp h.key) (dp + length h.key) (0 ∷ []))
          (dp + length h.key + 1) h.value)
        _ _ (length h.value) (λ x a b. write-SameBut _ _ _ x (omega arith))
      ∙ read-write _ _ h.value;
  val_nul = byte-write _ _ 0;
}

pub literal-Filled :
    (m : Memory) (sp dp : ℕ) (h : Header)
    → sp + 8 ≤ dp
    → length h.key < u32
    → length h.value < u32
    → Filled m (literal m sp dp h) sp dp (h ∷ [])
unfolding literal lengths le32
literal-Filled m sp dp h apart ks vs = record {
  size = size-texts _ dp h ∙ size-lengths m sp h;
  holds = (literal-HoldsEntry m sp dp h apart ks vs, tt);
  same = λ x o p.
      texts_same _ dp x h (omega arith)
      ∙ write-SameBut _ (sp + 4) _ x (omega arith)
      ∙ write-SameBut m sp _ x (omega arith);
}

-- A call with room for its entry.
pub reserve_literal-ok :
    (it : Iter) (h : Header) (m : Memory)
    → it.idx ≢ it.len
    → it.size_ptr + 8 ≤ m.size
    → it.data_ptr + (length h.key + length h.value + 2) ≤ m.size
    → length h.key + length h.value + 2 < half32
    → m.size ≤ u32
    → reserve_literal it h.key h.value m
      ≡ ok
          (
            true,
            record it {
              idx = add32 it.idx 1;
              size_ptr = it.size_ptr + 8;
              data_ptr = it.data_ptr + (length h.key + length h.value + 2);
            },
          )
          (literal m it.size_ptr it.data_ptr h)
unfolding reserve_literal literal lengths texts
reserve_literal-ok it h m ne room_sp room_dp short small =
    let sp : ℕ = it.size_ptr in
    let dp : ℕ = it.data_ptr in
    let test : (it.idx == it.len) ≡ false = ground arith in
    let k : length h.key % u32 ≡ length h.key = omega arith in
    let v : length h.value % u32 ≡ length h.value = omega arith in
    let a : add64 sp 4 ≡ sp + 4 = add64_small sp 4 (omega arith) in
    let b : add64 sp 8 ≡ sp + 8 = add64_small sp 8 (omega arith) in
    let c : add64 dp (length h.key + 1) ≡ dp + length h.key + 1 =
      add64_small _ _ (omega arith) ∙ omega arith in
    let d : add64 (dp + length h.key + 1) (length h.value + 1)
        ≡ dp + (length h.key + length h.value + 2) =
      add64_small _ _ (omega arith) ∙ omega arith in
    let m1 : Memory = write m sp (le32 (length h.key)) in
    let m2 : Memory = lengths m sp h in
    let m3 : Memory = write (write m2 dp h.key) (dp + length h.key) (0 ∷ []) in
    let nk = length-append h.key (0 ∷ []) in
    let nv = length-append h.value (0 ∷ []) in
    let s1 : m1.size ≡ m.size = size-write _ _ _ in
    let s2 : m2.size ≡ m.size = size-lengths m sp h in
    let s3 : m3.size ≡ m.size = size-write _ _ _ ∙ size-write _ _ _ ∙ s2 in
    rw (
      test,
      k,
      v,
      a,
      b,
      c,
      d,
      store32-ok sp (length h.key) m (omega arith),
      store32-ok (sp + 4) (length h.value) m1 (omega arith),
      copy_in-ok dp (h.key ++ 0 ∷ []) m2 (omega arith),
      write-append m2 dp (dp + length h.key) h.key (0 ∷ []) refl,
      copy_in-ok (dp + length h.key + 1) (h.value ++ 0 ∷ []) m3 (omega arith),
      write-append m3 (dp + length h.key + 1) (dp + length h.key + 1 + length h.value) h.value
          (0 ∷ []) refl,
    )
