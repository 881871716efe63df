-- ===== src/Map/Placed.antt =====
-- One entry of a map as src/proxy_wasm/proxy_wasm_map.c and its callers leave it in memory: two
-- lengths, two NULs, two texts, written in this order. It is the entry that the layout asks for, and
-- no byte outside its two ranges has changed.
use wasm_nginx_module.Prelude.{
  ℕ, ◌+◌, ◌≤◌, ◌<◌, ◌≡◌, refl, ◌∙◌, ◌⊎◌, inl, inr, [], ◌∷◌, arith, length,
}
use wasm_nginx_module.Words.{u32, le32}
use wasm_nginx_module.Memory.{Memory, write}
use wasm_nginx_module.Memory.Laws.{
  size-write, write-SameBut, read-write, word-write, read-SameAt, word-SameAt, byte-write,
}
use wasm_nginx_module.Map.Layout.{Header, HoldsEntry}

-- The memory after one round with the cursors at `sp` and `dp`.
unfoldable pub lengths : Memory → ℕ → Header → Memory
lengths m sp h = write (write m sp (le32 (length h.key))) (sp + 4) (le32 (length h.value))

unfoldable pub nuls : Memory → ℕ → Header → Memory
nuls m dp h =
    write (write m (dp + length h.key) (0 ∷ [])) (dp + length h.key + 1 + length h.value) (0 ∷ [])

unfoldable pub texts : Memory → ℕ → Header → Memory
texts m dp h = write (write m dp h.key) (dp + length h.key + 1) h.value

unfoldable pub placed : Memory → ℕ → ℕ → Header → Memory
unfolding lengths nuls texts
placed m sp dp h = texts (nuls (lengths m sp h) dp h) dp h

pub size-lengths : (m : Memory) (sp : ℕ) (h : Header) → (lengths m sp h).size ≡ m.size
unfolding lengths
size-lengths m sp h = size-write _ _ _ ∙ size-write _ _ _

pub size-nuls : (m : Memory) (dp : ℕ) (h : Header) → (nuls m dp h).size ≡ m.size
unfolding nuls
size-nuls m dp h = size-write _ _ _ ∙ size-write _ _ _

size-texts : (m : Memory) (dp : ℕ) (h : Header) → (texts m dp h).size ≡ m.size
unfolding texts
size-texts m dp h = size-write _ _ _ ∙ size-write _ _ _

pub size-placed : (m : Memory) (sp dp : ℕ) (h : Header) → (placed m sp dp h).size ≡ m.size
unfolding placed
size-placed m sp dp h = size-texts _ dp h ∙ size-nuls _ dp h ∙ size-lengths m sp h

-- Each of the three steps leaves the other bytes alone.
lengths_same :
    (m : Memory) (sp x : ℕ) (h : Header)
    → (x < sp) ⊎ (sp + 8 ≤ x)
    → (lengths m sp h).byte x ≡ m.byte x
unfolding lengths le32
lengths_same m sp x h o =
    write-SameBut _ (sp + 4) _ x (omega arith) ∙ write-SameBut m sp _ x (omega arith)

nuls_same :
    (m : Memory) (dp x : ℕ) (h : Header)
    → (x < dp + length h.key) ⊎ (dp + length h.key + length h.value + 2 ≤ x)
    → (nuls m dp h).byte x ≡ m.byte x
unfolding nuls
nuls_same m dp x h o = write-SameBut _ _ _ x (omega arith) ∙ write-SameBut m _ _ x (omega arith)

texts_same :
    (m : Memory) (dp x : ℕ) (h : Header)
    → (x < dp) ⊎ ((x ≡ dp + length h.key) ⊎ (dp + length h.key + length h.value + 1 ≤ x))
    → (texts m dp h).byte x ≡ m.byte x
unfolding texts
texts_same m dp x h o = write-SameBut _ _ _ x (omega arith) ∙ write-SameBut m _ _ x (omega arith)

-- Outside the entry's two ranges nothing has changed.
pub placed_same :
    (m : Memory) (sp dp x : ℕ) (h : Header)
    → (x < sp) ⊎ (sp + 8 ≤ x)
    → (x < dp) ⊎ (dp + (length h.key + length h.value + 2) ≤ x)
    → (placed m sp dp h).byte x ≡ m.byte x
unfolding placed
placed_same m sp dp x h o p =
    texts_same _ dp x h (omega arith)
    ∙ nuls_same _ dp x h (omega arith)
    ∙ lengths_same m sp x h (omega arith)

-- The texts and NULs are behind the lengths.
placed_front :
    (m : Memory) (sp dp x : ℕ) (h : Header)
    → x < dp
    → (placed m sp dp h).byte x ≡ (lengths m sp h).byte x
unfolding placed
placed_front m sp dp x h o = texts_same _ dp x h (omega arith) ∙ nuls_same _ dp x h (omega arith)

pub placed-HoldsEntry :
    (m : Memory) (sp dp : ℕ) (h : Header)
    → sp + 8 ≤ dp
    → length h.key < u32
    → length h.value < u32
    → HoldsEntry (placed m sp dp h) sp dp h
unfolding placed lengths nuls texts le32
placed-HoldsEntry m sp dp h apart ks vs = record {
  key_len =
      word-SameAt (lengths m sp h) _ sp (λ x a b. placed_front m sp dp x h (omega arith))
      ∙ word-SameAt (write m sp (le32 (length h.key))) _ sp
          (λ x a b. write-SameBut _ (sp + 4) _ x (omega arith))
      ∙ word-write m sp (length h.key)
      ∙ omega arith;
  val_len =
      word-SameAt (lengths m sp h) _ (sp + 4) (λ x a b. placed_front m sp dp x h (omega arith))
      ∙ word-write _ (sp + 4) (length h.value)
      ∙ omega arith;
  key =
      read-SameAt (write (nuls (lengths m sp h) dp h) dp h.key) _ dp (length h.key)
        (λ x a b. write-SameBut _ _ _ x (omega arith))
      ∙ read-write _ dp h.key;
  key_nul =
      texts_same _ dp _ h (inr (inl refl)) ∙ write-SameBut _ _ _ _ (omega arith) ∙ byte-write _ _ 0;
  val = read-write _ _ h.value;
  val_nul = texts_same _ dp _ h (omega arith) ∙ byte-write _ _ 0;
}
