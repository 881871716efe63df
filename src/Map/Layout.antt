-- ===== src/Map/Layout.antt =====
-- The serialised header map of src/proxy_wasm/proxy_wasm_map.c, described independently of the two
-- cursors: where each length and each text stands.
use wasm_nginx_module.Prelude.{
  ℕ, ◌+◌, ◌*◌, ◌≤◌, ◌<◌, ◌≡◌, ◌∙◌, ◌⊎◌, inl, inr, List, [], ◌∷◌, arith, length,
}
use wasm_nginx_module.Memory.{Memory, read, word}
use wasm_nginx_module.Memory.Laws.{word-SameAt, read-SameAt}

-- A header, as its two texts.
pub record Header : Type 0 where
  pub key : List ℕ
  pub value : List ℕ

-- The bytes of the texts, with a NUL behind each.
abbrev pub text_size : List Header → ℕ
text_size [] = 0
text_size (h ∷ hs) = length h.key + length h.value + 2 + text_size hs

-- The bytes of the whole map: the count, two lengths for each entry, the texts.
abbrev pub map_size : List Header → ℕ
map_size hs = 4 + 8 * length hs + text_size hs

-- One entry, with its lengths at `sp` and its texts at `dp`.
pub record HoldsEntry (m : Memory) (sp dp : ℕ) (h : Header) : Type 0 where
  pub key_len : word m sp ≡ length h.key
  pub val_len : word m (sp + 4) ≡ length h.value
  pub key : read m dp (length h.key) ≡ h.key
  pub key_nul : m.byte (dp + length h.key) ≡ 0
  pub val : read m (dp + length h.key + 1) (length h.value) ≡ h.value
  pub val_nul : m.byte (dp + length h.key + 1 + length h.value) ≡ 0

-- The entries `hs`, with their lengths from `sp` on and their texts from `dp` on.
abbrev pub Holds : Memory → ℕ → ℕ → List Header → Type 0
Holds m sp dp [] = Unit
Holds m sp dp (h ∷ hs) =
    HoldsEntry m sp dp h × Holds m (sp + 8) (dp + (length h.key + length h.value + 2)) hs

-- The buffer at `p` is the map of `hs`.
pub record IsMap (m : Memory) (p : ℕ) (hs : List Header) : Type 0 where
  pub count : word m p ≡ length hs
  pub entries : Holds m (p + 4) (p + 4 + 8 * length hs) hs

-- `m'` has the bytes of `m` at two ranges.
abbrev pub SameAt₂ : ℕ → ℕ → ℕ → ℕ → Memory → Memory → Type 0
SameAt₂ sp n dp k m m' =
    (x : ℕ) → ((sp ≤ x) × (x < sp + n)) ⊎ ((dp ≤ x) × (x < dp + k)) → m'.byte x ≡ m.byte x

-- An entry survives changes elsewhere.
pub HoldsEntry-SameAt :
    (m m' : Memory) (sp dp : ℕ) (h : Header)
    → SameAt₂ sp 8 dp (length h.key + length h.value + 2) m m'
    → HoldsEntry m sp dp h
    → HoldsEntry m' sp dp h
HoldsEntry-SameAt m m' sp dp h same e = record {
  key_len = word-SameAt m m' sp (λ x a b. same x (inl (omega arith, omega arith))) ∙ e.key_len;
  val_len =
      word-SameAt m m' (sp + 4) (λ x a b. same x (inl (omega arith, omega arith))) ∙ e.val_len;
  key =
      read-SameAt m m' dp (length h.key) (λ x a b. same x (inr (omega arith, omega arith))) ∙ e.key;
  key_nul = same _ (inr (omega arith, omega arith)) ∙ e.key_nul;
  val =
      read-SameAt m m' _ (length h.value) (λ x a b. same x (inr (omega arith, omega arith)))
      ∙ e.val;
  val_nul = same _ (inr (omega arith, omega arith)) ∙ e.val_nul;
}
