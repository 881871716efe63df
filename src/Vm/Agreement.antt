-- ===== src/Vm/Agreement.antt =====
-- The two engines of src/vm are interchangeable behind `ngx_wasm_vm_t` of src/vm/vm.h.
use Prim.Native.String.{String}
use wasm_nginx_module.Prelude.{
  ℕ, ◌+◌, ◌<◌, ◌≤◌, ◌≡◌, ◌≢◌, refl, ◌∙◌, inl, inr, Bool, true, false, List, Option, none, some,
  arith, leb, Bool-cases, Option-cases,
}
use wasm_nginx_module.Words.{half32, u32, add32, sext64}
use wasm_nginx_module.Memory.{Memory, get_memory}
use wasm_nginx_module.Vm
use wasm_nginx_module.Vm.{Engine, Plugin, Invoked, trapped, returned_i32, returned_other, va_args}
use wasm_nginx_module.Vm.Wasmedge
use wasm_nginx_module.Vm.Wasmedge.{WasmedgeApi, PointsInside}

-- A plugin whose functions trap or give an `i32`.
abbrev pub GivesI32 : Engine → Type 0
GivesI32 e =
    (n : ℕ) (name : String) (args : List ℕ) (m : Memory)
    → (e.invoke n name args m).0 ≢ returned_other

param_num-eq : (param_type : ℕ) → Wasmedge.param_num param_type ≡ Vm.param_num param_type
unfolding Wasmedge.param_num Vm.param_num
param_num-eq param_type = refl

module _ (api : WasmedgeApi) where
  report-eq :
      (has_result : Bool) (end : Invoked)
      → (has_result ≡ true → end ≢ returned_other)
      → Wasmedge.report api has_result end ≡ Vm.report has_result end
  unfolding Wasmedge.report Vm.report
  report-eq has_result trapped h = refl
  report-eq true (returned_i32 w) h = refl
  report-eq false (returned_i32 w) h = refl
  report-eq true returned_other h = absurd (h refl refl)
  report-eq false returned_other h = refl

  -- Behind the argument list.
  invoke-eq :
      (e : Engine) (name : String) (has_result : Bool) (params : Option (List ℕ)) (p : Plugin)
      → (has_result ≡ true → GivesI32 e)
      → e.is_function name ≡ true
      → Wasmedge.invoke api e name has_result params p ≡ Vm.invoke_params e name has_result params p
  unfolding Wasmedge.invoke Vm.invoke_params
  invoke-eq e name has_result none p gives function = refl
  invoke-eq e name has_result (some params) p gives function = rw (
    function,
    report-eq has_result (e.invoke p.tick name params p.mem).0
        λ asked. gives asked p.tick name params p.mem,
  )

  -- A call through WasmEdge and one through wasmtime do the same, for every parameter type and list of
  -- arguments and on every way out: for a name that, if it is exported, is that of a function, and, where
  -- the caller asks for a result, for a plugin whose functions trap or give an `i32`.
  pub call-eq :
      (e : Engine) (name : String) (has_result : Bool) (param_type : ℕ) (args : List ℕ) (p : Plugin)
      → (has_result ≡ true → GivesI32 e)
      → (e.exports name ≡ true → e.is_function name ≡ true)
      → Wasmedge.call api e name has_result param_type args p
        ≡ Vm.call e name has_result param_type args p
  unfolding Wasmedge.call Vm.call
  call-eq e name has_result param_type args p gives functions = elim (Bool-cases (e.exports name)) [
    | inr missing ↦ rw (Wasmedge.call, Vm.call, missing)
    | inl found ↦ elim (Option-cases (Vm.param_num param_type)) [
      | inl unknown ↦
          rw (Wasmedge.call, Vm.call, found, functions found, param_num-eq param_type, unknown)
      | inr (n, known) ↦
          rw (Wasmedge.call, Vm.call, found, functions found, param_num-eq param_type, known)
            (invoke-eq e name has_result (va_args n args) p gives (functions found))
    ]
  ]

  -- For a range with no negative number in it that ends below 2 GiB, both engines give the same
  -- pointer, or both give NULL.
  pub get_memory-eq :
      (m : Memory) (addr size : ℕ)
      → PointsInside api
      → addr < half32
      → size < half32
      → addr + size < half32
      → m.size ≤ u32
      → Wasmedge.get_memory api m addr size ≡ get_memory m addr size
  unfolding Wasmedge.get_memory get_memory add32 sext64
  get_memory-eq m addr size points na ns low small = elim (Bool-cases (leb (addr + size) m.size)) [
    | inl fits ↦ points.inside m addr size (ground arith) ∙ ground arith
    | inr past ↦ points.outside m addr size (ground arith) ∙ ground arith
  ]
