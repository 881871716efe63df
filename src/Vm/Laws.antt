-- ===== src/Vm/Laws.antt =====
-- What `ngx_wasm_wasmtime_call` of src/vm/wasmtime.c passes to an exported function.
use Prim.Native.String.{String}
use wasm_nginx_module.Prelude.{ℕ, suc, ◌≡◌, refl, Bool, true, List, [], ◌∷◌, some, length}
use wasm_nginx_module.Run.{ok}
use wasm_nginx_module.Vm.{Engine, Plugin, va_args, call, param_num, report}

va_args-length : (args : List ℕ) → va_args (length args) args ≡ some args
unfolding va_args
va_args-length [] = refl
va_args-length (a ∷ args) = rw (va_args-length args)

-- With the parameter type of its number of arguments, a call of an exported function is made once, with
-- all the arguments in order and the plugin's memory, and reported by the way it ended.
pub call-report :
    (e : Engine) (name : String) (has_result : Bool) (param_type : ℕ) (args : List ℕ) (p : Plugin)
    → e.exports name ≡ true
    → e.is_function name ≡ true
    → param_num param_type ≡ some (length args)
    → call e name has_result param_type args p
      ≡ ok
          (report has_result (e.invoke p.tick name args p.mem).0)
          (record { mem = (e.invoke p.tick name args p.mem).1; tick = suc p.tick })
unfolding call
call-report e name has_result param_type args p exported function arity =
    rw (exported, arity, va_args-length args, function)
