-- ===== src/Lib.antt =====
-- wasm-nginx-module runs Proxy-Wasm plugins inside nginx. This library models its C code.
--
-- The program's parts. lib/resty/proxy-wasm.lua loads a plugin, configures plugin contexts of it, and
-- calls src/http/ngx_http_wasm_module.c in the phases of a request. That file keeps plugins, plugin
-- contexts and HTTP contexts, makes the current state of src/http/ngx_http_wasm_state.c known, and
-- calls the plugin through src/vm/wasmtime.c. The plugin calls back the host functions of
-- src/http/ngx_http_wasm_api.c, which read and write the plugin's memory and the request. Headers go
-- over in the format of src/proxy_wasm/proxy_wasm_map.c. An HTTP call that a plugin asks for waits in
-- src/http/ngx_http_wasm_call.c for the Lua code.
--
-- Which file models which part:
--   Words, Run, Memory   `int32_t` and `size_t` as bit patterns; how C code runs, with `fault` for
--                        undefined behaviour; a byte buffer whose accesses are checked, and
--                        `ngx_wasm_wasmtime_get_memory`
--   Map                  src/proxy_wasm/proxy_wasm_map.c; Map/Layout is the format described without
--                        the cursors, Map/Build, Map/Walk and Map/Full relate the two
--   Vm                   `ngx_wasm_wasmtime_call` and `ngx_wasm_wasmtime_has` of src/vm/wasmtime.c;
--                        Vm/Wasmedge is their counterpart of src/vm/wasmedge.c
--   Loader               how both load and unload a plugin, as the objects that they take from the
--                        engine and give back; Loader/Plugin is `ngx_http_wasm_load_plugin`
--   Config               the `wasm_vm` directive, `ngx_http_wasm_init`, and src/vm/vm.c
--   Host, State, Copy    what host functions work on; src/http/ngx_http_wasm_state.c;
--                        `proxy_wasm_memory_alloc`, `ngx_http_wasm_copy_to_wasm` and
--                        `ngx_http_wasm_get_buf_to_write`
--   Pseudo, Pairs, GetHeader, Chars, SetHeader
--                        the header functions of src/http/ngx_http_wasm_api.c
--   Buffers, Property    `proxy_get_buffer_bytes` and `proxy_get_configuration`; nginx's variables
--   LocalResponse        `proxy_send_local_response` and `ngx_http_wasm_fetch_local_body`
--   Call, HttpCall       src/http/ngx_http_wasm_call.c, and `proxy_http_call`
--   Contexts             the contexts of src/http/ngx_http_wasm_module.c, over a store of objects
--   Log                  `proxy_log`
--   HostApi              the 41 host functions as the engines see them: HostApi/Declared is
--                        src/http/ngx_http_wasm_api_def.h, HostApi/Wasmtime and HostApi/Wasmedge are the
--                        wrappers and tables of src/http/ngx_http_wasm_api_wasmtime.h and
--                        src/http/ngx_http_wasm_api_wasmedge.h, HostApi/Fixed the functions of
--                        src/http/ngx_http_wasm_api.c that do nothing, and HostApi/Functions all of its
--                        functions under their prototypes; HostApi/Agreement relates the tables,
--                        HostApi/Endings, HostApi/Frames, HostApi/Readers, HostApi/ReadPairs,
--                        HostApi/Writers, HostApi/Setters and HostApi/Loops say of the functions behind
--                        the host functions which ones end and what they leave alone, HostApi/Every and
--                        HostApi/Effects say it of the rows of the tables, HostApi/Termination of all
--                        41 of them; HostApi/Dialogue is a plugin and the host by turns, as a step
--                        relation over the table, and HostApi/Answered what the module makes of the
--                        status that the plugin gives on the way
--   Tests                concrete plugins and requests, and the theorems at them
--
-- Parameters. nginx, lua-nginx-module and the engine are not part of the repository: `Nginx` and
-- `Engine` in Host and Vm hold what the code calls of them, `World` in Contexts how a plugin answers,
-- whether memory is short or an array of nginx has room, and what stands in fresh memory. No law is
-- asked of them but where a theorem names it.
--
-- Bounds and fuel. An `int32_t` is a number below 2 ^ 32 whose sign is its top bit; pointers into a
-- buffer are offsets that wrap at 2 ^ 64. The only fuel is that of the loops over a map, which count
-- `idx` up to `len`: one round more than the map's count of entries is enough.
--
-- Not modelled: gen_wasm_host_api.py, which writes the three headers of the tables; the Lua code; the
-- text of nginx's own log lines.
-- The contexts in Contexts do not share a state with the host functions in Host: there a call into a
-- plugin is an answer, with the status or HTTP call that the plugin asked for on the way.
-- HostApi/Answered takes that answer from a dialogue of the plugin with the host functions.
pub mod Prelude
pub mod Words
pub mod Run
pub mod Memory
pub mod Map
pub mod Vm
pub mod Host
pub mod State
pub mod Copy
pub mod Pseudo
pub mod Pairs
pub mod Call
pub mod Chars
pub mod SetHeader
pub mod Buffers
pub mod Contexts
pub mod Loader
pub mod HttpCall
pub mod GetHeader
pub mod LocalResponse
pub mod Property
pub mod Config
pub mod Log
pub mod HostApi
pub mod Tests
