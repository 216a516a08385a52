-- ===== src/Modules.antt =====
-- A loaded module in the process: `setOption`, `getFlags`, `tryUnload`, the calls of its five
-- functions with the version dispatch `call_app`, and `run_modules_pre` and `run_modules_post`, of
-- src/libzygisk/src/module.cpp; `onLoad` of module.hpp. What a module's code does is the list of
-- API calls that `Env` gives for a callback; a call takes effect if the module's table holds the
-- function, which is the only way that a module can come by it.
pub mod Frame
pub mod Calls
pub mod Loading
pub mod Loops
pub mod Ids
use zygisk_magisk_module.Prelude.{
  ℕ, suc, ℤ, pos, minus_one, eq_ℤ, Bool, true, false, not, ◌&&◌, ◌||◌, Option, none, some, List, [],
  ◌∷◌, ◌++◌, ◌==◌, if◌then◌else◌,
}
use zygisk_magisk_module.Flags.{
  ModuleOption, force_denylist_unmount, dlclose_module_library, unknown_option, has, add_flag,
  public_flags, do_revert_unmount, app_specialize, server_fork_and_specialize, post_specialize,
}
use zygisk_magisk_module.World.{
  bad_pointer, Text, ModuleAbi, ApiCall, register_module, hook_jni_native_methods,
  plt_hook_register, plt_hook_register_v4, plt_hook_exclude, exempt_fd, plt_hook_commit,
  connect_companion, set_option, get_module_dir, get_flags, Callback, on_load, pre_app, post_app,
  pre_server, post_server, ArgsView, no_args, app_v1, app_v5, server_v1, module_func, Call, fstat,
  dlopen, dlsym, dlclose, enter_module, register_hook, commit_hook, NativeMethod, HookContext,
  Pointer, nullptr, dangling, live, Env, ApiFn, null, register_module_impl, hook_jni_fn,
  ctx_plt_hook_register, lsplt_register_hook, ctx_plt_hook_exclude, ctx_exempt_fd,
  ctx_plt_hook_commit, lsplt_commit_hook, connect_companion_fn, set_option_fn, get_module_dir_fn,
  get_flags_fn, ApiTable, ZygiskModule, Context, World,
}
use zygisk_magisk_module.Ipc.Bytes.{emit}
use zygisk_magisk_module.Plt
use zygisk_magisk_module.Fds
use zygisk_magisk_module.Jni.{hook_jni_methods}
use zygisk_magisk_module.Companion
use zygisk_magisk_module.Companion.{close_owned}
use zygisk_magisk_module.Api
use zygisk_magisk_module.Api.{new_module, valid}

-- Which function a word of a table holds, as a number.
abbrev tag : ApiFn → ℕ
tag null = 0
tag register_module_impl = 1
tag hook_jni_fn = 2
tag ctx_plt_hook_register = 3
tag lsplt_register_hook = 4
tag ctx_plt_hook_exclude = 5
tag ctx_exempt_fd = 6
tag ctx_plt_hook_commit = 7
tag lsplt_commit_hook = 8
tag connect_companion_fn = 9
tag set_option_fn = 10
tag get_module_dir_fn = 11
tag get_flags_fn = 12

any_slot : ApiFn → List ApiFn → Bool
any_slot f [] = false
any_slot f (g ∷ slots) = let rest = any_slot f slots in if tag g == tag f then true else rest

-- A table holds a function.
unfoldable pub offers : ApiTable → ApiFn → Bool
unfolding any_slot
offers t f = (tag t.registrar == tag f) || any_slot f t.slots

-- `setOption`, on the module and the context, if there is one.
unfoldable pub apply_option : ModuleOption → ZygiskModule → World → ZygiskModule × World
apply_option option m w = if not w.g_ctx then (m, w) else (elim option [
  | force_denylist_unmount ↦
      (m, record w { ctx = record w.ctx { flags = add_flag w.ctx.flags do_revert_unmount } })
  | dlclose_module_library ↦ (record m { unload = true }, w)
  | unknown_option n ↦ (m, w)
])

-- `getFlags`
unfoldable pub visible_flags : World → ℕ
visible_flags w = if w.g_ctx then public_flags w.ctx.info_flags else 0

-- `tryUnload`
unfoldable pub try_unload : ZygiskModule → World → World
try_unload m w = if m.unload then emit (dlclose m.handle) w else w

-- What a context function does, if there is a context.
abbrev on_ctx : (Context → Context) → World → World
on_ctx f w = if w.g_ctx then record w { ctx = f w.ctx } else w

-- The `pltHookRegister` of version 4: a null symbol or function, or a zero device or inode, is
-- ignored.
pub register_checked : ℕ → ℕ → Option Text → ℕ → World → World
register_checked dev inode none fn w = w
register_checked dev inode (some symbol) fn w =
    if (dev == 0) || ((inode == 0) || (fn == 0))
    then w
    else emit (register_hook dev inode symbol (module_func fn)) w

-- `hookJniNativeMethods`. Undefined behaviour, through another `g_hook` than a live one,
-- is noted. The functions that the module gets back are left to `Env`, which knows the
-- calls that they come from.
pub hook_jni_native :
    Env → Bool → Option Text → List NativeMethod → Pointer HookContext → World → World
hook_jni_native env given clz methods nullptr w = emit bad_pointer w
hook_jni_native env given clz methods dangling w = emit bad_pointer w
hook_jni_native env given clz methods (live h) w = record w {
  trace = (hook_jni_methods env h given clz methods w.trace).1;
}

-- The body of an API function, as a module reaches it.
unfoldable pub call_api : Env → ApiCall → ZygiskModule → World → ZygiskModule × World
call_api env (register_module abi) m w = ((Api.register_module true abi m).1, w)
call_api env (hook_jni_native_methods given clz methods) m w =
    (m, hook_jni_native env given clz methods w.g_hook w)
call_api env (plt_hook_register regex symbol fn) m w =
    (m, on_ctx (Plt.plt_hook_register env regex symbol fn) w)
call_api env (plt_hook_register_v4 dev inode symbol fn) m w =
    (m, register_checked dev inode symbol fn w)
call_api env (plt_hook_exclude regex symbol) m w =
    (m, on_ctx (Plt.plt_hook_exclude env regex symbol) w)
call_api env (exempt_fd fd) m w = (m, on_ctx (λ c. (Fds.exempt_fd fd c).1) w)
call_api env plt_hook_commit m w = (
  m,
  if offers m.api lsplt_commit_hook
      then emit commit_hook w
      else if w.g_ctx
      then (Plt.plt_hook_commit env w).1
      else w,
)
call_api env connect_companion m w = (m, (Companion.companion_fd env m.id w).1)
call_api env (set_option option) m w = apply_option option m w
call_api env get_module_dir m w = (m, (Companion.module_dir_fd env m.id w).1)
call_api env get_flags m w = (m, w)

-- The function that a call needs in the table; a commit is one of two.
abbrev pub needs : ApiTable → ApiCall → Bool
needs t (register_module abi) = offers t register_module_impl
needs t (hook_jni_native_methods given clz methods) = offers t hook_jni_fn
needs t (plt_hook_register regex symbol fn) = offers t ctx_plt_hook_register
needs t (plt_hook_register_v4 dev inode symbol fn) = offers t lsplt_register_hook
needs t (plt_hook_exclude regex symbol) = offers t ctx_plt_hook_exclude
needs t (exempt_fd fd) = offers t ctx_exempt_fd
needs t plt_hook_commit = offers t ctx_plt_hook_commit || offers t lsplt_commit_hook
needs t connect_companion = offers t connect_companion_fn
needs t (set_option option) = offers t set_option_fn
needs t get_module_dir = offers t get_module_dir_fn
needs t get_flags = offers t get_flags_fn

unfoldable pub invoke : Env → ApiCall → ZygiskModule → World → ZygiskModule × World
invoke env c m w = if needs m.api c then call_api env c m w else (m, w)

unfoldable pub invoke_all : Env → List ApiCall → ZygiskModule → World → ZygiskModule × World
invoke_all env [] m w = (m, w)
invoke_all env (c ∷ cs) m w = let (m', w') = invoke env c m w in invoke_all env cs m' w'

-- A call of one of the module's functions.
unfoldable pub enter : Env → Callback → ArgsView → ZygiskModule → World → ZygiskModule × World
enter env cb view m w =
    invoke_all env (env.behaviour w.trace m.id cb) m (emit (enter_module m.id cb view) w)

-- The switch of `call_app`: the argument struct that a version is handed.
unfoldable pub app_view : ℤ → Option ArgsView
app_view version =
    if eq_ℤ version (pos 1) || eq_ℤ version (pos 2)
    then some app_v1
    else if eq_ℤ version (pos 3) || (eq_ℤ version (pos 4) || eq_ℤ version (pos 5))
    then some app_v5
    else none

-- `preAppSpecialize` or `postAppSpecialize`. A module without an ABI struct is never asked.
unfoldable pub call_app : Env → Callback → ZygiskModule → World → ZygiskModule × World
call_app env cb m w = elim m.abi [
  | none ↦ (m, w)
  | some a ↦ elim (app_view a.api_version) [ none ↦ (m, w) | some view ↦ enter env cb view m w ]
]

-- `preServerSpecialize` or `postServerSpecialize`
unfoldable pub call_server : Env → Callback → ZygiskModule → World → ZygiskModule × World
call_server env cb m w = elim m.abi [ none ↦ (m, w) | some a ↦ enter env cb server_v1 m w ]

-- Which of a module's functions the flags of the context ask for.
unfoldable pub specialize : Env → Callback → Callback → ZygiskModule → World → ZygiskModule × World
specialize env for_app for_server m w =
    if has w.ctx.flags app_specialize
    then call_app env for_app m w
    else if has w.ctx.flags server_fork_and_specialize
    then call_server env for_server m w
    else (m, w)

-- `fstat` succeeds and `S_ISREG` holds.
abbrev is_regular : Option Bool → Bool
is_regular none = false
is_regular (some b) = b

-- The first loop of `run_modules_pre`, at one descriptor: its new value in `fds`. The descriptor is
-- closed at the end of the round in any case.
unfoldable pub load_fd : Env → ℕ → ℤ → World → ℤ × World
load_fd env i fd w =
    let regular = env.regular w.trace fd in
    let asked = emit (fstat fd) w in
    let handle = env.loading asked.trace fd in
    let loaded = emit (dlopen fd) asked in
    let entry = env.symbol loaded.trace handle in
    let found = emit (dlsym handle) loaded in
    if not (is_regular regular)
    then (minus_one, close_owned fd asked)
    else if not (handle == 0)
    then (
      fd,
      close_owned fd (
          if entry == 0 then found else record found {
            ctx = record found.ctx {
              modules = found.ctx.modules ++ new_module i handle entry ∷ [];
            };
          }),
    )
    else if has w.ctx.flags server_fork_and_specialize
    then (minus_one, close_owned fd loaded)
    else (fd, close_owned fd loaded)

unfoldable pub load_fds : Env → ℕ → List ℤ → World → List ℤ × World
load_fds env i [] w = ([], w)
load_fds env i (fd ∷ fds) w =
    let (fd', w') = load_fd env i fd w in
    let (fds', w'') = load_fds env (suc i) fds w' in (fd' ∷ fds', w'')

-- The second loop: `onLoad`, and a module that is not valid after it is dropped.
unfoldable pub load_modules : Env → List ZygiskModule → World → List ZygiskModule × World
load_modules env [] w = ([], w)
load_modules env (m ∷ ms) w =
    let (m', w') = enter env on_load no_args m w in
    let (ms', w'') = load_modules env ms w' in (if valid m' then m' ∷ ms' else ms', w'')

-- The third loop.
unfoldable pub pre_specialize : Env → List ZygiskModule → World → List ZygiskModule × World
pre_specialize env [] w = ([], w)
pre_specialize env (m ∷ ms) w =
    let (m', w') = specialize env pre_app pre_server m w in
    let (ms', w'') = pre_specialize env ms w' in (m' ∷ ms', w'')

abbrev with_modules : List ZygiskModule × World → World
with_modules (ms, w) = record w { ctx = record w.ctx { modules = ms } }

-- No API function looks at the list of modules, so that it is put back at the end of each loop.
unfoldable pub run_modules_pre : Env → List ℤ → World → World
run_modules_pre env fds w =
    let v = (load_fds env 0 fds w).1 in
    let u = with_modules (load_modules env v.ctx.modules v) in
    with_modules (pre_specialize env u.ctx.modules u)

-- The loop of `run_modules_post`.
unfoldable pub post_specialize_all : Env → List ZygiskModule → World → List ZygiskModule × World
post_specialize_all env [] w = ([], w)
post_specialize_all env (m ∷ ms) w =
    let (m', w') = specialize env post_app post_server m w in
    let (ms', w'') = post_specialize_all env ms (try_unload m' w') in (m' ∷ ms', w'')

unfoldable pub run_modules_post : Env → World → World
run_modules_post env w =
    let v = record w { ctx = record w.ctx { flags = add_flag w.ctx.flags post_specialize } } in
    with_modules (post_specialize_all env v.ctx.modules v)
