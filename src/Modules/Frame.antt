-- ===== src/Modules/Frame.antt =====
-- What the API functions leave alone, whatever a module asks for.
use zygisk_magisk_module.Prelude.{
  ℕ, zero, suc, ℤ, ◌≡◌, refl, ◌∙◌, Bool, true, false, Option, none, some, List, [], ◌∷◌, arith,
  if◌then◌else◌, Bool-cases, inl, inr,
}
use zygisk_magisk_module.Flags.{
  StateFlag, ModuleOption, ZygiskRequest, connect_companion as request_companion,
  get_module_dir as request_dir, has, do_revert_unmount,
}
use zygisk_magisk_module.Flags.Laws.{has-add_flag, same}
use zygisk_magisk_module.World.{
  Callback, ArgsView, Call, enter_module, ApiCall, Env, ZygiskModule, Context, World, MapInfo,
  IgnoreInfo, RegisterInfo, register_hook, module_func, scan_maps, register_module,
  hook_jni_native_methods, plt_hook_register, plt_hook_register_v4, plt_hook_exclude, exempt_fd,
  plt_hook_commit, connect_companion, set_option, get_module_dir, get_flags, Text,
  lsplt_commit_hook, NativeMethod, HookContext, Pointer, nullptr, dangling, live,
}
use zygisk_magisk_module.Ipc.Connect.{
  connect_loop, connect_fuel, next_delay, retried, zygisk_connect,
}
use zygisk_magisk_module.Companion.{zygisk_request_fd, companion_fd, module_dir_fd, write_int}
use zygisk_magisk_module.Trace.{Grows-view}
use zygisk_magisk_module.Jni.Frame.{is_jni, hook_jni_methods-Grows}
use zygisk_magisk_module.Plt
use zygisk_magisk_module.Fds
use zygisk_magisk_module.Modules.{
  hook_jni_native, invoke, invoke_all, call_api, on_ctx, apply_option, register_checked, needs,
  offers,
}

-- A call of a module's function.
pub record Entry : Type 0 where
  pub id : ℕ
  pub callback : Callback
  pub view : ArgsView

-- The calls of modules' functions on a trace, the newest first.
unfoldable pub entries : List Call → List Entry
entries [] = []
entries (enter_module i cb view ∷ t) = record { id = i; callback = cb; view = view } ∷ entries t
entries (c ∷ t) = entries t

-- No call of a module's function; the modules, the process id, the answer of the daemon and both
-- globals stay; and of the flags only DO_REVERT_UNMOUNT may change.
pub record IsQuiet (w v : World) : Type 0 where
  pub same_entries : entries v.trace ≡ entries w.trace
  pub same_modules : v.ctx.modules ≡ w.ctx.modules
  pub same_pid : v.ctx.pid ≡ w.ctx.pid
  pub same_info : v.ctx.info_flags ≡ w.ctx.info_flags
  pub same_hook : v.g_hook ≡ w.g_hook
  pub same_ctx : v.g_ctx ≡ w.g_ctx
  pub same_flags :
      (f : StateFlag) → same do_revert_unmount f ≡ false → has v.ctx.flags f ≡ has w.ctx.flags f

pub IsQuiet-refl : (w : World) → IsQuiet w w
IsQuiet-refl w = record {
  same_entries = refl;
  same_modules = refl;
  same_pid = refl;
  same_info = refl;
  same_hook = refl;
  same_ctx = refl;
  same_flags = λ f n. refl;
}

pub IsQuiet-trans : {u v w : World} → IsQuiet u v → IsQuiet v w → IsQuiet u w
IsQuiet-trans p q = record {
  same_entries = q.same_entries ∙ p.same_entries;
  same_modules = q.same_modules ∙ p.same_modules;
  same_pid = q.same_pid ∙ p.same_pid;
  same_info = q.same_info ∙ p.same_info;
  same_hook = q.same_hook ∙ p.same_hook;
  same_ctx = q.same_ctx ∙ p.same_ctx;
  same_flags = λ f n. q.same_flags f n ∙ p.same_flags f n;
}

-- A world that differs in its connection, and in calls on the trace that enter no module.
IsQuiet-outside :
    (w v : World)
    → entries v.trace ≡ entries w.trace
    → v.ctx ≡ w.ctx
    → v.g_hook ≡ w.g_hook
    → v.g_ctx ≡ w.g_ctx
    → IsQuiet w v
IsQuiet-outside w v e c h g = record {
  same_entries = e;
  same_modules = cc;
  same_pid = cc;
  same_info = cc;
  same_hook = h;
  same_ctx = g;
  same_flags = λ f n. cc;
}

abbrev pub Same : World → World → Type 0
Same w v =
    (entries v.trace ≡ entries w.trace)
    × (v.ctx ≡ w.ctx)
    × (v.g_hook ≡ w.g_hook)
    × (v.g_ctx ≡ w.g_ctx)

connect_loop-Same :
    (env : Env) (fuel delay : ℕ) (w : World) → Same w (connect_loop env fuel delay w).1
unfolding connect_loop entries
connect_loop-Same env zero delay w = (refl, refl, refl, refl)
connect_loop-Same env (suc fuel) delay w =
    ground (arith, connect_loop-Same env fuel (next_delay delay) (retried env delay w))

zygisk_connect-Same : (env : Env) (w : World) → Same w (zygisk_connect env w).1
unfolding zygisk_connect
zygisk_connect-Same env w = ground (arith, connect_loop-Same env connect_fuel 100 w)

pub request_fd-Same :
    (env : Env) (req : ZygiskRequest) (w : World) → Same w (zygisk_request_fd env req w).1
unfolding zygisk_request_fd entries
request_fd-Same env req w = ground (arith, zygisk_connect-Same env w)

companion_fd-Same : (env : Env) (id : ℕ) (w : World) → Same w (companion_fd env id w).1
unfolding companion_fd write_int entries
companion_fd-Same env id w = ground (arith, request_fd-Same env request_companion w)

module_dir_fd-Same : (env : Env) (id : ℕ) (w : World) → Same w (module_dir_fd env id w).1
unfolding module_dir_fd write_int entries
module_dir_fd-Same env id w = ground (arith, request_fd-Same env request_dir w)

entries-register_all :
    (env : Env) (m : MapInfo) (is : List IgnoreInfo) (rs : List RegisterInfo) (t : List Call)
    → entries (Plt.register_all env m is rs t) ≡ entries t
unfolding Plt.register_all entries
entries-register_all env m is [] t = refl
entries-register_all env m is (r ∷ rs) t = ground (
  arith,
  entries-register_all env m is rs t,
  entries-register_all env m is rs
      (register_hook m.dev m.inode r.symbol (module_func r.callback) ∷ t),
)

entries-process_maps :
    (env : Env) (c : Context) (ms : List MapInfo) (t : List Call)
    → entries (Plt.process_maps env c ms t) ≡ entries t
unfolding Plt.process_maps
entries-process_maps env c [] t = refl
entries-process_maps env c (m ∷ ms) t = ground (
  arith,
  entries-register_all env m c.ignore_info c.register_info t,
  entries-process_maps env c ms t,
  entries-process_maps env c ms (Plt.register_all env m c.ignore_info c.register_info t),
)

plt_hook_commit-IsQuiet : (env : Env) (w : World) → IsQuiet w (Plt.plt_hook_commit env w).1
unfolding Plt.plt_hook_commit Plt.plt_hook_process_regex entries
plt_hook_commit-IsQuiet env w = record {
  same_entries =
      ground (arith, entries-process_maps env w.ctx (env.maps w.trace) (scan_maps ∷ w.trace));
  same_modules = ground arith;
  same_pid = ground arith;
  same_info = ground arith;
  same_hook = ground arith;
  same_ctx = ground arith;
  same_flags = λ f n. ground arith;
}

Same-IsQuiet : (w v : World) → Same w v → IsQuiet w v
Same-IsQuiet w v s = IsQuiet-outside w v s.0 s.1 s.2 s.3

-- A context function that keeps all but the registrations and the exempted descriptors.
abbrev Keeps : Context → Context → Type 0
Keeps c d =
    (d.modules ≡ c.modules) × (d.pid ≡ c.pid) × (d.info_flags ≡ c.info_flags) × (d.flags ≡ c.flags)

on_ctx-IsQuiet :
    (f : Context → Context) (w : World) → Keeps w.ctx (f w.ctx) → IsQuiet w (on_ctx f w)
on_ctx-IsQuiet f w k = record {
  same_entries = ground arith;
  same_modules = ground arith;
  same_pid = ground arith;
  same_info = ground arith;
  same_hook = ground arith;
  same_ctx = ground arith;
  same_flags = λ f n. ground arith;
}

plt_hook_register-Keeps :
    (env : Env) (regex symbol : Option Text) (fn : ℕ) (c : Context)
    → Keeps c (Plt.plt_hook_register env regex symbol fn c)
unfolding Plt.plt_hook_register
plt_hook_register-Keeps env none symbol fn c = (refl, refl, refl, refl)
plt_hook_register-Keeps env (some regex) none fn c = (refl, refl, refl, refl)
plt_hook_register-Keeps env (some regex) (some symbol) fn c = ground arith

plt_hook_exclude-Keeps :
    (env : Env) (regex symbol : Option Text) (c : Context)
    → Keeps c (Plt.plt_hook_exclude env regex symbol c)
unfolding Plt.plt_hook_exclude
plt_hook_exclude-Keeps env none symbol c = (refl, refl, refl, refl)
plt_hook_exclude-Keeps env (some regex) symbol c = ground arith

exempt_fd-Keeps : (fd : ℤ) (c : Context) → Keeps c (Fds.exempt_fd fd c).1
unfolding Fds.exempt_fd
exempt_fd-Keeps fd c = ground arith

register_checked-IsQuiet :
    (dev inode fn : ℕ) (symbol : Option Text) (w : World)
    → IsQuiet w (register_checked dev inode symbol fn w)
unfolding register_checked entries
register_checked-IsQuiet dev inode fn none w = IsQuiet-refl w
register_checked-IsQuiet dev inode fn (some symbol) w =
    Same-IsQuiet w _ (ground arith, ground arith, ground arith, ground arith)

apply_option-IsQuiet :
    (o : ModuleOption) (m : ZygiskModule) (w : World) → IsQuiet w (apply_option o m w).1
unfolding apply_option
apply_option-IsQuiet o m w = record {
  same_entries = ground arith;
  same_modules = ground arith;
  same_pid = ground arith;
  same_info = ground arith;
  same_hook = ground arith;
  same_ctx = ground arith;
  same_flags = λ f n. ground (arith, has-add_flag w.ctx.flags do_revert_unmount f);
}

IsQuiet-if : {w u v : World} (b : Bool) → IsQuiet w u → IsQuiet w v → IsQuiet w (if b then u else v)
IsQuiet-if true p q = p
IsQuiet-if false p q = q

pub entries-is_jni : (c : Call) (t : List Call) → is_jni c ≡ true → entries (c ∷ t) ≡ entries t
unfolding entries is_jni
entries-is_jni (enter_module i cb view) t k = absurd (cc)
entries-is_jni c t k = refl

hook_jni_native-IsQuiet :
    (env : Env) (given : Bool) (clz : Option Text) (methods : List NativeMethod)
    (g : Pointer HookContext) (w : World)
    → IsQuiet w (hook_jni_native env given clz methods g w)
unfolding hook_jni_native entries
hook_jni_native-IsQuiet env given clz methods nullptr w = IsQuiet-outside w _ refl refl refl refl
hook_jni_native-IsQuiet env given clz methods dangling w = IsQuiet-outside w _ refl refl refl refl
hook_jni_native-IsQuiet env given clz methods (live h) w =
    IsQuiet-outside w _
      (Grows-view is_jni entries entries-is_jni w.trace _
        (hook_jni_methods-Grows env h given clz methods w.trace))
      refl refl refl

call_api-IsQuiet :
    (env : Env) (c : ApiCall) (m : ZygiskModule) (w : World) → IsQuiet w (call_api env c m w).1
unfolding call_api entries
call_api-IsQuiet env (register_module abi) m w = IsQuiet-refl w
call_api-IsQuiet env (hook_jni_native_methods given clz methods) m w =
    hook_jni_native-IsQuiet env given clz methods w.g_hook w
call_api-IsQuiet env (plt_hook_register regex symbol fn) m w =
    on_ctx-IsQuiet (Plt.plt_hook_register env regex symbol fn) w
      (plt_hook_register-Keeps env regex symbol fn w.ctx)
call_api-IsQuiet env (plt_hook_register_v4 dev inode symbol fn) m w =
    register_checked-IsQuiet dev inode fn symbol w
call_api-IsQuiet env (plt_hook_exclude regex symbol) m w =
    on_ctx-IsQuiet (Plt.plt_hook_exclude env regex symbol) w
      (plt_hook_exclude-Keeps env regex symbol w.ctx)
call_api-IsQuiet env (exempt_fd fd) m w =
    on_ctx-IsQuiet (λ c. (Fds.exempt_fd fd c).1) w (exempt_fd-Keeps fd w.ctx)
call_api-IsQuiet env plt_hook_commit m w =
    IsQuiet-if (offers m.api lsplt_commit_hook) (IsQuiet-outside w _ refl refl refl refl)
      (IsQuiet-if w.g_ctx (plt_hook_commit-IsQuiet env w) (IsQuiet-refl w))
call_api-IsQuiet env connect_companion m w = Same-IsQuiet w _ (companion_fd-Same env m.id w)
call_api-IsQuiet env (set_option option) m w = apply_option-IsQuiet option m w
call_api-IsQuiet env get_module_dir m w = Same-IsQuiet w _ (module_dir_fd-Same env m.id w)
call_api-IsQuiet env get_flags m w = IsQuiet-refl w

invoke-IsQuiet :
    (env : Env) (c : ApiCall) (m : ZygiskModule) (w : World) → IsQuiet w (invoke env c m w).1
unfolding invoke
invoke-IsQuiet env c m w = elim (Bool-cases (needs m.api c)) [
  | inl there ↦ rw there (call_api-IsQuiet env c m w)
  | inr missing ↦ rw missing (IsQuiet-refl w)
]

pub invoke_all-IsQuiet :
    (env : Env) (cs : List ApiCall) (m : ZygiskModule) (w : World)
    → IsQuiet w (invoke_all env cs m w).1
unfolding invoke_all
invoke_all-IsQuiet env [] m w = IsQuiet-refl w
invoke_all-IsQuiet env (c ∷ cs) m w =
    let r = invoke env c m w in
    IsQuiet-trans (invoke-IsQuiet env c m w) (invoke_all-IsQuiet env cs r.0 r.1)
