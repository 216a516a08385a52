-- ===== src/Hook.antt =====
-- `HookContext` and the hooked functions of src/libzygisk/src/hook.cpp: `register_hook`, `hook_plt`,
-- `hook_unloader`, `restore_plt_hook`, the replacements of `fork`, `unshare`,
-- `selinux_android_setcontext`, `__android_log_close` and `pthread_attr_destroy`, the destructor of
-- ZygiskContext, and `hook_entry`. `none` is undefined behaviour: `g_hook` is null or dangling where it is read.
pub mod Unload
pub mod Forks
use zygisk_magisk_module.Prelude.{
  ℕ, zero, suc, ℤ, pos, nonneg, eq_ℤ, ◌-◌, Bool, true, false, not, ◌&&◌, Option, none, some, List,
  [], ◌∷◌, ◌++◌, map, if◌then◌else◌,
}
use zygisk_magisk_module.Flags.{has, do_revert_unmount}
use zygisk_magisk_module.World.{
  Text, text, HookedFn, dlclose_fn, fork_fn, unshare_fn, setcontext_fn, strdup_fn, log_close_fn,
  attr_destroy_fn, Target, new_func, old_func, LibCall, forks, closes_log, sets_context, copies,
  closes, unshares, Call, umount, register_hook, commit_hook, scan_maps, original, dlclose,
  NativeMethod, MapInfo, Env, ZygiskModule, Context, PltBackup, HookContext, Pointer, nullptr,
  dangling, live, World,
}
use zygisk_magisk_module.Ipc.Bytes.{emit}
use zygisk_magisk_module.Plt.{ends_with}
use zygisk_magisk_module.Fds.{is_child}
use zygisk_magisk_module.Api.{clear_api}
use zygisk_magisk_module.Jni.Zygote.{restore_zygote_hook}
use zygisk_magisk_module.JniMethods.{
  Method, fork_app_methods, specialize_app_methods, fork_server_methods,
}

-- An entry of a table of jni_hooks.hpp, with the address of our replacement.
abbrev native_method : Env → Method → NativeMethod
native_method env m = record {
  name = m.name;
  signature = m.signature;
  fn = env.replacement m.name m.signature;
}

unfoldable pub new_hook : Env → HookContext
new_hook env = record {
  plt_backup = [];
  runtime_callbacks = 0;
  self_handle = 0;
  should_unmap = false;
  fork_app_methods = map (native_method env) fork_app_methods;
  specialize_app_methods = map (native_method env) specialize_app_methods;
  fork_server_methods = map (native_method env) fork_server_methods;
}

-- `register_hook`: one of our functions is put in place of its original, and noted for the way back.
unfoldable pub register_fn :
    Env → ℕ → ℕ → Text → HookedFn → HookContext × World → HookContext × World
register_fn env dev inode symbol f (h, w) =
    let call = register_hook dev inode symbol (new_func f) in
    if env.registers w.trace call
    then (
      record h {
        plt_backup =
            h.plt_backup ++ record { dev = dev; inode = inode; symbol = symbol; old = f } ∷ [];
      },
      emit call w,
    )
    else (h, emit call w)

-- The device and inode of the two libraries that `hook_plt` looks for, 0 if not found.
pub record Libraries : Type 0 where
  pub runtime_dev : ℕ
  pub runtime_inode : ℕ
  pub bridge_dev : ℕ
  pub bridge_inode : ℕ

abbrev runtime_path : Text
runtime_path = text "/libandroid_runtime.so"

abbrev bridge_path : Text
bridge_path = text "/libnativebridge.so"

abbrev art_path : Text
art_path = text "/libart.so"

-- The loop of `hook_plt`: the last map of each library counts.
unfoldable pub find_libraries : List MapInfo → Libraries → Libraries
find_libraries [] l = l
find_libraries (m ∷ ms) l = find_libraries ms (
    if ends_with m.path runtime_path
    then record l { runtime_dev = m.dev; runtime_inode = m.inode }
    else if ends_with m.path bridge_path
    then record l { bridge_dev = m.dev; bridge_inode = m.inode }
    else l)

-- `std::erase_if`: entries whose backup the commit has not set are dropped.
unfoldable pub keep_backed_up : Env → List Call → List PltBackup → List PltBackup
keep_backed_up env t [] = []
keep_backed_up env t (b ∷ bs) =
    let rest = keep_backed_up env t bs in if env.backed_up t b.old then b ∷ rest else rest

abbrev no_libraries : Libraries
no_libraries = record { runtime_dev = 0; runtime_inode = 0; bridge_dev = 0; bridge_inode = 0 }

unfoldable pub hook_plt : Env → HookContext → World → HookContext × World
hook_plt env h w =
    let l = find_libraries (env.maps w.trace) no_libraries in
    let s : HookContext × World = (h, emit scan_maps w) in
    let s = register_fn env l.bridge_dev l.bridge_inode (text "dlclose") dlclose_fn s in
    let s = register_fn env l.runtime_dev l.runtime_inode (text "fork") fork_fn s in
    let s = register_fn env l.runtime_dev l.runtime_inode (text "unshare") unshare_fn s in
    let s =
      register_fn env l.runtime_dev l.runtime_inode (text "selinux_android_setcontext")
        setcontext_fn s in
    let s = register_fn env l.runtime_dev l.runtime_inode (text "strdup") strdup_fn s in
    let (h', v) =
      register_fn env l.runtime_dev l.runtime_inode (text "__android_log_close") log_close_fn s in
    let t = commit_hook ∷ v.trace in
    (record h' { plt_backup = keep_backed_up env t h'.plt_backup }, record v { trace = t })

-- The loop of `hook_unloader`: the first map of the library counts.
unfoldable pub find_art : List MapInfo → ℕ × ℕ
find_art [] = (0, 0)
find_art (m ∷ ms) =
    let rest = find_art ms in if ends_with m.path art_path then (m.dev, m.inode) else rest

unfoldable pub hook_unloader : Env → HookContext → World → HookContext × World
hook_unloader env h w =
    let (dev, inode) = find_art (env.maps w.trace) in
    let (h', v) =
      register_fn env dev inode (text "pthread_attr_destroy") attr_destroy_fn
        (h, emit scan_maps w) in
    (h', emit commit_hook v)

-- The loop of `restore_plt_hook`: whether all hooks could be registered for their way back.
unfoldable pub restore_all : Env → List PltBackup → World → Bool × World
restore_all env [] w = (true, w)
restore_all env (b ∷ bs) w =
    let call = register_hook b.dev b.inode b.symbol (old_func b.old) in
    let (rest, v) = restore_all env bs (emit call w) in (env.registers w.trace call && rest, v)

unfoldable pub restore_plt_hook : Env → HookContext → World → HookContext × World
restore_plt_hook env h w =
    let (restored, v) = restore_all env h.plt_backup w in
    (
      record h { should_unmap = h.should_unmap && (restored && env.commits v.trace) },
      emit commit_hook v,
    )

-- `new_fork`
unfoldable pub new_fork : Env → World → ℤ × World
new_fork env w =
    if w.g_ctx && nonneg w.ctx.pid
    then (w.ctx.pid, w)
    else (env.int w.trace (original fork_fn), emit (original fork_fn) w)

-- `revert_unmount`
unfoldable pub revert_unmount : World → World
revert_unmount w =
    emit (umount (text "/data/adb/zygisk")) (emit (umount (text "/data/adb/modules")) w)

-- `new_unshare`; the flag CLONE_NEWNS is given.
unfoldable pub new_unshare : Env → Bool → World → ℤ × World
new_unshare env newns w =
    let res = env.int w.trace (original unshare_fn) in
    let v = emit (original unshare_fn) w in
    (
      res,
      if w.g_ctx && (newns && eq_ℤ res (pos 0))
          then (if has v.ctx.flags do_revert_unmount then revert_unmount v else v)
          else v,
    )

-- `new_selinux_android_setcontext` and `new_android_log_close`: the log functions of this build do
-- nothing, so that the original is all there is.
unfoldable pub new_setcontext : World → World
new_setcontext w = emit (original setcontext_fn) w

unfoldable pub new_log_close : World → World
new_log_close w = emit (original log_close_fn) w

-- The destructor of ZygiskContext.
unfoldable pub destroy : Env → World → Option World
destroy env w =
    let v = record w { g_ctx = false } in
    let cleared = record v { ctx = record v.ctx { modules = map clear_api v.ctx.modules } } in
    if not (is_child v.ctx) then some v else (elim v.g_hook [
      | nullptr ↦ none
      | dangling ↦ none
      | live h ↦
          let (h', t) = restore_zygote_hook env (record h { should_unmap = true }) cleared.trace in
          let (h'', u) = hook_unloader env h' (record cleared { trace = t }) in
          some (record u { g_hook = live h'' })
    ])

-- The end of `new_pthread_attr_destroy` on the main thread: the hooks are taken back, and the
-- library is closed if that has worked; `g_hook` is deleted in any case.
abbrev unload : Env → HookContext → World → World
unload env h w =
    let (h', v) = restore_plt_hook env h w in
    let gone = record v { g_hook = dangling } in
    if h'.should_unmap then emit (dlclose h.self_handle) gone else gone

unfoldable pub new_attr_destroy : Env → World → Option World
new_attr_destroy env w =
    let v = emit (original attr_destroy_fn) w in
    if not (env.main_thread v.trace) then some v else (elim v.g_hook [
      | nullptr ↦ none
      | dangling ↦ none
      | live h ↦ some (if h.should_unmap then unload env h v else record v { g_hook = dangling })
    ])

-- `hook_entry`, which `isCompatible` of entry.cpp calls.
unfoldable pub hook_entry : Env → World → World
hook_entry env w = let (h, v) = hook_plt env (new_hook env) w in record v { g_hook = live h }

-- The hooked functions, as the original JNI function calls them.
unfoldable pub lib_call : Env → LibCall → World → World
lib_call env forks w = (new_fork env w).1
lib_call env closes_log w = new_log_close w
lib_call env sets_context w = new_setcontext w
lib_call env copies w = emit (original strdup_fn) w
lib_call env closes w = w
lib_call env (unshares newns) w = (new_unshare env newns w).1

unfoldable pub lib_calls : Env → List LibCall → World → World
lib_calls env [] w = w
lib_calls env (c ∷ cs) w = lib_calls env cs (lib_call env c w)
