-- ===== src/Examples/Processes.antt =====
-- Whole processes: forks, the denylist, and the unloading, on the concrete phone.
use zygisk_magisk_module.Companion.{zygisk_request_fd}
use zygisk_magisk_module.Examples.{phone, method, hook, loaded, state, jni_args}
use zygisk_magisk_module.Fds.{is_child, fork_pre}
use zygisk_magisk_module.Flags.{has, do_revert_unmount, is_unmount}
use zygisk_magisk_module.Hook.{
  lib_calls, destroy, new_fork, restore_all, restore_plt_hook, new_attr_destroy,
}
use zygisk_magisk_module.Hook.Forks.{lib_calls-fork, lib_calls-umount, Unshared, IsMounted}
use zygisk_magisk_module.Hook.Unload.{
  AllRestored, new_attr_destroy-closes, new_attr_destroy_twice, IsCutOff, destroy-IsCutOff,
}
use zygisk_magisk_module.Ipc.Bytes.{emit, decode_response, xxread, encode_response}
use zygisk_magisk_module.Ipc.Connect.{zygisk_connect, connect_loop}
use zygisk_magisk_module.JniMethods.{JniArgs, Method}
use zygisk_magisk_module.Lifecycle.{construct, native_specialize_app_process_pre}
use zygisk_magisk_module.Modules.Frame.{entries}
use zygisk_magisk_module.Prelude.{
  ℕ, ◌≡◌, refl, ◌↔◌, true, false, some, List, [], ◌∷◌, Occurs, ◌⊎◌, All, none, pos, minus_one,
  Option,
}
use zygisk_magisk_module.Scan.{get_module_info}
use zygisk_magisk_module.World.{
  HookContext, live, LibCall, forks, unshares, fork, sigprocmask_block, original, fork_fn, Text,
  umount, Env, World, register_hook, old_func, dlclose, attr_destroy_fn, text, dangling,
  commit_hook, dlclose_fn,
}
use zygisk_magisk_module.Wrappers.{fork_app, fork_server, specialize_app}
use zygisk_magisk_module.Wrappers.Child.{forking}
use zygisk_magisk_module.Wrappers.Denied.{specialize_app_denied}
use zygisk_magisk_module.Wrappers.System.{forking_server}
use zygisk_magisk_module.Wrappers.Zygote.{LeavesZygote, fork_methods_zygote}

-- After the unloading.
abbrev unloaded : World
unloaded = record (state (pos 0) 4 []) {
  g_hook = dangling;
  trace =
      dlclose 0xa000
      ∷ commit_hook
      ∷ register_hook 7 70 (text "dlclose") (old_func dlclose_fn)
      ∷ original attr_destroy_fn
      ∷ [];
}

abbrev or_start : Option World → World
or_start none = state minus_one 0 []
or_start (some w) = w

-- The child that is to become an app.
abbrev app_child : World
app_child = or_start (fork_pre (phone (pos 0) 1) (forking 8 method jni_args (state minus_one 0 [])))

-- And the one that is to become the system server.
abbrev server_child : World
server_child =
    or_start (fork_pre (phone (pos 0) 1) (forking_server 8 method jni_args (state minus_one 0 [])))

fork_methods_zygote_example :
    let env : Env = phone (pos 42) 1 in
    let fd_max : ℕ = 8 in
    let m : Method = method in
    let j : JniArgs = jni_args in
    let w : World = state minus_one 0 [] in
    let pid = env.int (sigprocmask_block ∷ w.trace) fork in
    ((v : World) × (fork_app env fd_max m j w ≡ some (pid, v)) × LeavesZygote w v)
    × ((v : World) × (fork_server env fd_max m j w ≡ some (pid, v)) × LeavesZygote w v)
fork_methods_zygote_example =
    fork_methods_zygote (phone (pos 42) 1) 8 method jni_args (state minus_one 0 []) hook refl refl
      refl

specialize_app_denied_example :
    let env : Env = phone (pos 0) 6 in
    let fd_max : ℕ = 8 in
    let m : Method = method in
    let j : JniArgs = jni_args in
    let w : World = state minus_one 0 [] in
    let u = native_specialize_app_process_pre env (construct fd_max (m.noted j) w) in
    (v : World) × (specialize_app env fd_max m j w ≡ some v)
    × (entries v.trace ≡ entries w.trace)
    × ((path : Text)
        → Occurs (umount path) v.trace ↔ (
            Occurs (umount path) u.trace
            ⊎ (Unshared env (env.original_calls u.trace) u × IsMounted path)))
unfolding get_module_info is_unmount zygisk_request_fd zygisk_connect construct connect_loop
    decode_response xxread encode_response
specialize_app_denied_example =
    specialize_app_denied (phone (pos 0) 6) 8 method jni_args (state minus_one 0 []) hook refl refl

destroy-IsCutOff_example :
    let env : Env = phone (pos 0) 1 in
    let w : World = state (pos 0) 4 (loaded ∷ []) in
    (is_child w.ctx ≡ false → destroy env w ≡ some (record w { g_ctx = false }))
    × (is_child w.ctx ≡ true
        → (v : World) × (h' : HookContext) × (destroy env w ≡ some v)
          × (v.g_hook ≡ live h')
          × (h'.should_unmap ≡ true)
          × (v.g_ctx ≡ false)
          × All (IsCutOff env) v.ctx.modules)
destroy-IsCutOff_example =
    destroy-IsCutOff (phone (pos 0) 1) (state (pos 0) 4 (loaded ∷ [])) hook refl

new_attr_destroy-closes_example :
    let env : Env = phone (pos 0) 1 in
    let w : World = state (pos 0) 4 [] in
    let v : World = unloaded in
    let h : HookContext = hook in
    let u = emit (original attr_destroy_fn) w in
    Occurs (dlclose h.self_handle) v.trace ↔ (
      ((h.should_unmap ≡ true)
        × AllRestored env h.plt_backup u
        × (env.commits (restore_all env h.plt_backup u).1.trace ≡ true))
      ⊎ Occurs (dlclose h.self_handle) w.trace)
unfolding new_attr_destroy restore_plt_hook restore_all
new_attr_destroy-closes_example =
    new_attr_destroy-closes (phone (pos 0) 1) (state (pos 0) 4 []) unloaded hook refl refl refl

lib_calls-fork_example :
    let env : Env = phone (pos 0) 1 in
    let cs : List LibCall = forks ∷ unshares true ∷ [] in
    let w : World = state (pos 0) 4 [] in
    ((new_fork env (lib_calls env cs w)).0 ≡ w.ctx.pid)
    × (Occurs (original fork_fn) (lib_calls env cs w).trace ↔ Occurs (original fork_fn) w.trace)
lib_calls-fork_example =
    lib_calls-fork (phone (pos 0) 1) (forks ∷ unshares true ∷ []) (state (pos 0) 4 []) refl refl

lib_calls-umount_example :
    let env : Env = phone (pos 0) 1 in
    let cs : List LibCall = forks ∷ unshares true ∷ [] in
    let w : World = state (pos 0) 20 [] in
    let path : Text = text "/data/adb/zygisk" in
    Occurs (umount path) (lib_calls env cs w).trace ↔ (
      Occurs (umount path) w.trace
      ⊎ ((has w.ctx.flags do_revert_unmount ≡ true) × Unshared env cs w × IsMounted path))
lib_calls-umount_example =
    lib_calls-umount (phone (pos 0) 1) (forks ∷ unshares true ∷ []) (state (pos 0) 20 [])
      (text "/data/adb/zygisk") refl

new_attr_destroy_twice_example :
    let env : Env = phone (pos 0) 1 in let v : World = unloaded in new_attr_destroy env v ≡ none
unfolding new_attr_destroy restore_plt_hook restore_all
new_attr_destroy_twice_example =
    new_attr_destroy_twice (phone (pos 0) 1) (state (pos 0) 4 []) unloaded hook refl refl refl refl
