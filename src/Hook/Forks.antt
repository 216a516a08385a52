-- ===== src/Hook/Forks.antt =====
-- What the hooks of `fork` and `unshare` do for the original JNI function, whatever it calls and
-- in whatever order.
use zygisk_magisk_module.Prelude.{
  pos, nonneg, eq_ℤ_iff, ◌≡◌, ap, ◌∙◌, ◌↔◌, ◌⊎◌, true, List, [], ◌∷◌, arith, Occurs,
}
use zygisk_magisk_module.Flags.{has, do_revert_unmount}
use zygisk_magisk_module.World.{
  Text, text, fork_fn, unshare_fn, LibCall, forks, closes_log, sets_context, copies, closes,
  unshares, umount, original, Env, World,
}
use zygisk_magisk_module.Hook.{
  new_fork, new_unshare, revert_unmount, lib_call, lib_calls, new_setcontext, new_log_close,
}

lib_call-Keeps :
    (env : Env) (c : LibCall) (w : World)
    → ((lib_call env c w).ctx ≡ w.ctx) × ((lib_call env c w).g_ctx ≡ w.g_ctx)
unfolding lib_call new_fork new_unshare revert_unmount new_setcontext new_log_close
lib_call-Keeps env forks w = ground arith
lib_call-Keeps env closes_log w = ground arith
lib_call-Keeps env sets_context w = ground arith
lib_call-Keeps env copies w = ground arith
lib_call-Keeps env closes w = ground arith
lib_call-Keeps env (unshares newns) w = ground arith

abbrev HasForked : World → Type 0
HasForked w = (w.g_ctx ≡ true) × (nonneg w.ctx.pid ≡ true)

lib_call-fork :
    (env : Env) (c : LibCall) (w : World)
    → HasForked w
    → Occurs (original fork_fn) (lib_call env c w).trace ↔ Occurs (original fork_fn) w.trace
unfolding lib_call new_fork new_unshare revert_unmount new_setcontext new_log_close
lib_call-fork env forks w up = ground arith
lib_call-fork env closes_log w up = ground arith
lib_call-fork env sets_context w up = ground arith
lib_call-fork env copies w up = ground arith
lib_call-fork env closes w up = ground arith
lib_call-fork env (unshares newns) w up = ground arith

-- While a context that has forked is in place, `fork` answers the process id of that fork, and no
-- sequence of calls of hooked functions forks once more.
pub lib_calls-fork :
    (env : Env) (cs : List LibCall) (w : World)
    → w.g_ctx ≡ true
    → nonneg w.ctx.pid ≡ true
    → ((new_fork env (lib_calls env cs w)).0 ≡ w.ctx.pid)
      × (Occurs (original fork_fn) (lib_calls env cs w).trace ↔ Occurs (original fork_fn) w.trace)
unfolding lib_calls new_fork
lib_calls-fork env [] w up pid = ground arith
lib_calls-fork env (c ∷ cs) w up pid =
    let (same, still) = lib_call-Keeps env c w in
    ground (
      arith,
      lib_call-fork env c w (up, pid),
      lib_calls-fork env cs (lib_call env c w) (still ∙ up) (ap (λ x. nonneg x.pid) same ∙ pid),
    )

-- Some call of `unshare` asks for a new mount namespace and gets it.
abbrev pub Unshared : Env → List LibCall → World → Type 0
Unshared env [] w = ⊥
Unshared env (c ∷ cs) w =
    ((c ≡ unshares true) × (env.int w.trace (original unshare_fn) ≡ pos 0))
    ⊎ Unshared env cs (lib_call env c w)

abbrev pub IsMounted : Text → Type 0
IsMounted path = (path ≡ text "/data/adb/modules") ⊎ (path ≡ text "/data/adb/zygisk")

lib_call-umount :
    (env : Env) (c : LibCall) (w : World) (path : Text)
    → w.g_ctx ≡ true
    → Occurs (umount path) (lib_call env c w).trace ↔ (
        Occurs (umount path) w.trace
        ⊎ ((has w.ctx.flags do_revert_unmount ≡ true)
            × ((c ≡ unshares true) × (env.int w.trace (original unshare_fn) ≡ pos 0))
            × IsMounted path))
unfolding lib_call new_fork new_unshare revert_unmount new_setcontext new_log_close
lib_call-umount env forks w path up = ground arith
lib_call-umount env closes_log w path up = ground arith
lib_call-umount env sets_context w path up = ground arith
lib_call-umount env copies w path up = ground arith
lib_call-umount env closes w path up = ground arith
lib_call-umount env (unshares newns) w path up =
    ground (arith, eq_ℤ_iff (env.int w.trace (original unshare_fn)) (pos 0))

-- While a context is in place, a path is unmounted exactly if the context asks for it, a call of
-- `unshare` has made a new mount namespace, and the path is one of the two of `revert_unmount`.
pub lib_calls-umount :
    (env : Env) (cs : List LibCall) (w : World) (path : Text)
    → w.g_ctx ≡ true
    → Occurs (umount path) (lib_calls env cs w).trace ↔ (
        Occurs (umount path) w.trace
        ⊎ ((has w.ctx.flags do_revert_unmount ≡ true) × Unshared env cs w × IsMounted path))
unfolding lib_calls
lib_calls-umount env [] w path up = ground arith
lib_calls-umount env (c ∷ cs) w path up =
    let (same, still) = lib_call-Keeps env c w in
    ground (
      arith,
      lib_call-umount env c w path up,
      lib_calls-umount env cs (lib_call env c w) path (still ∙ up),
    )
