-- ===== src/Lifecycle/Denylist.antt =====
-- A process on the denylist, from the daemon's answer to the specialisation of the app.
use zygisk_magisk_module.Prelude.{ℕ, ℤ, ◌≡◌, refl, true, arith}
use zygisk_magisk_module.Flags.{get_info, has, is_unmount, app_specialize, do_revert_unmount}
use zygisk_magisk_module.Flags.Laws.{has-add_flag}
use zygisk_magisk_module.World.{Env, World}
use zygisk_magisk_module.Ipc.Bytes.{xxread}
use zygisk_magisk_module.Ipc.Bytes.Reading.{view-xxread, xxread-SameState}
use zygisk_magisk_module.Companion.{zygisk_request_fd}
use zygisk_magisk_module.Modules.Frame.{entries, request_fd-Same}
use zygisk_magisk_module.Scan.{get_module_info, answered_flags}
use zygisk_magisk_module.Scan.Paths.{scan_all_lem}
use zygisk_magisk_module.Lifecycle.{set_flag, app_specialize_pre}

entries-xxread :
    (env : Env) (fd : ℤ) (count : ℕ) (w : World)
    → entries (xxread env fd count w).2.trace ≡ entries w.trace
unfolding entries
entries-xxread env fd count w = view-xxread entries fd (λ n t. refl) env count w

-- The daemon's answer and the scan call no module and add none; the process number and both globals
-- stay.
pub get_module_info-Keeps :
    (env : Env) (w : World)
    → let v = (get_module_info env w).2 in
      (entries v.trace ≡ entries w.trace)
      × (v.ctx.modules ≡ w.ctx.modules)
      × (v.ctx.pid ≡ w.ctx.pid)
      × (v.g_ctx ≡ w.g_ctx)
      × (v.g_hook ≡ w.g_hook)
unfolding get_module_info
get_module_info-Keeps env w =
    let r = zygisk_request_fd env get_info w in
    let asked = request_fd-Same env get_info w in
    let x = xxread env r.0 12 r.1 in
    let answered : World = record x.2 {
      ctx = record x.2.ctx { info_flags = answered_flags env x.1 };
    } in
    ground (
      arith,
      asked,
      entries-xxread env r.0 12 r.1,
      xxread-SameState env r.0 12 r.1,
      (scan_all_lem env answered).0,
    )

-- The flags of the context stay as well.
pub get_module_info-flags :
    (env : Env) (w : World) → (get_module_info env w).2.ctx.flags ≡ w.ctx.flags
unfolding get_module_info
get_module_info-flags env w =
    let r = zygisk_request_fd env get_info w in
    let x = xxread env r.0 12 r.1 in
    let answered : World = record x.2 {
      ctx = record x.2.ctx { info_flags = answered_flags env x.1 };
    } in
    ground (
      arith,
      request_fd-Same env get_info w,
      xxread-SameState env r.0 12 r.1,
      (scan_all_lem env answered).0,
    )

-- If the daemon's answer has the denylist's two flags set, `app_specialize_pre` calls no module's
-- function, adds no module, and asks for the unmounting; the process number and both globals stay.
pub app_specialize_pre-denied :
    (env : Env) (w : World)
    → is_unmount (get_module_info env (set_flag app_specialize w)).2.ctx.info_flags ≡ true
    → let v = app_specialize_pre env w in
      (entries v.trace ≡ entries w.trace)
      × (v.ctx.modules ≡ w.ctx.modules)
      × (has v.ctx.flags do_revert_unmount ≡ true)
      × (v.ctx.pid ≡ w.ctx.pid)
      × (v.g_ctx ≡ w.g_ctx)
      × (v.g_hook ≡ w.g_hook)
unfolding app_specialize_pre entries
app_specialize_pre-denied env w denied =
    let start = set_flag app_specialize w in
    let r = get_module_info env start in
    let (quiet, same, pid, up, hook) = get_module_info-Keeps env start in
    rw denied (
      ground (arith, quiet),
      ground (arith, same),
      ground (arith, has-add_flag r.2.ctx.flags do_revert_unmount do_revert_unmount),
      ground (arith, pid),
      ground (arith, up),
      ground (arith, hook),
    )
