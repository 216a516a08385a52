-- ===== src/Modules/Loops.antt =====
-- What the loops over the modules leave alone.
use zygisk_magisk_module.Prelude.{
  ℕ, suc, ℤ, ◌≡◌, refl, ◌∙◌, List, [], ◌∷◌, arith, Option-cases, inl, inr,
}
use zygisk_magisk_module.Flags.{
  has, add_flag, app_specialize, server_fork_and_specialize, post_specialize,
}
use zygisk_magisk_module.Flags.Laws.{has-add_flag}
use zygisk_magisk_module.World.{
  Callback, ArgsView, on_load, pre_app, pre_server, post_app, post_server, no_args, server_v1,
  enter_module, Env, ZygiskModule, World,
}
use zygisk_magisk_module.Ipc.Bytes.{emit}
use zygisk_magisk_module.Modules.{
  enter, app_view, call_app, call_server, specialize, load_fd, load_fds, load_modules,
  pre_specialize, post_specialize_all, try_unload, run_modules_pre, run_modules_post,
}
use zygisk_magisk_module.Modules.Frame.{invoke_all-IsQuiet}

-- The process number, both globals, and whether the process is an app or the system server.
abbrev pub Stays : World → World → Type 0
Stays w v =
    (v.ctx.pid ≡ w.ctx.pid)
    × (v.g_hook ≡ w.g_hook)
    × (v.g_ctx ≡ w.g_ctx)
    × (has v.ctx.flags app_specialize ≡ has w.ctx.flags app_specialize)
    × (has v.ctx.flags server_fork_and_specialize ≡ has w.ctx.flags server_fork_and_specialize)

pub Stays-refl : (w : World) → Stays w w
Stays-refl w = (refl, refl, refl, refl, refl)

pub Stays-trans : (u v w : World) → Stays u v → Stays v w → Stays u w
Stays-trans u v w p q = (q.0 ∙ p.0, q.1 ∙ p.1, q.2 ∙ p.2, q.3 ∙ p.3, q.4 ∙ p.4)

enter-Stays :
    (env : Env) (cb : Callback) (view : ArgsView) (m : ZygiskModule) (w : World)
    → Stays w (enter env cb view m w).1
unfolding enter
enter-Stays env cb view m w =
    let quiet =
      invoke_all-IsQuiet env (env.behaviour w.trace m.id cb) m
        (emit (enter_module m.id cb view) w) in
    (
      quiet.same_pid,
      quiet.same_hook,
      quiet.same_ctx,
      quiet.same_flags app_specialize refl,
      quiet.same_flags server_fork_and_specialize refl,
    )

Stays-same : (w : World) (s r : ZygiskModule × World) → s ≡ r → Stays w r.1 → Stays w s.1
Stays-same w s r e h = rw e h

call_app-Stays :
    (env : Env) (cb : Callback) (m : ZygiskModule) (w : World) → Stays w (call_app env cb m w).1
unfolding call_app
call_app-Stays env cb m w = elim (Option-cases m.abi) [
  | inl missing ↦ Stays-same w (call_app env cb m w) (m, w) (ground arith) (Stays-refl w)
  | inr (a, abi) ↦ (elim (Option-cases (app_view a.api_version)) [
    | inl unknown ↦ Stays-same w (call_app env cb m w) (m, w) (ground arith) (Stays-refl w)
    | inr (view, known) ↦
        Stays-same w (call_app env cb m w) (enter env cb view m w) (ground arith)
          (enter-Stays env cb view m w)
  ])
]

call_server-Stays :
    (env : Env) (cb : Callback) (m : ZygiskModule) (w : World) → Stays w (call_server env cb m w).1
unfolding call_server
call_server-Stays env cb m w = elim (Option-cases m.abi) [
  | inl missing ↦ Stays-same w (call_server env cb m w) (m, w) (ground arith) (Stays-refl w)
  | inr (a, abi) ↦
      Stays-same w (call_server env cb m w) (enter env cb server_v1 m w) (ground arith)
        (enter-Stays env cb server_v1 m w)
]

specialize-Stays :
    (env : Env) (for_app for_server : Callback) (m : ZygiskModule) (w : World)
    → Stays w (specialize env for_app for_server m w).1
unfolding specialize
specialize-Stays env for_app for_server m w =
    ground (arith, call_app-Stays env for_app m w, call_server-Stays env for_server m w)

load_fd-Stays : (env : Env) (i : ℕ) (fd : ℤ) (w : World) → Stays w (load_fd env i fd w).1
unfolding load_fd
load_fd-Stays env i fd w = ground arith

load_fds-Stays : (env : Env) (i : ℕ) (fds : List ℤ) (w : World) → Stays w (load_fds env i fds w).1
unfolding load_fds
load_fds-Stays env i [] w = Stays-refl w
load_fds-Stays env i (fd ∷ fds) w =
    let v = (load_fd env i fd w).1 in
    Stays-trans w v (load_fds env (suc i) fds v).1 (load_fd-Stays env i fd w)
      (load_fds-Stays env (suc i) fds v)

load_modules-Stays :
    (env : Env) (ms : List ZygiskModule) (w : World) → Stays w (load_modules env ms w).1
unfolding load_modules
load_modules-Stays env [] w = Stays-refl w
load_modules-Stays env (m ∷ ms) w =
    let v = (enter env on_load no_args m w).1 in
    Stays-trans w v (load_modules env ms v).1 (enter-Stays env on_load no_args m w)
      (load_modules-Stays env ms v)

pre_specialize-Stays :
    (env : Env) (ms : List ZygiskModule) (w : World) → Stays w (pre_specialize env ms w).1
unfolding pre_specialize
pre_specialize-Stays env [] w = Stays-refl w
pre_specialize-Stays env (m ∷ ms) w =
    let v = (specialize env pre_app pre_server m w).1 in
    Stays-trans w v (pre_specialize env ms v).1 (specialize-Stays env pre_app pre_server m w)
      (pre_specialize-Stays env ms v)

try_unload-Stays : (m : ZygiskModule) (w : World) → Stays w (try_unload m w)
unfolding try_unload
try_unload-Stays m w = ground arith

post_specialize_all-Stays :
    (env : Env) (ms : List ZygiskModule) (w : World) → Stays w (post_specialize_all env ms w).1
unfolding post_specialize_all
post_specialize_all-Stays env [] w = Stays-refl w
post_specialize_all-Stays env (m ∷ ms) w =
    let r = specialize env post_app post_server m w in
    let v = try_unload r.0 r.1 in
    Stays-trans w v (post_specialize_all env ms v).1
      (Stays-trans w r.1 v (specialize-Stays env post_app post_server m w)
        (try_unload-Stays r.0 r.1))
      (post_specialize_all-Stays env ms v)

pub run_modules_pre-Stays :
    (env : Env) (fds : List ℤ) (w : World) → Stays w (run_modules_pre env fds w)
unfolding run_modules_pre
run_modules_pre-Stays env fds w =
    let v = (load_fds env 0 fds w).1 in
    let r = load_modules env v.ctx.modules v in
    let u : World = record r.1 { ctx = record r.1.ctx { modules = r.0 } } in
    Stays-trans w v (run_modules_pre env fds w) (load_fds-Stays env 0 fds w) (
      Stays-trans v u (run_modules_pre env fds w) (load_modules-Stays env v.ctx.modules v)
        (pre_specialize-Stays env r.0 u))

pub run_modules_post-Stays : (env : Env) (w : World) → Stays w (run_modules_post env w)
unfolding run_modules_post
run_modules_post-Stays env w =
    let v : World = record w {
      ctx = record w.ctx { flags = add_flag w.ctx.flags post_specialize };
    } in
    Stays-trans w v (run_modules_post env w)
      (
        refl,
        refl,
        refl,
        has-add_flag w.ctx.flags post_specialize app_specialize,
        has-add_flag w.ctx.flags post_specialize server_fork_and_specialize,
      )
      (post_specialize_all-Stays env w.ctx.modules v)
