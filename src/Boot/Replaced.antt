-- ===== src/Boot/Replaced.antt =====
-- What the replacements of the JNI methods, and the destructor of the context at their end, do to
-- `g_hook`.
use zygisk_magisk_module.Prelude.{
  ℕ, ℤ, ◌≡◌, refl, sym, ap, ◌∙◌, ◌⊎◌, inl, inr, true, false, some, map, arith, if◌then◌else◌,
  Bool-cases, Option-cases,
}
use zygisk_magisk_module.Flags.{
  app_specialize, app_fork_and_specialize, server_fork_and_specialize, skip_close_log_pipe,
}
use zygisk_magisk_module.World.{Env, HookContext, Pointer, nullptr, dangling, live, World}
use zygisk_magisk_module.Api.{clear_api}
use zygisk_magisk_module.Fds.{
  is_child, fork_pre, record_open, fork_post, sanitize_fds, close_listed,
}
use zygisk_magisk_module.Fds.Frame.{exempt_all-Spares}
use zygisk_magisk_module.Scan.{get_module_info}
use zygisk_magisk_module.Modules.Loops.{run_modules_pre-Stays, run_modules_post-Stays}
use zygisk_magisk_module.Jni.Zygote.{restore_zygote_hook}
use zygisk_magisk_module.Hook.{destroy, hook_unloader, register_fn}
use zygisk_magisk_module.Lifecycle.{
  construct, set_flag, app_specialize_pre, app_specialize_post, server_specialize_pre,
  server_specialize_post, after_fork, native_specialize_app_process_pre,
  native_specialize_app_process_post, native_fork_system_server_pre, native_fork_system_server_post,
  native_fork_and_specialize_pre, native_fork_and_specialize_post,
}
use zygisk_magisk_module.Lifecycle.Denylist.{get_module_info-Keeps}
use zygisk_magisk_module.JniMethods.{JniArgs, Method}
use zygisk_magisk_module.Wrappers.{original_method, leave, fork_app, fork_server, specialize_app}
use zygisk_magisk_module.Wrappers.Zygote.{lib_calls-Same}

pub Pointer-cases :
    (p : Pointer HookContext)
    → ((p ≡ nullptr) ⊎ (p ≡ dangling)) ⊎ ((h : HookContext) × (p ≡ live h))
Pointer-cases nullptr = inl (inl refl)
Pointer-cases dangling = inl (inr refl)
Pointer-cases (live h) = inr (h, refl)

fork_pre-hook : (env : Env) (w v : World) → fork_pre env w ≡ some v → v.g_hook ≡ w.g_hook
unfolding fork_pre record_open
fork_pre-hook env w v done = ground arith

sanitize_fds-hook : (env : Env) (w v : World) → sanitize_fds env w ≡ some v → v.g_hook ≡ w.g_hook
unfolding sanitize_fds close_listed
sanitize_fds-hook env w v done = ground (arith, exempt_all-Spares env w)

pub app_specialize_pre-hook : (env : Env) (w : World) → (app_specialize_pre env w).g_hook ≡ w.g_hook
unfolding app_specialize_pre
app_specialize_pre-hook env w =
    let r = get_module_info env (set_flag app_specialize w) in
    ground (
      arith,
      get_module_info-Keeps env (set_flag app_specialize w),
      run_modules_pre-Stays env r.1 r.2,
    )

server_specialize_pre-hook :
    (env : Env) (w : World) → (server_specialize_pre env w).g_hook ≡ w.g_hook
unfolding server_specialize_pre
server_specialize_pre-hook env w =
    let r = get_module_info env w in
    ground (arith, get_module_info-Keeps env w, run_modules_pre-Stays env r.1 r.2)

pub app_specialize_post-hook :
    (env : Env) (w : World) → (app_specialize_post env w).g_hook ≡ w.g_hook
unfolding app_specialize_post
app_specialize_post-hook env w = ground (arith, run_modules_post-Stays env w)

server_specialize_post-hook :
    (env : Env) (w : World) → (server_specialize_post env w).g_hook ≡ w.g_hook
unfolding server_specialize_post
server_specialize_post-hook env w = ground (arith, run_modules_post-Stays env w)

-- What is done between the fork and the original method.
after_fork-hook :
    (env : Env) (specialize : World → World) (w v : World)
    → ((x : World) → (specialize x).g_hook ≡ x.g_hook)
    → after_fork env specialize (fork_pre env w) ≡ some v
    → v.g_hook ≡ w.g_hook
after_fork-hook env specialize w v keeps done = elim (Option-cases (fork_pre env w)) [
  | inl bad ↦ absurd (ground (arith, bad))
  | inr (x, ok) ↦
      let y = (if is_child x.ctx then specialize x else x) in
      let same : y.g_hook ≡ x.g_hook = ground (arith, keeps x) in
      sanitize_fds-hook env y v (ap (after_fork env specialize) (sym ok) ∙ done)
      ∙ same
      ∙ fork_pre-hook env w x ok
]

-- Both ends point to an object, and the runtime callbacks in it are the same.
abbrev pub KeepsCallbacks : World → World → Type 0
KeepsCallbacks w v =
    (h : HookContext) × (h' : HookContext) × (w.g_hook ≡ live h)
    × (v.g_hook ≡ live h')
    × (h'.runtime_callbacks ≡ h.runtime_callbacks)

destroy-KeepsCallbacks :
    (env : Env) (w v : World) (h : HookContext)
    → w.g_hook ≡ live h
    → destroy env w ≡ some v
    → KeepsCallbacks w v
unfolding destroy restore_zygote_hook hook_unloader register_fn
destroy-KeepsCallbacks env w v h up done = elim (Bool-cases (is_child w.ctx)) [
  | inl child ↦
      let marked : HookContext = record h { should_unmap = true } in
      let back = restore_zygote_hook env marked w.trace in
      let cleared : World = record w {
        g_ctx = false;
        ctx = record w.ctx { modules = map clear_api w.ctx.modules };
        trace = back.1;
      } in
      let r = hook_unloader env back.0 cleared in (h, r.0, up, ground arith, ground arith)
  | inr parent ↦ (h, h, up, ground arith, refl)
]

-- A replacement, from its parts.
replaced-KeepsCallbacks :
    (env : Env) (w u o q v : World)
    → u.g_hook ≡ w.g_hook
    → original_method env u ≡ some o
    → q.g_hook ≡ o.g_hook
    → destroy env q ≡ some v
    → KeepsCallbacks w v
unfolding original_method
replaced-KeepsCallbacks env w u o q v before asked after left = elim (Pointer-cases u.g_hook) [
  | inl none_live ↦ absurd (ground arith)
  | inr (h, up) ↦
      let same : o.g_hook ≡ u.g_hook =
        ground (arith, lib_calls-Same env (env.original_calls u.trace) u) in
      let (h1, h2, start, end, kept) = destroy-KeepsCallbacks env q v h (after ∙ same ∙ up) left in
      (h1, h2, sym (after ∙ same ∙ before) ∙ start, end, kept)
]

leave-destroy :
    (env : Env) (q : World) (r : ℤ × World) → leave env q ≡ some r → destroy env q ≡ some r.1
unfolding leave
leave-destroy env q r done = ground arith

fork_app_pre-hook :
    (env : Env) (w v : World) → native_fork_and_specialize_pre env w ≡ some v → v.g_hook ≡ w.g_hook
unfolding native_fork_and_specialize_pre
fork_app_pre-hook env w v done =
    after_fork-hook env (app_specialize_pre env) (set_flag app_fork_and_specialize w) v
      (app_specialize_pre-hook env) done

fork_app_post-hook :
    (env : Env) (w : World) → (native_fork_and_specialize_post env w).g_hook ≡ w.g_hook
unfolding native_fork_and_specialize_post fork_post
fork_app_post-hook env w = ground (arith, app_specialize_post-hook env w)

fork_server_pre-hook :
    (env : Env) (w v : World) → native_fork_system_server_pre env w ≡ some v → v.g_hook ≡ w.g_hook
unfolding native_fork_system_server_pre
fork_server_pre-hook env w v done =
    after_fork-hook env (server_specialize_pre env) (set_flag server_fork_and_specialize w) v
      (server_specialize_pre-hook env) done

fork_server_post-hook :
    (env : Env) (w : World) → (native_fork_system_server_post env w).g_hook ≡ w.g_hook
unfolding native_fork_system_server_post fork_post
fork_server_post-hook env w = ground (arith, server_specialize_post-hook env w)

pub fork_app-KeepsCallbacks :
    (env : Env) (fd_max : ℕ) (m : Method) (j : JniArgs) (w : World) (r : ℤ × World)
    → fork_app env fd_max m j w ≡ some r
    → KeepsCallbacks w r.1
unfolding fork_app construct
fork_app-KeepsCallbacks env fd_max m j w r done =
    let start = construct fd_max (m.noted j) w in
    elim (Option-cases (native_fork_and_specialize_pre env start)) [
      | inl bad ↦ absurd (ground (arith, bad))
      | inr (u, pre) ↦ elim (Option-cases (original_method env u)) [
        | inl bad ↦ absurd (ground (arith, pre, bad))
        | inr (o, asked) ↦
            replaced-KeepsCallbacks env w u o (native_fork_and_specialize_post env o) r.1
              (fork_app_pre-hook env start u pre) asked (fork_app_post-hook env o)
              (leave-destroy env _ r (ground (arith, pre, asked)))
      ]
    ]

pub fork_server-KeepsCallbacks :
    (env : Env) (fd_max : ℕ) (m : Method) (j : JniArgs) (w : World) (r : ℤ × World)
    → fork_server env fd_max m j w ≡ some r
    → KeepsCallbacks w r.1
unfolding fork_server construct
fork_server-KeepsCallbacks env fd_max m j w r done =
    let start = construct fd_max (m.noted j) w in
    elim (Option-cases (native_fork_system_server_pre env start)) [
      | inl bad ↦ absurd (ground (arith, bad))
      | inr (u, pre) ↦ elim (Option-cases (original_method env u)) [
        | inl bad ↦ absurd (ground (arith, pre, bad))
        | inr (o, asked) ↦
            replaced-KeepsCallbacks env w u o (native_fork_system_server_post env o) r.1
              (fork_server_pre-hook env start u pre) asked (fork_server_post-hook env o)
              (leave-destroy env _ r (ground (arith, pre, asked)))
      ]
    ]

pub specialize_app-KeepsCallbacks :
    (env : Env) (fd_max : ℕ) (m : Method) (j : JniArgs) (w v : World)
    → specialize_app env fd_max m j w ≡ some v
    → KeepsCallbacks w v
unfolding specialize_app construct native_specialize_app_process_pre
    native_specialize_app_process_post
specialize_app-KeepsCallbacks env fd_max m j w v done =
    let start = construct fd_max (m.noted j) w in
    let u = native_specialize_app_process_pre env start in
    elim (Option-cases (original_method env u)) [
      | inl bad ↦ absurd (ground (arith, bad))
      | inr (o, asked) ↦
          replaced-KeepsCallbacks env w u o (native_specialize_app_process_post env o) v
            (app_specialize_pre-hook env (set_flag skip_close_log_pipe start)) asked
            (app_specialize_post-hook env o) (ground (arith, asked))
    ]
