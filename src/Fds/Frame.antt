-- ===== src/Fds/Frame.antt =====
-- What the functions on descriptors leave alone.
use zygisk_magisk_module.Prelude.{ℤ, ◌≡◌, refl, ◌∙◌, Bool, true, some, List, [], ◌∷◌, arith}
use zygisk_magisk_module.World.{Call, close, opendir, Dirent, Dir, Env, World}
use zygisk_magisk_module.Modules.Frame.{entries}
use zygisk_magisk_module.Fds.Fork.{fork_pre-opens}
use zygisk_magisk_module.Fds.{
  parse_int, is_child, assign, update_fds, exempt_all, proc_self_fd, close_unwanted, close_listed,
  record_fds, record_open, forked, fork_pre, sanitize_fds,
}

-- No module's function is called, and the modules, the flags, the process number and `g_hook` stay.
abbrev pub Spares : World → World → Type 0
Spares w v =
    (entries v.trace ≡ entries w.trace)
    × (v.ctx.modules ≡ w.ctx.modules)
    × (v.ctx.flags ≡ w.ctx.flags)
    × (v.ctx.pid ≡ w.ctx.pid)
    × (v.g_hook ≡ w.g_hook)

entries-close_unwanted :
    (dfd : ℤ) (a : List Bool) (es : List Dirent) (t : List Call)
    → entries (close_unwanted dfd a es t) ≡ entries t
unfolding close_unwanted entries
entries-close_unwanted dfd a [] t = refl
entries-close_unwanted dfd a (e ∷ es) t = ground (
  arith,
  entries-close_unwanted dfd a es t,
  entries-close_unwanted dfd a es (close (parse_int e.name) ∷ t),
)

entries-record_fds :
    (es : List Dirent) (a : List Bool) (t : List Call) → entries (record_fds es a t).1 ≡ entries t
unfolding record_fds entries
entries-record_fds [] a t = refl
entries-record_fds (e ∷ es) a t = ground (
  arith,
  entries-record_fds es (assign (parse_int e.name) true a) t,
  entries-record_fds es a (close (parse_int e.name) ∷ t),
)

pub exempt_all-Spares : (env : Env) (w : World) → Spares w (exempt_all env w)
unfolding exempt_all update_fds entries
exempt_all-Spares env w = ground arith

record_open-Spares :
    (env : Env) (w v : World) (dir : Dir)
    → env.directory w.trace proc_self_fd ≡ some dir
    → record_open env w ≡ some v
    → Spares w v
unfolding record_open entries
record_open-Spares env w v dir opened done =
    ground
      (arith, entries-record_fds dir.entries w.ctx.allowed_fds (opendir proc_self_fd ∷ w.trace))

-- A child's `fork_pre`, where /proc/self/fd opens.
pub fork_pre-Spares :
    (env : Env) (w v : World) (dir : Dir)
    → is_child (forked env w).ctx ≡ true
    → env.directory (forked env w).trace proc_self_fd ≡ some dir
    → fork_pre env w ≡ some v
    → Spares (forked env w) v
fork_pre-Spares env w v dir child opened done =
    record_open-Spares env (forked env w) v dir opened (fork_pre-opens env w v child done)

-- A child's `sanitize_fds`, where /proc/self/fd opens.
pub sanitize_fds_child :
    (env : Env) (w : World) (dir : Dir)
    → is_child w.ctx ≡ true
    → env.directory (exempt_all env w).trace proc_self_fd ≡ some dir
    → (v : World) × (sanitize_fds env w ≡ some v) × Spares w v
unfolding sanitize_fds close_listed entries
sanitize_fds_child env w dir child opened =
    let u = exempt_all env w in
    let (e, m, f, p, h) = exempt_all-Spares env w in
    (
      record u {
        trace =
            close dir.dirfd
            ∷ close_unwanted dir.dirfd u.ctx.allowed_fds dir.entries
                (opendir proc_self_fd ∷ u.trace);
      },
      ground arith,
      (
        entries-close_unwanted dir.dirfd u.ctx.allowed_fds dir.entries
              (opendir proc_self_fd ∷ u.trace)
            ∙ e,
        m,
        f,
        p,
        h,
      ),
    )
