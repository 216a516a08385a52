-- ===== src/Wrappers/Child.antt =====
-- The fork of an app that is not on the denylist as the child sees it, through the whole replacement
-- of the JNI method.
use zygisk_magisk_module.Prelude.{
  ℕ, replicate, ◌≡◌, refl, ap, true, false, some, List, if◌then◌else◌,
}
use zygisk_magisk_module.Flags.{app_fork_and_specialize}
use zygisk_magisk_module.World.{Call, Dir, Env, World}
use zygisk_magisk_module.Fds.{is_child, in_range, proc_self_fd, sanitize_fds}
use zygisk_magisk_module.Lifecycle.{construct, set_flag, after_fork}
use zygisk_magisk_module.JniMethods.{JniArgs, Method}

-- /proc/self/fd can be opened at any time, on a descriptor below the limit.
abbrev pub OpensSelf : Env → ℕ → Type 0
OpensSelf env fd_max =
    (t : List Call)
    → (dir : Dir) × (env.directory t proc_self_fd ≡ some dir)
      × (in_range dir.dirfd (replicate fd_max false) ≡ true)

-- The context at the fork.
abbrev pub forking : ℕ → Method → JniArgs → World → World
forking fd_max m j w = set_flag app_fork_and_specialize (construct fd_max (m.noted j) w)

-- In a child, the two steps after the fork.
pub after_fork_child :
    (env : Env) (specialize : World → World) (v : World)
    → is_child v.ctx ≡ true
    → after_fork env specialize (some v) ≡ sanitize_fds env (specialize v)
after_fork_child env specialize v child =
    let specialized : (if is_child v.ctx then specialize v else v) ≡ specialize v = rw child refl in
    ap (sanitize_fds env) specialized
