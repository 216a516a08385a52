-- ===== src/Wrappers/Allowed.antt =====
-- The specialisation of a process that is not on the denylist, through the whole replacement of the
-- JNI method.
use zygisk_magisk_module.Prelude.{ℕ, ℤ, List}
use zygisk_magisk_module.World.{Env, World}
use zygisk_magisk_module.Scan.{get_module_info}
use zygisk_magisk_module.Modules.{run_modules_pre}
use zygisk_magisk_module.JniMethods.{JniArgs, Method}
use zygisk_magisk_module.Wrappers.Denied.{asking}

-- What the daemon's answer led to: a descriptor, those of the libraries, and the state.
abbrev pub answered : Env → ℕ → Method → JniArgs → World → ℤ × List ℤ × World
answered env fd_max m j w = get_module_info env (asking fd_max m j w)

-- The state after the loops over the modules.
abbrev pub running : Env → ℕ → Method → JniArgs → World → World
running env fd_max m j w = let (_, fds, v) = answered env fd_max m j w in run_modules_pre env fds v
