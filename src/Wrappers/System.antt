-- ===== src/Wrappers/System.antt =====
-- The fork of the system server as the child sees it, through the whole replacement of the JNI
-- method.
use zygisk_magisk_module.Prelude.{ℕ}
use zygisk_magisk_module.Flags.{server_fork_and_specialize}
use zygisk_magisk_module.World.{Env, World}
use zygisk_magisk_module.Modules.{run_modules_pre}
use zygisk_magisk_module.Lifecycle.{construct, set_flag}
use zygisk_magisk_module.Scan.{get_module_info}
use zygisk_magisk_module.JniMethods.{JniArgs, Method}

-- The context at the fork.
abbrev pub forking_server : ℕ → Method → JniArgs → World → World
forking_server fd_max m j w = set_flag server_fork_and_specialize (construct fd_max (m.noted j) w)

-- The state after the loops over the modules.
abbrev pub server_modules : Env → World → World
server_modules env w = let (_, fds, v) = get_module_info env w in run_modules_pre env fds v
