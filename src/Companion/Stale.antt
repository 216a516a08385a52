-- ===== src/Companion/Stale.antt =====
-- The connection is shared by value: who is handed its descriptor can close it behind `g_sock`.
use zygisk_magisk_module.Prelude.{ℕ, is_neg, ◌≡◌, false, arith, Occurs}
use zygisk_magisk_module.World.{close, Env, World}
use zygisk_magisk_module.Ipc.Connect.{zygisk_connect}
use zygisk_magisk_module.Ipc.Connect.Breaker.{
  IsConsistent, zygisk_connect-IsConnected, zygisk_connect_cached,
}
use zygisk_magisk_module.Companion.{zygisk_request_fd, write_int, module_dir_fd}

-- From a consistent state in which the daemon can be reached, `getModuleDir` closes the socket of
-- the connection and leaves its number in `g_sock`; so the next `zygisk_connect` makes no new
-- connection, and returns the closed descriptor.
pub module_dir_fd-stale :
    (env : Env) (id : ℕ) (w : World)
    → IsConsistent w
    → is_neg (zygisk_connect env w).0 ≡ false
    → let fd = (zygisk_connect env w).0 in
      let v = (module_dir_fd env id w).1 in
      Occurs (close fd) v.trace × (zygisk_connect env v ≡ (fd, v))
unfolding module_dir_fd zygisk_request_fd write_int
module_dir_fd-stale env id w c up =
    let (r, ok) = zygisk_connect-IsConnected env w c in
    let fd = (zygisk_connect env w).0 in
    (
      ground arith,
      zygisk_connect_cached env (module_dir_fd env id w).1 fd (ground (arith, r, ok))
          (ground (arith, r)) (ground arith),
    )
