-- ===== src/Examples/Daemon.antt =====
-- The connection to the daemon and its bytes, on the concrete phone.
use zygisk_magisk_module.Companion.{module_dir_fd}
use zygisk_magisk_module.Companion.Stale.{module_dir_fd-stale}
use zygisk_magisk_module.Examples.{phone, state}
use zygisk_magisk_module.Ipc.Bytes.{xxread}
use zygisk_magisk_module.Ipc.Bytes.Reading.{IsXxreadResult, xxread_result}
use zygisk_magisk_module.Ipc.Client.{Steps, client, reported_all, perform_all-Steps}
use zygisk_magisk_module.Ipc.Connect.{connect_loop, connect_fuel, zygisk_connect}
use zygisk_magisk_module.Ipc.Connect.Breaker.{
  IsConnected, connect_loop_fuel, IsConsistent, zygisk_connect-IsConnected,
}
use zygisk_magisk_module.Ipc.Request.{zygisk_request}
use zygisk_magisk_module.Ipc.Request.Laws.{
  connects, IsAnswered, zygisk_request-IsAnswered, Use, perform_all, breaker_stays_open,
  disconnects, requests,
}
use zygisk_magisk_module.Prelude.{
  ℕ, suc, ℤ, minus_one, ◌≡◌, refl, true, false, List, [], ◌∷◌, arith, Bool, pos, Occurs,
}
use zygisk_magisk_module.World.{close, Env, World}

zygisk_connect-IsConnected_example :
    let env : Env = phone (pos 0) 1 in
    let w : World = state minus_one 0 [] in
    IsConnected 5 3_100_000 w (zygisk_connect env w) × IsConsistent (zygisk_connect env w).1
zygisk_connect-IsConnected_example =
    zygisk_connect-IsConnected (phone (pos 0) 1) (state minus_one 0 []) (ground arith)

zygisk_request-IsAnswered_example :
    let env : Env = phone (pos 0) 1 in
    let opcode : ℕ = 0 in
    let pid : ℕ = 77 in
    let want_fd : Bool = false in
    let w : World = state minus_one 0 [] in
    let r = zygisk_request env opcode pid want_fd w in IsAnswered r.0 r.1
zygisk_request-IsAnswered_example =
    zygisk_request-IsAnswered (phone (pos 0) 1) 0 77 false (state minus_one 0 []) (ground arith)

breaker_stays_open_example :
    let env : Env = phone (pos 0) 1 in
    let before : List Use = connects ∷ requests 0 77 true ∷ [] in
    let after : List Use = disconnects ∷ connects ∷ [] in
    let w : World = state minus_one 0 [] in
    let v = perform_all env before w in
    IsConsistent v × (v.g_available ≡ false → perform_all env after v ≡ v)
breaker_stays_open_example =
    breaker_stays_open (phone (pos 0) 1) (connects ∷ requests 0 77 true ∷ [])
      (disconnects ∷ connects ∷ []) (state minus_one 0 []) (ground arith)

connect_loop_fuel_example :
    let env : Env = phone (pos 0) 1 in
    let extra : ℕ = 3 in
    let w : World = state minus_one 0 [] in
    connect_loop env (suc (suc (suc (suc (suc (suc extra)))))) 100 w
    ≡ connect_loop env connect_fuel 100 w
connect_loop_fuel_example = connect_loop_fuel (phone (pos 0) 1) 3 (state minus_one 0 [])

xxread_result_example :
    let env : Env = phone (pos 0) 1 in
    let fd : ℤ = pos 3 in
    let count : ℕ = 12 in
    let w : World = state minus_one 0 [] in
    let r = xxread env fd count w in IsXxreadResult count r.0 r.1
xxread_result_example = xxread_result (phone (pos 0) 1) (pos 3) 12 (state minus_one 0 [])

module_dir_fd-stale_example :
    let env : Env = phone (pos 0) 1 in
    let id : ℕ = 0 in
    let w : World = state minus_one 0 [] in
    let fd = (zygisk_connect env w).0 in
    let v = (module_dir_fd env id w).1 in
    Occurs (close fd) v.trace × (zygisk_connect env v ≡ (fd, v))
unfolding zygisk_connect connect_loop
module_dir_fd-stale_example =
    module_dir_fd-stale (phone (pos 0) 1) 0 (state minus_one 0 []) (ground arith) refl

perform_all-Steps_example :
    let env : Env = phone (pos 0) 1 in
    let us : List Use = connects ∷ requests 0 77 true ∷ disconnects ∷ [] in
    let w : World = state minus_one 0 [] in
    Steps (client w) us (reported_all env us w) (client (perform_all env us w))
perform_all-Steps_example =
    perform_all-Steps (phone (pos 0) 1) (connects ∷ requests 0 77 true ∷ disconnects ∷ [])
      (state minus_one 0 []) (ground arith)
