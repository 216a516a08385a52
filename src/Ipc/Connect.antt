-- ===== src/Ipc/Connect.antt =====
-- `zygisk_connect`, `zygisk_disconnect` and `zygisk_is_available` of ipc_client.cpp.
pub mod Breaker
pub mod Session
use zygisk_magisk_module.Prelude.{
  ℕ, zero, suc, ℤ, minus_one, is_neg, nonneg, pos, eq_ℤ, ◌*◌, Bool, false, not, ◌∷◌, ltb, leb,
  if◌then◌else◌,
}
use zygisk_magisk_module.World.{Call, socket, connect, close, usleep, Env, World}

unfoldable pub zygisk_is_available : World → Bool
zygisk_is_available w = w.g_available

-- The end of a round of the loop that has not connected: `if (delay < 1600) continue; delay =
-- 3000;`, and then the step `delay *= 2`.
abbrev pub next_delay : ℕ → ℕ
next_delay delay = (if ltb delay 1600 then delay else 3000) * 2

-- After `socket`, after `connect`, and after the clean-up of a failed `connect`. `sun_path` is
-- fixed, and not part of the call.
abbrev pub opened : Env → World → World
opened env w = record w { g_sock = env.int w.trace socket; trace = socket ∷ w.trace }

abbrev pub tried : Env → World → World
tried env w = let v = opened env w in record v { trace = connect v.g_sock ∷ v.trace }

abbrev pub retried : Env → ℕ → World → World
retried env delay w =
    let v = tried env w in
    record v { g_sock = minus_one; trace = usleep (delay * 1000) ∷ close v.g_sock ∷ v.trace }

-- The body of the loop of `zygisk_connect` at one delay; `next` is the rest of the loop.
connect_round : Env → ℕ → World → (World → ℤ × World) → ℤ × World
connect_round env delay w next =
    let v = opened env w in
    let status = env.int v.trace (connect v.g_sock) in
    let again = next (retried env delay w) in
    if not w.g_available
    then (minus_one, w)
    else if is_neg v.g_sock
    then (minus_one, v)
    else if eq_ℤ status (pos 0)
    then (v.g_sock, tried env w)
    else again

-- After the loop the breaker is open.
trip : World → ℤ × World
trip w = (minus_one, record w { g_available = false })

-- The loop, from a given delay.
unfoldable pub connect_loop : Env → ℕ → ℕ → World → ℤ × World
unfolding connect_round trip
connect_loop env zero delay w = (minus_one, w)
connect_loop env (suc fuel) delay w =
    let round = connect_round env delay w (λ v. connect_loop env fuel (next_delay delay) v) in
    if leb delay 3000 then round else trip w

-- The rounds of the loop: delays 100, 200, 400, 800, 1600, and the test that ends it.
abbrev pub connect_fuel : ℕ
connect_fuel = 6

unfoldable pub zygisk_connect : Env → World → ℤ × World
zygisk_connect env w =
    if not w.g_available
    then (minus_one, w)
    else if nonneg w.g_sock
    then (w.g_sock, w)
    else connect_loop env connect_fuel 100 w

unfoldable pub zygisk_disconnect : World → World
zygisk_disconnect w =
    if nonneg w.g_sock then record w { g_sock = minus_one; trace = close w.g_sock ∷ w.trace } else w
