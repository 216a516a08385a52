-- ===== src/Ipc/Connect/Breaker.antt =====
-- The loop ends, its effort is bounded, it leaks no socket, and its result tells the state it leaves.
use zygisk_magisk_module.Prelude.{
  ℕ, suc, ℤ, minus_one, is_neg, nonneg, ◌+◌, ◌*◌, ◌≤◌, ◌≡◌, refl, sym, ◌∙◌, true, false, List, [],
  ◌∷◌, arith, if◌then◌else◌,
}
use zygisk_magisk_module.World.{Call, connect, close, usleep, Env, World}
use zygisk_magisk_module.Ipc.Connect.{
  connect_round, retried, trip, connect_loop, connect_fuel, zygisk_connect, zygisk_disconnect,
}

-- How often a trace connects a socket, and how often it closes one.
pub connects : List Call → ℕ
connects [] = 0
connects (connect fd ∷ t) = suc (connects t)
connects (c ∷ t) = connects t

pub closes : List Call → ℕ
closes [] = 0
closes (close fd ∷ t) = suc (closes t)
closes (c ∷ t) = closes t

-- The microseconds that a trace sleeps.
pub slept : List Call → ℕ
slept [] = 0
slept (usleep n ∷ t) = n + slept t
slept (c ∷ t) = slept t

-- What `zygisk_connect` does at most and leaves: at most `tries` more connects and `sleep` more
-- microseconds of sleep; the sockets that are open, by
-- count, are the one of the result and no other; the result and
-- `g_sock` are both negative or the same; and with the breaker open there is no socket.
pub record IsConnected (tries sleep : ℕ) (w : World) (r : ℤ × World) : Type 0 where
  pub few_connects : connects r.1.trace ≤ connects w.trace + tries
  pub short_sleep : slept r.1.trace ≤ slept w.trace + sleep
  pub balanced :
      connects r.1.trace + closes w.trace + (if nonneg w.g_sock then 1 else 0)
      ≡ connects w.trace + closes r.1.trace + (if nonneg r.0 then 1 else 0)
  pub same_sign : is_neg r.1.g_sock ≡ is_neg r.0
  pub same_socket : nonneg r.0 ≡ true → r.1.g_sock ≡ r.0
  pub breaker : r.1.g_available ≡ false → is_neg r.1.g_sock ≡ true

connect_round-IsConnected :
    (env : Env) (delay tries sleep : ℕ) (w : World) (next : World → ℤ × World)
    → is_neg w.g_sock ≡ true
    → ((v : World) → is_neg v.g_sock ≡ true → IsConnected tries sleep v (next v))
    → IsConnected (suc tries) (delay * 1000 + sleep) w (connect_round env delay w next)
unfolding connect_round connects closes slept
connect_round-IsConnected env delay tries sleep w next free ih =
    ground (arith, ih (retried env delay w) refl)

trip-IsConnected : (w : World) → is_neg w.g_sock ≡ true → IsConnected 0 0 w (trip w)
unfolding trip
trip-IsConnected w free = ground arith

-- The delays are 100, 200, 400, 800 and 1600 ms; whatever fuel is left then is not used.
connect_loop_rounds :
    (env : Env) (extra : ℕ) (w : World)
    → connect_loop env (suc (suc (suc (suc (suc (suc extra)))))) 100 w
      ≡ connect_round env 100 w (λ w. connect_round env 200 w (λ w.
        connect_round env 400 w
          (λ w. connect_round env 800 w (λ w. connect_round env 1600 w trip))))
unfolding connect_loop
connect_loop_rounds env extra w = refl

-- The loop ends within its fuel: with more it does the same.
pub connect_loop_fuel :
    (env : Env) (extra : ℕ) (w : World)
    → connect_loop env (suc (suc (suc (suc (suc (suc extra)))))) 100 w
      ≡ connect_loop env connect_fuel 100 w
connect_loop_fuel env extra w = connect_loop_rounds env extra w ∙ sym (connect_loop_rounds env 0 w)

connect_loop-IsConnected :
    (env : Env) (w : World)
    → is_neg w.g_sock ≡ true
    → IsConnected 5 3_100_000 w (connect_loop env connect_fuel 100 w)
connect_loop-IsConnected env w free = rw (connect_loop_rounds env 0 w) (
    connect_round-IsConnected env 100 4 3_000_000 w _ free λ w free.
      connect_round-IsConnected env 200 3 2_800_000 w _ free λ w free.
        connect_round-IsConnected env 400 2 2_400_000 w _ free λ w free.
          connect_round-IsConnected env 800 1 1_600_000 w _ free
            λ w free. connect_round-IsConnected env 1600 0 0 w _ free trip-IsConnected)

-- The breaker is open only while there is no socket.
abbrev pub IsConsistent : World → Type 0
IsConsistent w = w.g_available ≡ false → is_neg w.g_sock ≡ true

-- From a consistent state `zygisk_connect` keeps to its bounds, leaks no socket, and reports in its
-- result the socket that it leaves; the state stays consistent.
pub zygisk_connect-IsConnected :
    (env : Env) (w : World)
    → IsConsistent w
    → IsConnected 5 3_100_000 w (zygisk_connect env w) × IsConsistent (zygisk_connect env w).1
unfolding zygisk_connect
zygisk_connect-IsConnected env w c = ground (arith, connect_loop-IsConnected env w)

pub zygisk_disconnect-IsConsistent :
    (w : World) → IsConsistent w → IsConsistent (zygisk_disconnect w)
unfolding zygisk_disconnect
zygisk_disconnect-IsConsistent w c = ground arith

-- With the breaker open and no socket, neither call changes anything.
pub zygisk_connect_tripped :
    (env : Env) (w : World) → w.g_available ≡ false → zygisk_connect env w ≡ (minus_one, w)
unfolding zygisk_connect
zygisk_connect_tripped env w off = ground arith

-- A live connection is used again.
pub zygisk_connect_cached :
    (env : Env) (w : World) (fd : ℤ)
    → w.g_available ≡ true
    → w.g_sock ≡ fd
    → nonneg fd ≡ true
    → zygisk_connect env w ≡ (fd, w)
unfolding zygisk_connect
zygisk_connect_cached env w fd on same up = ground arith
