-- ===== src/Ipc/Connect/Session.antt =====
-- What has passed over a socket since `zygisk_connect` has connected it.
use zygisk_magisk_module.Prelude.{
  ℕ, zero, suc, ℤ, is_neg, eq_ℤ, eq_ℤ_iff, ◌+◌, ◌≡◌, refl, true, false, Option, none, some, List,
  [], ◌∷◌, ◌++◌, length, if◌then◌else◌, arith, Bool-cases, inl, inr, leb,
}
use zygisk_magisk_module.World.{Call, connect, write, read, Env, World}
use zygisk_magisk_module.Ipc.Connect.{
  next_delay, opened, retried, connect_round, trip, connect_loop, connect_fuel, zygisk_connect,
}

-- What the client has written to a socket since it was connected.
unfoldable pub sent : ℤ → List Call → List ℕ
sent fd [] = []
sent fd (connect f ∷ t) = let rest = sent fd t in if eq_ℤ f fd then [] else rest
sent fd (write f bytes ∷ t) = let rest = sent fd t in if eq_ℤ f fd then rest ++ bytes else rest
sent fd (c ∷ t) = sent fd t

abbrev pub bytes_of : Option (List ℕ) → List ℕ
bytes_of none = []
bytes_of (some bs) = bs

-- How many bytes it has read since.
unfoldable pub received : Env → ℤ → List Call → ℕ
received env fd [] = 0
received env fd (connect f ∷ t) = let rest = received env fd t in if eq_ℤ f fd then 0 else rest
received env fd (read f n ∷ t) =
    let rest = received env fd t in
    if eq_ℤ f fd then rest + length (bytes_of (env.reading t f n).bytes) else rest
received env fd (c ∷ t) = received env fd t

-- Nothing has been sent on the connection, and nothing received.
abbrev pub IsFresh : Env → ℤ → List Call → Type 0
IsFresh env fd t = (sent fd t ≡ []) × (received env fd t ≡ 0)

pub eq_ℤ-refl : (z : ℤ) → eq_ℤ z z ≡ true
eq_ℤ-refl z = (eq_ℤ_iff z z).1 refl

connect-IsFresh : (env : Env) (fd : ℤ) (t : List Call) → IsFresh env fd (connect fd ∷ t)
unfolding sent received
connect-IsFresh env fd t = rw (eq_ℤ-refl fd) (refl, refl)

-- The result of an attempt to connect: with a socket, it is new.
abbrev pub IsNew : Env → ℤ × World → Type 0
IsNew env r =
    is_neg r.0 ≡ false → IsFresh env r.0 r.1.trace × (r.1.g_sock ≡ r.0) × (r.1.g_available ≡ true)

connect_round-IsNew :
    (env : Env) (delay : ℕ) (w : World) (next : World → ℤ × World)
    → ((v : World) → IsNew env (next v))
    → IsNew env (connect_round env delay w next)
unfolding connect_round
connect_round-IsNew env delay w next rest = ground (
  arith,
  rest (retried env delay w),
  connect-IsFresh env (opened env w).g_sock (opened env w).trace,
)

connect_loop-IsNew :
    (env : Env) (fuel delay : ℕ) (w : World) → IsNew env (connect_loop env fuel delay w)
unfolding connect_loop trip
connect_loop-IsNew env zero delay w = λ up. cc
connect_loop-IsNew env (suc fuel) delay w = elim (Bool-cases (leb delay 3000)) [
  | inl more ↦ rw more (
      connect_round-IsNew env delay w (λ v. connect_loop env fuel (next_delay delay) v)
        (λ v. connect_loop-IsNew env fuel (next_delay delay) v))
  | inr over ↦ rw over (λ up. cc)
]

pub zygisk_connect-IsNew :
    (env : Env) (w : World) → is_neg w.g_sock ≡ true → IsNew env (zygisk_connect env w)
unfolding zygisk_connect
zygisk_connect-IsNew env w free = ground (arith, connect_loop-IsNew env connect_fuel 100 w)
