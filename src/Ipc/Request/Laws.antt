-- ===== src/Ipc/Request/Laws.antt =====
-- What a request leaves behind, and what the circuit breaker stops for good.
use zygisk_magisk_module.Prelude.{
  ℕ, minus_one, is_neg, signed32, ◌≡◌, refl, Bool, true, false, none, some, List, [], ◌∷◌, arith,
  Bool-cases, inl, inr,
}
use zygisk_magisk_module.World.{write, Env, World}
use zygisk_magisk_module.Ipc.Bytes.{Response, encode_request, emit}
use zygisk_magisk_module.Ipc.Bytes.Reading.{read_all-SameState}
use zygisk_magisk_module.Ipc.Connect.{zygisk_connect, zygisk_disconnect}
use zygisk_magisk_module.Ipc.Connect.Breaker.{
  IsConsistent, zygisk_connect-IsConnected, zygisk_disconnect-IsConsistent,
}
use zygisk_magisk_module.Ipc.Request.{Reply, finish_request, exchange, zygisk_request}

-- What a request leaves: without a response the code is -1 and there is no connection; with one
-- the code is the response's and the connection stays open.
abbrev pub IsAnswered : Reply → World → Type 0
IsAnswered reply v =
    IsConsistent v
    × (reply.response ≡ none → (reply.code ≡ minus_one) × (is_neg v.g_sock ≡ true))
    × ((r : Response)
        → reply.response ≡ some r
        → (reply.code ≡ signed32 r.code) × (is_neg v.g_sock ≡ false))

exchange-IsAnswered :
    (env : Env) (opcode pid : ℕ) (want_fd : Bool) (w : World)
    → is_neg w.g_sock ≡ false
    → w.g_available ≡ true
    → let r = exchange env opcode pid want_fd w in IsAnswered r.0 r.1
unfolding exchange finish_request zygisk_disconnect
exchange-IsAnswered env opcode pid want_fd w up on =
    let sent : World = emit (write w.g_sock (encode_request opcode pid)) w in
    let kept = read_all-SameState env w.g_sock 12 sent in
    (ground (arith, kept), λ e. ground (arith, kept), λ r e. ground (arith, kept))

-- From a consistent state, a request without a response returns -1 and leaves no connection; one
-- with a response returns the response's code and leaves the connection open. The state stays
-- consistent.
pub zygisk_request-IsAnswered :
    (env : Env) (opcode pid : ℕ) (want_fd : Bool) (w : World)
    → IsConsistent w
    → let r = zygisk_request env opcode pid want_fd w in IsAnswered r.0 r.1
unfolding zygisk_request
zygisk_request-IsAnswered env opcode pid want_fd w c =
    let (done, ok) = zygisk_connect-IsConnected env w c in
    let connected = (zygisk_connect env w).1 in
    elim (Bool-cases (is_neg (zygisk_connect env w).0)) [
      | inl failed ↦ rw failed (ok, λ e. ground (arith, done), λ r e. cc)
      | inr up ↦ rw up (
          exchange-IsAnswered env opcode pid want_fd connected (ground (arith, done))
            (ground (arith, ok)))
    ]

-- A call on the client.
pub data Use : Type 0 where
  connects disconnects : Use
  requests : ℕ → ℕ → Bool → Use

unfoldable pub perform : Env → Use → World → World
perform env connects w = (zygisk_connect env w).1
perform env disconnects w = zygisk_disconnect w
perform env (requests opcode pid want_fd) w = (zygisk_request env opcode pid want_fd w).1

unfoldable pub perform_all : Env → List Use → World → World
perform_all env [] w = w
perform_all env (u ∷ us) w = perform_all env us (perform env u w)

perform_tripped :
    (env : Env) (u : Use) (w : World)
    → w.g_available ≡ false
    → is_neg w.g_sock ≡ true
    → perform env u w ≡ w
unfolding perform zygisk_connect zygisk_disconnect zygisk_request
perform_tripped env u w off down = ground arith

perform_all_tripped :
    (env : Env) (us : List Use) (w : World)
    → w.g_available ≡ false
    → is_neg w.g_sock ≡ true
    → perform_all env us w ≡ w
unfolding perform_all
perform_all_tripped env [] w off down = refl
perform_all_tripped env (u ∷ us) w off down =
    rw (perform_tripped env u w off down) (perform_all_tripped env us w off down)

pub perform-IsConsistent :
    (env : Env) (u : Use) (w : World) → IsConsistent w → IsConsistent (perform env u w)
unfolding perform
perform-IsConsistent env connects w c = (zygisk_connect-IsConnected env w c).1
perform-IsConsistent env disconnects w c = zygisk_disconnect-IsConsistent w c
perform-IsConsistent env (requests opcode pid want_fd) w c =
    (zygisk_request-IsAnswered env opcode pid want_fd w c).0

-- Any sequence of calls keeps the client consistent; and once a call has opened the breaker, no
-- later sequence of calls makes a system call or changes anything.
pub breaker_stays_open :
    (env : Env) (before after : List Use) (w : World)
    → IsConsistent w
    → let v = perform_all env before w in
      IsConsistent v × (v.g_available ≡ false → perform_all env after v ≡ v)
unfolding perform_all
breaker_stays_open env [] after w c = (c, λ off. perform_all_tripped env after w off (c off))
breaker_stays_open env (u ∷ us) after w c =
    breaker_stays_open env us after (perform env u w) (perform-IsConsistent env u w c)
