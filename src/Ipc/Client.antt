-- ===== src/Ipc/Client.antt =====
-- What the client promises to the code that uses it, as a state machine that knows no sockets, no
-- delays and no bytes; and that ipc_client.cpp implements it.
use zygisk_magisk_module.Prelude.{
  ℕ, ℤ, is_neg, nonneg, ◌≡◌, refl, sym, ◌∙◌, ap, subst, Bool, true, false, not, Option, none, some,
  List, [], ◌∷◌, arith, if◌then◌else◌, Bool-cases, ◌⊎◌, inl, inr,
}
use zygisk_magisk_module.World.{write, Env, World}
use zygisk_magisk_module.Ipc.Connect.{zygisk_connect, zygisk_disconnect}
use zygisk_magisk_module.Ipc.Connect.Breaker.{
  IsConsistent, zygisk_connect-IsConnected, zygisk_connect_tripped, zygisk_connect_cached,
}
use zygisk_magisk_module.Ipc.Bytes.{Response, encode_request, emit}
use zygisk_magisk_module.Ipc.Bytes.Reading.{read_all-SameState}
use zygisk_magisk_module.Ipc.Request.{exchange, finish_request, zygisk_request}
use zygisk_magisk_module.Ipc.Request.Laws.{
  Use, connects, disconnects, requests, perform, perform_all, perform-IsConsistent,
}

-- No connection; a connection, by its descriptor; or given up for good.
pub data Client : Type 0 where
  idle tripped : Client
  connected : ℤ → Client

-- What a call may do, and whether it reports success.
pub data Step : Client → Use → Bool → Client → Type 0 where
  opened : (fd : ℤ) → Step idle connects true (connected fd)
  failed : Step idle connects false idle
  gave_up : Step idle connects false tripped
  reused : (fd : ℤ) → Step (connected fd) connects true (connected fd)
  closed : (fd : ℤ) → Step (connected fd) disconnects false idle
  rested : Step idle disconnects false idle
  -- A request connects first; then it has a response on this connection, or the connection ends.
  answered :
      {c : Client} (fd : ℤ) {opcode pid : ℕ} {want_fd : Bool}
      → Step c connects true (connected fd)
      → Step c (requests opcode pid want_fd) true (connected fd)
  broken :
      {c : Client} (fd : ℤ) {opcode pid : ℕ} {want_fd : Bool}
      → Step c connects true (connected fd)
      → Step c (requests opcode pid want_fd) false idle
  refused :
      {c d : Client} {opcode pid : ℕ} {want_fd : Bool}
      → Step c connects false d
      → Step c (requests opcode pid want_fd) false d
  ignored : (u : Use) → Step tripped u false tripped

pub data Steps : Client → List Use → List Bool → Client → Type 0 where
  no_more : {c : Client} → Steps c [] [] c
  next_step :
      {b c d : Client} {u : Use} {us : List Use} {r : Bool} {rs : List Bool}
      → Step b u r c
      → Steps c us rs d
      → Steps b (u ∷ us) (r ∷ rs) d

-- The state of the machine that a world is in.
abbrev pub client : World → Client
client w =
    if not w.g_available then tripped else if is_neg w.g_sock then idle else connected w.g_sock

abbrev is_answered : Option Response → Bool
is_answered none = false
is_answered (some r) = true

-- Whether a call reports success.
pub reported : Env → Use → World → Bool
reported env connects w = nonneg (zygisk_connect env w).0
reported env disconnects w = false
reported env (requests opcode pid want_fd) w =
    is_answered (zygisk_request env opcode pid want_fd w).0.response

pub reported_all : Env → List Use → World → List Bool
reported_all env [] w = []
reported_all env (u ∷ us) w = reported env u w ∷ reported_all env us (perform env u w)

abbrev ClientCases : World → Type 0
ClientCases w =
    ((w.g_available ≡ false) × (client w ≡ tripped))
    ⊎ ((w.g_available ≡ true) × (is_neg w.g_sock ≡ true) × (client w ≡ idle))
    ⊎ ((w.g_available ≡ true) × (is_neg w.g_sock ≡ false) × (client w ≡ connected w.g_sock))

client-cases : (w : World) → ClientCases w
client-cases w = elim (Bool-cases w.g_available) [
  | inr off ↦ inl (off, rw off refl)
  | inl on ↦ elim (Bool-cases (is_neg w.g_sock)) [
    | inl down ↦ inr (inl (on, down, rw on (rw down refl)))
    | inr up ↦ inr (inr (on, up, rw on (rw up refl)))
  ]
]

zygisk_connect-opened :
    (env : Env) (w : World)
    → IsConsistent w
    → nonneg (zygisk_connect env w).0 ≡ true
    → client (zygisk_connect env w).1 ≡ connected (zygisk_connect env w).0
zygisk_connect-opened env w c up =
    let (kept, ok) = zygisk_connect-IsConnected env w c in
    let same = kept.same_socket up in
    elim (client-cases (zygisk_connect env w).1) [
      | inl (off, tripped_now) ↦ absurd (ground (arith, ok off, same))
      | inr (inl (on, down, idle_now)) ↦ absurd (ground (arith, same))
      | inr (inr (on, up_now, connected_now)) ↦ connected_now ∙ ap connected same
    ]

zygisk_connect-failed :
    (env : Env) (w : World)
    → IsConsistent w
    → nonneg (zygisk_connect env w).0 ≡ false
    → (client (zygisk_connect env w).1 ≡ idle) ⊎ (client (zygisk_connect env w).1 ≡ tripped)
zygisk_connect-failed env w c down =
    let (kept, ok) = zygisk_connect-IsConnected env w c in
    elim (client-cases (zygisk_connect env w).1) [
      | inl (off, tripped_now) ↦ inr tripped_now
      | inr (inl (on, closed_now, idle_now)) ↦ inl idle_now
      | inr (inr (on, up_now, connected_now)) ↦ absurd (ground (arith, kept.same_sign))
    ]

-- A step between the states that these states are.
Step-at :
    {b c : Client} {u : Use} {r : Bool} (b' : Client) (r' : Bool) (c' : Client)
    → b' ≡ b
    → r' ≡ r
    → c' ≡ c
    → Step b u r c
    → Step b' u r' c'
Step-at {b = b} {c = c} {u = u} {r = r} b' r' c' eb er ec step =
    subst (λ x. Step x u r' c') (sym eb)
      (subst (λ x. Step b u x c') (sym er) (subst (λ x. Step b u r x) (sym ec) step))

connects-Step :
    (env : Env) (w : World)
    → IsConsistent w
    → let r = zygisk_connect env w in Step (client w) connects (nonneg r.0) (client r.1)
connects-Step env w c = elim (client-cases w) [
  | inl (off, now) ↦
      let same = zygisk_connect_tripped env w off in
      Step-at _ _ _ now (ap (λ r. nonneg r.0) same) (ap (λ r. client r.1) same ∙ now)
        (ignored connects)
  | inr (inl (on, down, now)) ↦ elim (Bool-cases (nonneg (zygisk_connect env w).0)) [
    | inl up ↦ Step-at _ _ _ now up (zygisk_connect-opened env w c up) (opened _)
    | inr bad ↦ elim (zygisk_connect-failed env w c bad) [
      | inl idle_now ↦ Step-at _ _ _ now bad idle_now failed
      | inr tripped_now ↦ Step-at _ _ _ now bad tripped_now gave_up
    ]
  ]
  | inr (inr (on, up, now)) ↦
      let socket_up : nonneg w.g_sock ≡ true = ground arith in
      let same = zygisk_connect_cached env w w.g_sock on refl socket_up in
      Step-at _ _ _ now (ap (λ r. nonneg r.0) same ∙ socket_up) (ap (λ r. client r.1) same ∙ now)
        (reused w.g_sock)
]

disconnects-Step :
    (w : World) → IsConsistent w → Step (client w) disconnects false (client (zygisk_disconnect w))
unfolding zygisk_disconnect
disconnects-Step w c = elim (client-cases w) [
  | inl (off, now) ↦ Step-at _ _ _ now refl (ground (arith, c off)) (ignored disconnects)
  | inr (inl (on, down, now)) ↦ Step-at _ _ _ now refl (ground arith) rested
  | inr (inr (on, up, now)) ↦ Step-at _ _ _ now refl (ground arith) (closed w.g_sock)
]

-- An exchange keeps the connection with a response, and ends it without.
exchange-client :
    (env : Env) (opcode pid : ℕ) (want_fd : Bool) (w : World)
    → w.g_available ≡ true
    → is_neg w.g_sock ≡ false
    → let r = exchange env opcode pid want_fd w in
      client r.1 ≡ (if is_answered r.0.response then connected w.g_sock else idle)
unfolding exchange finish_request zygisk_disconnect
exchange-client env opcode pid want_fd w on up =
    let sent : World = emit (write w.g_sock (encode_request opcode pid)) w in
    let kept = read_all-SameState env w.g_sock 12 sent in ground (arith, kept)

requests-Step :
    (env : Env) (opcode pid : ℕ) (want_fd : Bool) (w : World)
    → IsConsistent w
    → let r = zygisk_request env opcode pid want_fd w in
      Step (client w) (requests opcode pid want_fd) (is_answered r.0.response) (client r.1)
unfolding zygisk_request
requests-Step env opcode pid want_fd w c =
    let (fd, v) = zygisk_connect env w in
    let (kept, ok) = zygisk_connect-IsConnected env w c in
    let step = connects-Step env w c in
    elim (Bool-cases (is_neg fd)) [
      | inl down ↦
          let bad : nonneg fd ≡ false = ground arith in
          rw down (refused (Step-at _ _ _ refl (sym bad) refl step))
      | inr up ↦
          let good : nonneg fd ≡ true = ground arith in
          let now = zygisk_connect-opened env w c good in
          let same = kept.same_socket good in
          let step' = Step-at _ true (connected fd) refl (sym good) (sym now) step in
          let v_up : is_neg v.g_sock ≡ false = ground (arith, same) in
          let on : v.g_available ≡ true = ground (arith, ok) in
          let after = exchange-client env opcode pid want_fd v on v_up in
          let reply = (exchange env opcode pid want_fd v).0.response in
          let end : Bool → Client = λ b. if b then connected v.g_sock else idle in
          rw up (elim (Bool-cases (is_answered reply)) [
            | inl there ↦
                Step-at _ _ _ refl there (after ∙ ap end there ∙ ap connected same)
                  (answered fd step')
            | inr missing ↦ Step-at _ _ _ refl missing (after ∙ ap end missing) (broken fd step')
          ])
    ]

perform-Step :
    (env : Env) (u : Use) (w : World)
    → IsConsistent w
    → Step (client w) u (reported env u w) (client (perform env u w))
unfolding perform reported
perform-Step env connects w c = connects-Step env w c
perform-Step env disconnects w c = disconnects-Step w c
perform-Step env (requests opcode pid want_fd) w c = requests-Step env opcode pid want_fd w c

-- From a consistent state, any sequence of calls on the client is a run of the machine, from the
-- state that the world is in to the one that it ends in, with the same reports of success: so a
-- connection keeps its descriptor until it ends, and a client that has given up stays so.
pub perform_all-Steps :
    (env : Env) (us : List Use) (w : World)
    → IsConsistent w
    → Steps (client w) us (reported_all env us w) (client (perform_all env us w))
unfolding perform_all reported_all
perform_all-Steps env [] w c = no_more
perform_all-Steps env (u ∷ us) w c =
    next_step (perform-Step env u w c)
      (perform_all-Steps env us (perform env u w) (perform-IsConsistent env u w c))
