-- ===== src/Daemon/Requests.antt =====
-- `zygisk_request` against the daemon.
use zygisk_magisk_module.Prelude.{
  ℕ, minus_one, is_neg, ◌^◌, ◌≤◌, ◌<◌, ◌≡◌, refl, sym, ap, subst, ◌∙◌, Bool, true, false, none,
  some, [], length, take, drop, if◌then◌else◌, arith, leb,
}
use zygisk_magisk_module.World.{write, Env, World}
use zygisk_magisk_module.Ipc.Bytes.{
  le32, encode_response, decode_response, decode-encode_response, encode_request, emit, read_all,
}
use zygisk_magisk_module.Ipc.Bytes.Reading.{read_all-SameState}
use zygisk_magisk_module.Ipc.Request.{reply_of, no_reply, finish_request, exchange, zygisk_request}
use zygisk_magisk_module.Ipc.Bytes.Stream.{read_all-take}
use zygisk_magisk_module.Ipc.Connect.{zygisk_connect, zygisk_disconnect}
use zygisk_magisk_module.Ipc.Connect.Breaker.{zygisk_connect_cached}
use zygisk_magisk_module.Ipc.Connect.Session.{IsFresh, zygisk_connect-IsNew}
use zygisk_magisk_module.Daemon.Process.{Files}
use zygisk_magisk_module.Daemon.Conversation.{
  IsAsked, to_come, IsServed, response_for, response_for-IsWords, request-to_come, later-to_come,
}

-- What is left of a connection that has been used: it is open for the client, and the daemon has
-- dropped it.
abbrev pub IsSpent : Env → Files → World → Type 0
IsSpent env files w =
    (w.g_available ≡ true)
    × (is_neg w.g_sock ≡ false)
    × IsAsked w.g_sock w.trace
    × (to_come env files w.g_sock w.trace ≡ [])

exchange-served :
    (env : Env) (files : Files) (opcode pid : ℕ) (w : World)
    → w.g_available ≡ true
    → is_neg w.g_sock ≡ false
    → IsFresh env w.g_sock w.trace
    → IsServed env files w.g_sock
    → is_neg (env.int w.trace (write w.g_sock (encode_request opcode pid))) ≡ false
    → pid < 2 ^ 31
    → let r = exchange env opcode pid false w in
      (r.0 ≡ reply_of (response_for files pid) none)
      × (r.1.g_sock ≡ w.g_sock)
      × IsSpent env files r.1
unfolding exchange finish_request encode_response le32
exchange-served env files opcode pid w on up fresh served wrote small =
    let asking : World = emit (write w.g_sock (encode_request opcode pid)) w in
    let (asked, coming) = request-to_come env files w.g_sock opcode pid w.trace fresh small in
    let (got, after) =
      read_all-take env w.g_sock (IsAsked w.g_sock) (to_come env files w.g_sock) 12 asking served
        asked in
    let kept = read_all-SameState env w.g_sock 12 asking in
    let r = response_for files pid in
    let whole : (read_all env w.g_sock 12 asking).0 ≡ some (encode_response r) =
      got ∙ ap (λ c. if leb 12 (length c) then some (take 12 c) else none) coming in
    let (rest, live) = after (subst (λ c. 12 ≤ length c) (sym coming) (omega arith)) in
    let u = (read_all env w.g_sock 12 asking).1 in
    let result : exchange env opcode pid false w
        ≡ (reply_of (decode_response (encode_response r)) none, u) =
      rw wrote (rw whole refl) in
    let decoded : decode_response (encode_response r) ≡ r =
      decode-encode_response r [] (response_for-IsWords files pid) in
    let spent : IsSpent env files u = (
      kept.1 ∙ on,
      ap is_neg kept.0 ∙ up,
      subst (λ fd. IsAsked fd u.trace) (sym kept.0) live,
      ap (λ fd. to_come env files fd u.trace) kept.0 ∙ rest ∙ ap (drop 12) coming,
    ) in
    (
      ap (λ x. x.0) result ∙ ap (λ x. reply_of x none) decoded,
      ap (λ x. x.1.g_sock) result ∙ kept.0,
      subst (λ x. IsSpent env files x.1) (sym result) spent,
    )

exchange-spent :
    (env : Env) (files : Files) (opcode pid : ℕ) (want_fd : Bool) (w : World)
    → is_neg w.g_sock ≡ false
    → IsServed env files w.g_sock
    → IsAsked w.g_sock w.trace
    → to_come env files w.g_sock w.trace ≡ []
    → let r = exchange env opcode pid want_fd w in (r.0 ≡ no_reply) × (r.1.g_sock ≡ minus_one)
unfolding exchange zygisk_disconnect
exchange-spent env files opcode pid want_fd w up served asked over =
    let asking : World = emit (write w.g_sock (encode_request opcode pid)) w in
    let (asked', coming) =
      later-to_come env files w.g_sock (encode_request opcode pid) w.trace asked over in
    let (got, after) =
      read_all-take env w.g_sock (IsAsked w.g_sock) (to_come env files w.g_sock) 12 asking served
        asked' in
    let kept = read_all-SameState env w.g_sock 12 asking in
    let failed : (read_all env w.g_sock 12 asking).0 ≡ none =
      got ∙ ap (λ c. if leb 12 (length c) then some (take 12 c) else none) coming in
    ground (arith, failed, kept)

request-exchange :
    (env : Env) (opcode pid : ℕ) (want_fd : Bool) (w : World)
    → is_neg (zygisk_connect env w).0 ≡ false
    → zygisk_request env opcode pid want_fd w
      ≡ exchange env opcode pid want_fd (zygisk_connect env w).1
unfolding zygisk_request
request-exchange env opcode pid want_fd w up = rw up refl

request-spent :
    (env : Env) (files : Files) (opcode pid : ℕ) (want_fd : Bool) (w : World)
    → IsSpent env files w
    → IsServed env files w.g_sock
    → let r = zygisk_request env opcode pid want_fd w in (r.0 ≡ no_reply) × (r.1.g_sock ≡ minus_one)
request-spent env files opcode pid want_fd w (on, up, asked, over) served =
    let cached : zygisk_connect env w ≡ (w.g_sock, w) =
      zygisk_connect_cached env w w.g_sock on refl (ground (arith, up)) in
    let same : zygisk_request env opcode pid want_fd w ≡ exchange env opcode pid want_fd w =
      request-exchange env opcode pid want_fd w (ap (λ c. is_neg c.0) cached ∙ up)
      ∙ ap (λ c. exchange env opcode pid want_fd c.1) cached in
    subst (λ r. (r.0 ≡ no_reply) × (r.1.g_sock ≡ minus_one)) (sym same)
      (exchange-spent env files opcode pid want_fd w up served asked over)

-- With the daemon as it is: the first request on a new connection, whatever its opcode, brings code
-- 0, the user of the process, and no flags; the client keeps the connection, but the daemon has
-- dropped it, so that the next request on it brings no response and returns -1, and the client
-- closes it. A connection can be made, the first write succeeds, and the kernel delivers what the
-- daemon writes.
pub zygisk_request-served :
    (env : Env) (files : Files) (opcode pid opcode' pid' : ℕ) (want_fd : Bool) (w : World)
    → is_neg w.g_sock ≡ true
    → is_neg (zygisk_connect env w).0 ≡ false
    → IsServed env files (zygisk_connect env w).0
    → is_neg (
        env.int
          (zygisk_connect env w).1.trace
          (write (zygisk_connect env w).0 (encode_request opcode pid)))
      ≡ false
    → pid < 2 ^ 31
    → let (reply, u) = zygisk_request env opcode pid false w in
      let (reply', v) = zygisk_request env opcode' pid' want_fd u in
      (reply ≡ reply_of (response_for files pid) none)
      × (u.g_sock ≡ (zygisk_connect env w).0)
      × (reply' ≡ no_reply)
      × (v.g_sock ≡ minus_one)
zygisk_request-served env files opcode pid opcode' pid' want_fd w free up served wrote small =
    let fd = (zygisk_connect env w).0 in
    let v = (zygisk_connect env w).1 in
    let (fresh, sock, on) = zygisk_connect-IsNew env w free up in
    let same = request-exchange env opcode pid false w up in
    let first =
      exchange-served env files opcode pid v on (ap is_neg sock ∙ up)
        (subst (λ f. IsFresh env f v.trace) (sym sock) fresh)
        (subst (IsServed env files) (sym sock) served)
        (ap (λ f. is_neg (env.int v.trace (write f (encode_request opcode pid)))) sock ∙ wrote)
        small in
    let (reply, kept, spent) =
      subst
        (λ r.
          (r.0 ≡ reply_of (response_for files pid) none)
          × (r.1.g_sock ≡ v.g_sock)
          × IsSpent env files r.1)
        (sym same) first in
    let u = (zygisk_request env opcode pid false w).1 in
    let again : IsServed env files u.g_sock =
      subst (IsServed env files) (sym (kept ∙ sock)) served in
    let second = request-spent env files opcode' pid' want_fd u spent again in
    (reply, kept ∙ sock, second.0, second.1)
