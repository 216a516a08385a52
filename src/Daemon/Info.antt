-- ===== src/Daemon/Info.antt =====
-- What `get_module_info` learns from the daemon.
use zygisk_magisk_module.Prelude.{
  ℕ, ℤ, is_neg, nonneg, ◌^◌, ◌<◌, ◌≡◌, refl, sym, ap, subst, ◌∙◌, true, false, List, take, drop,
  arith,
}
use zygisk_magisk_module.Flags.{get_info, opcode, is_unmount}
use zygisk_magisk_module.World.{write, Context, Env, World}
use zygisk_magisk_module.Ipc.Bytes.{
  le32, encode_response, decode_response, decode-encode_response, encode_request, emit, xxread,
}
use zygisk_magisk_module.Ipc.Bytes.Stream.Xxread.{xxread-take}
use zygisk_magisk_module.Ipc.Connect.{zygisk_connect}
use zygisk_magisk_module.Ipc.Connect.Session.{zygisk_connect-IsNew}
use zygisk_magisk_module.Companion.{zygisk_request_fd}
use zygisk_magisk_module.Scan.{scan_all, answered_flags, get_module_info}
use zygisk_magisk_module.Scan.Paths.{scan_all_lem}
use zygisk_magisk_module.Daemon.Process.{Files, process_info}
use zygisk_magisk_module.Daemon.Conversation.{
  IsAsked, to_come, IsServed, response_for, response_for-IsWords, request-to_come,
  take-encode_response,
}

-- The flags in the buffer, when a whole response was read.
answered_flags-response :
    (env : Env) (files : Files) (pid : ℕ) (got : List ℕ)
    → got ≡ encode_response (response_for files pid)
    → answered_flags env got ≡ 0
unfolding process_info encode_response le32 decode_response
answered_flags-response env files pid got whole =
    let r = response_for files pid in
    ap (answered_flags env) whole
    ∙ ap (λ x. x.flags)
        (decode-encode_response r (drop 12 env.garbage) (response_for-IsWords files pid))

request_fd-up :
    (env : Env) (w : World)
    → is_neg (zygisk_connect env w).0 ≡ false
    → let (fd, v) = zygisk_connect env w in
      zygisk_request_fd env get_info w
      ≡ (fd, emit (write fd (encode_request (opcode get_info) env.process_id)) v)
unfolding zygisk_request_fd
request_fd-up env w up = rw up refl

-- The context with the flags of the answer, from which the scan starts.
abbrev answered : Env → ℤ → World → World
answered env fd v =
    let x = xxread env fd 12 v in
    record x.2 { ctx = record x.2.ctx { info_flags = answered_flags env x.1 } }

get_module_info-scan :
    (env : Env) (fd : ℤ) (v w : World)
    → zygisk_request_fd env get_info w ≡ (fd, v)
    → nonneg fd ≡ true
    → is_unmount (answered_flags env (xxread env fd 12 v).1) ≡ false
    → get_module_info env w
      ≡ (fd, (scan_all env (answered env fd v)).0, (scan_all env (answered env fd v)).1)
unfolding get_module_info
get_module_info-scan env fd v w asks up kept = rw asks (rw up (rw kept refl))

not_unmount : is_unmount 0 ≡ false
unfolding is_unmount
not_unmount = refl

-- On a new connection to the daemon as it is, no process is on the denylist: whatever the process,
-- the flags that `get_module_info` learns are 0, and the libraries of the modules are looked for. A
-- connection can be made, and the kernel delivers what the daemon writes.
pub get_module_info-served :
    (env : Env) (files : Files) (w : World)
    → is_neg w.g_sock ≡ true
    → is_neg (zygisk_connect env w).0 ≡ false
    → IsServed env files (zygisk_connect env w).0
    → env.process_id < 2 ^ 31
    → let (ret, fds, u) = get_module_info env w in
      (ret ≡ (zygisk_connect env w).0)
      × (u.ctx.info_flags ≡ 0)
      × ((v : World) × (v.ctx.info_flags ≡ 0) × ((fds, u) ≡ scan_all env v))
get_module_info-served env files w free up served small =
    let fd = (zygisk_connect env w).0 in
    let v = (zygisk_connect env w).1 in
    let (fresh, sock, on) = zygisk_connect-IsNew env w free up in
    let asking : World = emit (write fd (encode_request (opcode get_info) env.process_id)) v in
    let (asked, coming) =
      request-to_come env files fd (opcode get_info) env.process_id v.trace fresh small in
    let (got, after) =
      xxread-take env fd (IsAsked fd) (to_come env files fd) 12 asking served asked in
    let whole : (xxread env fd 12 asking).1 ≡ encode_response (response_for files env.process_id) =
      got ∙ ap (take 12) coming ∙ take-encode_response (response_for files env.process_id) in
    let flags = answered_flags-response env files env.process_id _ whole in
    let info =
      get_module_info-scan env fd asking w (request_fd-up env w up) (ground (arith, up))
        (ap is_unmount flags ∙ not_unmount) in
    let scanned = answered env fd asking in
    let same = (scan_all_lem env scanned).0 in
    subst
      (λ r.
        (r.0 ≡ fd)
        × (r.2.ctx.info_flags ≡ 0)
        × ((s : World) × (s.ctx.info_flags ≡ 0) × ((r.1, r.2) ≡ scan_all env s)))
      (sym info) (refl, ap (λ (c : Context). c.info_flags) same.1 ∙ flags, (scanned, flags, refl))
