-- ===== src/Ipc/Request.antt =====
-- `zygisk_request` of ipc_client.cpp: one request on the connection, and its response.
pub mod Laws
use zygisk_magisk_module.Prelude.{
  ℕ, ℤ, minus_one, is_neg, signed32, Bool, Option, none, some, List, ◌∷◌, if◌then◌else◌,
}
use zygisk_magisk_module.World.{Call, write, recvmsg, RecvAnswer, Env, World}
use zygisk_magisk_module.Ipc.Bytes.{Response, decode_response, encode_request, emit, read_all}
use zygisk_magisk_module.Ipc.Connect.{zygisk_connect, zygisk_disconnect}

-- What a request gives back: its code, and, if a response has come, the response and the
-- descriptor (if one was asked for). Without a response the caller's variables stay as they were.
pub record Reply : Type 0 where
  pub code : ℤ
  pub response : Option Response
  pub fd : Option ℤ

abbrev pub no_reply : Reply
no_reply = record { code = minus_one; response = none; fd = none }

-- The number in the first control message, or -1.
abbrev pub passed_fd : RecvAnswer → ℤ
passed_fd answer = elim answer.control [ none ↦ minus_one | some (rights, fd) ↦ fd ]

abbrev pub reply_of : Response → Option ℤ → Reply
reply_of r fd = record { code = signed32 r.code; response = some r; fd = fd }

-- After the response header: `recvmsg`, if the caller wants a descriptor.
unfoldable pub finish_request : Env → Bool → Response → World → Reply × World
finish_request env want_fd r w =
    if want_fd
    then (reply_of r (some (passed_fd (env.receiving w.trace w.g_sock))), emit (recvmsg w.g_sock) w)
    else (reply_of r none, w)

-- After `connect`: the header goes out and the response comes in, or the connection is closed.
unfoldable pub exchange : Env → ℕ → ℕ → Bool → World → Reply × World
unfolding finish_request
exchange env opcode pid want_fd w =
    let request = write w.g_sock (encode_request opcode pid) in
    let sent = emit request w in
    let (got, received) = read_all env w.g_sock 12 sent in
    if is_neg (env.int w.trace request) then (no_reply, zygisk_disconnect sent) else (elim got [
      | none ↦ (no_reply, zygisk_disconnect received)
      | some bytes ↦ finish_request env want_fd (decode_response bytes) received
    ])

unfoldable pub zygisk_request : Env → ℕ → ℕ → Bool → World → Reply × World
unfolding exchange
zygisk_request env opcode pid want_fd w =
    let (fd, connected) = zygisk_connect env w in
    if is_neg fd then (no_reply, connected) else exchange env opcode pid want_fd connected
