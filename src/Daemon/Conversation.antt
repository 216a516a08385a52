-- ===== src/Daemon/Conversation.antt =====
-- The client and the daemon on one connection: the daemon answers the first header that the client
-- sends, and drops the connection.
use zygisk_magisk_module.Prelude.{
  ℕ, ℤ, pos, signed32, pattern32, ◌^◌, ◌≤◌, ◌<◌, ◌≡◌, refl, sym, ap, subst, ◌∙◌, List, [], ◌∷◌,
  ◌++◌, length, take, drop, arith, length-append, take-append_left,
}
use zygisk_magisk_module.World.{Call, write, Env}
use zygisk_magisk_module.Ipc.Bytes.{
  le32, of_le32, of_le32-le32, Response, encode_response, IsWords, encode_request,
}
use zygisk_magisk_module.Ipc.Bytes.Stream.{IsStream}
use zygisk_magisk_module.Ipc.Connect.Session.{sent, received, IsFresh, eq_ℤ-refl}
use zygisk_magisk_module.Daemon.Process.{Files, process_info}
use zygisk_magisk_module.Daemon.{respond}

-- The daemon has got a whole header.
abbrev pub IsAsked : ℤ → List Call → Type 0
IsAsked fd t = 8 ≤ length (sent fd t)

-- What is left of its response.
unfoldable pub to_come : Env → Files → ℤ → List Call → List ℕ
to_come env files fd t = drop (received env fd t) (respond files (take 8 (sent fd t)))

-- A connection with the daemon: once it has got a header, its response comes, and nothing after it.
abbrev pub IsServed : Env → Files → ℤ → Type 0
IsServed env files fd = IsStream env fd (IsAsked fd) (to_come env files fd)

-- The daemon's response about a process.
abbrev pub response_for : Files → ℕ → Response
response_for files pid = record {
  code = 0;
  uid = pattern32 (process_info files (pos pid)).uid;
  flags = (process_info files (pos pid)).flags;
}

pattern32-fits : (z : ℤ) → pattern32 z < 2 ^ 32
pattern32-fits z = ground arith

pub response_for-IsWords : (files : Files) (pid : ℕ) → IsWords (response_for files pid)
unfolding process_info
response_for-IsWords files pid = record {
  code_fits = omega arith;
  uid_fits = pattern32-fits (process_info files (pos pid)).uid;
  flags_fit = omega arith;
}

-- To the bytes of a request, whatever its opcode.
respond-encode_request :
    (files : Files) (opcode pid : ℕ)
    → pid < 2 ^ 31
    → respond files (take 8 (encode_request opcode pid)) ≡ encode_response (response_for files pid)
unfolding respond encode_request le32
respond-encode_request files opcode pid small =
    let read : of_le32 (drop 4 (encode_request opcode pid)) ≡ pid =
      of_le32-le32 pid [] (omega arith) in
    let number : signed32 (of_le32 (drop 4 (encode_request opcode pid))) ≡ pos pid =
      ap signed32 read ∙ ground arith in
    ap
      (λ p. encode_response (record {
        code = 0;
        uid = pattern32 (process_info files p).uid;
        flags = (process_info files p).flags;
      }))
      number

-- A request on a fresh connection: the response is all that comes.
pub request-to_come :
    (env : Env) (files : Files) (fd : ℤ) (opcode pid : ℕ) (t : List Call)
    → IsFresh env fd t
    → pid < 2 ^ 31
    → let asked = write fd (encode_request opcode pid) ∷ t in
      IsAsked fd asked × (to_come env files fd asked ≡ encode_response (response_for files pid))
unfolding sent received to_come encode_request le32
request-to_come env files fd opcode pid t (nothing, none_received) small =
    let whole : sent fd (write fd (encode_request opcode pid) ∷ t) ≡ encode_request opcode pid =
      rw (eq_ℤ-refl fd) (rw nothing refl) in
    (
      subst (λ bs. 8 ≤ length bs) (sym whole) (omega arith),
      ap (λ n. drop n (respond files (take 8 (sent fd (write fd (encode_request opcode pid) ∷ t)))))
            none_received
          ∙ ap (λ bs. respond files (take 8 bs)) whole
          ∙ respond-encode_request files opcode pid small,
    )

pub take-encode_response : (r : Response) → take 12 (encode_response r) ≡ encode_response r
unfolding encode_response le32
take-encode_response r = refl

-- A later request on the connection: the daemon is gone, and nothing more comes.
pub later-to_come :
    (env : Env) (files : Files) (fd : ℤ) (bytes : List ℕ) (t : List Call)
    → IsAsked fd t
    → to_come env files fd t ≡ []
    → let asked = write fd bytes ∷ t in IsAsked fd asked × (to_come env files fd asked ≡ [])
unfolding sent received to_come
later-to_come env files fd bytes t asked over =
    let whole : sent fd (write fd bytes ∷ t) ≡ sent fd t ++ bytes = rw (eq_ℤ-refl fd) refl in
    (
      subst (λ bs. 8 ≤ length bs) (sym whole)
          (omega (arith, asked, length-append (sent fd t) bytes)),
      ap (λ bs. drop (received env fd t) (respond files (take 8 bs))) whole
          ∙ ap (λ bs. drop (received env fd t) (respond files bs))
              (take-append_left 8 (sent fd t) bytes asked)
          ∙ over,
    )
