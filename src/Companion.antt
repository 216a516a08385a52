-- ===== src/Companion.antt =====
-- Requests of a module to the daemon: `write_any`, `write_int`, `zygisk_request_fd`,
-- `connectCompanion`, `getModuleDir` and `owned_fd` of src/libzygisk/src/module.cpp.
pub mod Stale
use zygisk_magisk_module.Prelude.{
  ℕ, ℤ, minus_one, is_neg, nonneg, pattern32, pos, Bool, true, false, Option, none, some, List, [],
  ◌∷◌, if◌then◌else◌,
}
use zygisk_magisk_module.Flags.{ZygiskRequest, get_info, get_module_dir, connect_companion, opcode}
use zygisk_magisk_module.World.{Call, close, write, recvmsg, RecvAnswer, Env, World}
use zygisk_magisk_module.Ipc.Bytes.{le32, encode_request, emit}
use zygisk_magisk_module.Ipc.Connect.{zygisk_connect}

-- The destructor of `owned_fd`.
abbrev pub close_owned : ℤ → World → World
close_owned fd w = if nonneg fd then emit (close fd) w else w

-- `write_any` of the bytes of a value; the result of `write` is not looked at.
abbrev pub write_bytes : ℤ → List ℕ → World → World
write_bytes fd bytes w = if is_neg fd then w else emit (write fd bytes) w

unfoldable pub write_int : ℤ → ℤ → World → World
unfolding le32
write_int fd val w = write_bytes fd (le32 (pattern32 val)) w

unfoldable pub zygisk_request_fd : Env → ZygiskRequest → World → ℤ × World
zygisk_request_fd env req w =
    let (fd, v) = zygisk_connect env w in
    if is_neg fd
    then (fd, v)
    else (fd, emit (write fd (encode_request (opcode req) env.process_id)) v)

-- `sizeof(bool)` is 1.
abbrev bool_bytes : Bool → List ℕ
bool_bytes true = 1 ∷ []
bool_bytes false = 0 ∷ []

unfoldable pub companion_fd : Env → ℕ → World → ℤ × World
companion_fd env id w =
    let (fd, v) = zygisk_request_fd env connect_companion w in
    if nonneg fd
    then (fd, write_int fd (pos id) (write_bytes fd (bool_bytes env.lp64) v))
    else (minus_one, v)

-- The result of `getModuleDir` from the answer of `recvmsg`.
abbrev pub received_fd : RecvAnswer → ℤ
received_fd answer = if is_neg answer.result then minus_one else (elim answer.control [
  | none ↦ minus_one
  | some (rights, fd) ↦ if rights then fd else minus_one
])

unfoldable pub module_dir_fd : Env → ℕ → World → ℤ × World
module_dir_fd env id w =
    let (fd, v) = zygisk_request_fd env get_module_dir w in
    let asked = write_int fd (pos id) v in
    if nonneg fd
    then (received_fd (env.receiving asked.trace fd), close_owned fd (emit (recvmsg fd) asked))
    else (minus_one, v)
