-- ===== src/Examples/Server.antt =====
-- The client against the daemon, over a kernel that delivers what is written.
use zygisk_magisk_module.Daemon.Conversation.{IsAsked, to_come, response_for}
use zygisk_magisk_module.Daemon.Info.{get_module_info-served}
use zygisk_magisk_module.Daemon.Process.{Files, process_info, starts_with, status_path}
use zygisk_magisk_module.Daemon.Requests.{zygisk_request-served}
use zygisk_magisk_module.Daemon.Status.{IsLine, unlines, uid_line, process_info-uid}
use zygisk_magisk_module.Examples.{state}
use zygisk_magisk_module.Examples.Kernel.{kernel, files, kernel-IsServed}
use zygisk_magisk_module.Ipc.Bytes.{le32, encode_request, read_all}
use zygisk_magisk_module.Ipc.Bytes.Stream.{read_all-take}
use zygisk_magisk_module.Ipc.Connect.{zygisk_connect, connect_loop}
use zygisk_magisk_module.Ipc.Connect.Session.{sent}
use zygisk_magisk_module.Ipc.Request.{reply_of, no_reply, zygisk_request}
use zygisk_magisk_module.Prelude.{
  ℕ, minus_one, ◌≤◌, ◌≡◌, refl, Bool, true, false, none, some, [], length, take, drop,
  if◌then◌else◌, arith, leb, ℤ, List, pos, ◌∷◌, ◌++◌, All, ◌&&◌, ◌||◌, not, ◌==◌,
}
use zygisk_magisk_module.Scan.{scan_all, get_module_info}
use zygisk_magisk_module.World.{write, Env, World, Call, Text, text, connect}

-- A connection on which a request was sent.
abbrev asking : World
asking = record (state (pos 3) 0 []) {
  trace = write (pos 3) (encode_request 0 77) ∷ connect (pos 3) ∷ [];
}

asking-IsAsked : IsAsked (pos 3) asking.trace
unfolding sent encode_request le32
asking-IsAsked = ground arith

no_end : Text → Bool
no_end [] = true
no_end (c ∷ s) = not ((c == 10) || (c == 13)) && no_end s

no_end-IsLine : (s : Text) → no_end s ≡ true → IsLine s
unfolding no_end
no_end-IsLine [] h = tt
no_end-IsLine (c ∷ s) h = (ground arith, no_end-IsLine s (ground arith))

name-IsLine :
    All (λ l. IsLine l × (starts_with (text "Uid:") l ≡ false)) (text "Name:\tapp_process64" ∷ [])
unfolding starts_with no_end
name-IsLine = ((no_end-IsLine (text "Name:\tapp_process64") refl, refl), tt)

users-IsLine : IsLine (text "10001\t10001\t10001")
unfolding no_end
users-IsLine = no_end-IsLine (text "10001\t10001\t10001") refl

zygisk_request-served_example :
    let env : Env = kernel in
    let files : Files = files in
    let opcode : ℕ = 0 in
    let pid : ℕ = 77 in
    let opcode' : ℕ = 0 in
    let pid' : ℕ = 77 in
    let want_fd : Bool = false in
    let w : World = state minus_one 0 [] in
    let (reply, u) = zygisk_request env opcode pid false w in
    let (reply', v) = zygisk_request env opcode' pid' want_fd u in
    (reply ≡ reply_of (response_for files pid) none)
    × (u.g_sock ≡ (zygisk_connect env w).0)
    × (reply' ≡ no_reply)
    × (v.g_sock ≡ minus_one)
unfolding zygisk_connect connect_loop
zygisk_request-served_example =
    zygisk_request-served kernel files 0 77 0 77 false (state minus_one 0 []) refl refl
      (kernel-IsServed (pos 3)) refl (ground arith)

get_module_info-served_example :
    let env : Env = kernel in
    let w : World = state minus_one 0 [] in
    let (ret, fds, u) = get_module_info env w in
    (ret ≡ (zygisk_connect env w).0)
    × (u.ctx.info_flags ≡ 0)
    × ((v : World) × (v.ctx.info_flags ≡ 0) × ((fds, u) ≡ scan_all env v))
unfolding zygisk_connect connect_loop
get_module_info-served_example =
    get_module_info-served kernel files (state minus_one 0 []) refl refl (kernel-IsServed (pos 3))
      (ground arith)

read_all-take_example :
    let env : Env = kernel in
    let fd : ℤ = pos 3 in
    let IsLive : List Call → Type 0 = IsAsked (pos 3) in
    let rest : List Call → List ℕ = to_come kernel files (pos 3) in
    let count : ℕ = 12 in
    let w : World = asking in
    let coming = rest w.trace in
    let r = read_all env fd count w in
    (r.0 ≡ (if leb count (length coming) then some (take count coming) else none))
    × (count ≤ length coming → (rest r.1.trace ≡ drop count coming) × IsLive r.1.trace)
read_all-take_example =
    read_all-take kernel (pos 3) (IsAsked (pos 3)) (to_come kernel files (pos 3)) 12 asking
      (kernel-IsServed (pos 3)) (asking-IsAsked)

process_info-uid_example :
    let files : Files = files in
    let pid : ℤ = pos 77 in
    let before : List Text = text "Name:\tapp_process64" ∷ [] in
    let n : ℕ = 10001 in
    let others : Text = text "10001\t10001\t10001" in
    let after : Text = [] in
    (files (status_path pid) ≡ some (unlines before (uid_line n others ++ b'\n' ∷ after))
      → (process_info files pid).uid ≡ pos n)
    × (files (status_path pid) ≡ none → (process_info files pid).uid ≡ minus_one)
process_info-uid_example =
    process_info-uid files (pos 77) (text "Name:\tapp_process64" ∷ []) 10001
      (text "10001\t10001\t10001") ([]) (name-IsLine) (ground arith) (users-IsLine)
