-- ===== src/Daemon.antt =====
-- src/zygiskd/src: the daemon. It answers one request on each connection, whatever its opcode, and
-- drops the connection.
pub mod Process
pub mod Status
pub mod Conversation
pub mod Requests
pub mod Info
use zygisk_magisk_module.Prelude.{
  ℕ, ℤ, pos, signed32, pattern32, Bool, Option, none, some, List, [], ◌∷◌, drop, map, if◌then◌else◌,
}
use zygisk_magisk_module.World.{Text, text}
use zygisk_magisk_module.Plt.{eq_text}
use zygisk_magisk_module.Ipc.Bytes.{of_le32, encode_response}
use zygisk_magisk_module.Daemon.Process.{Files, ProcessInfo, process_info}

-- The response to the bytes of a request header.
unfoldable pub respond : Files → List ℕ → List ℕ
unfolding of_le32
respond files buf =
    let pid = signed32 (of_le32 (drop 4 buf)) in
    let info = process_info files pid in
    encode_response (record { code = 0; uid = pattern32 info.uid; flags = info.flags })

-- What comes from the listener: an error, or a connection on which the header can be read or not.
pub data Incoming : Type 0 where
  accept_error no_header : Incoming
  header : List ℕ → Incoming

-- A round of the loop: what is written to the connection, if anything.
unfoldable pub serve : Files → Incoming → Option (List ℕ)
serve files accept_error = none
serve files no_header = none
serve files (header buf) = some (respond files buf)

-- `run`, with what `bind` says.
unfoldable pub run : Files → Bool → List Incoming → List (Option (List ℕ))
run files bound incoming = if bound then map (serve files) incoming else []

-- `main`: the first argument, if there is one, must be "daemon"; `none` is exit(1).
unfoldable pub daemon_main :
    Files → Option Text → Bool → List Incoming → Option (List (Option (List ℕ)))
daemon_main files none bound incoming = some (run files bound incoming)
daemon_main files (some mode) bound incoming =
    if eq_text mode (text "daemon") then some (run files bound incoming) else none
