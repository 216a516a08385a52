-- ===== src/Scan.antt =====
-- `get_module_info` of src/libzygisk/src/module.cpp: the daemon's answer about the process, and the
-- search for module libraries in the file system. Its argument `uid` is not used.
pub mod Paths
use zygisk_magisk_module.Prelude.{
  ℕ, ℤ, minus_one, nonneg, ◌-◌, Bool, true, false, not, ◌&&◌, ◌||◌, Option, none, some, List, [],
  ◌∷◌, ◌++◌, ◌==◌, length, drop, ltb, if◌then◌else◌,
}
use zygisk_magisk_module.Flags.{get_info, is_unmount}
use zygisk_magisk_module.World.{
  Text, text, Call, close, opendir, open_file, Dirent, Dir, Env, Context, World,
}
use zygisk_magisk_module.Ipc.Bytes.{decode_response, emit, xxread}
use zygisk_magisk_module.Plt.{eq_text}
use zygisk_magisk_module.Companion.{zygisk_request_fd}

abbrev pub modules_dir : Text
modules_dir = text "/data/adb/modules"

-- `d_name[0] == '.'`
abbrev pub is_hidden : Text → Bool
is_hidden [] = false
is_hidden (c ∷ name) = c == b'.'

-- `size() < 3` and the comparison of the last three bytes with ".so".
unfoldable pub is_library : Text → Bool
is_library name = not (ltb (length name) 3) && eq_text (drop (length name - 3) name) (text ".so")

-- The loop over one directory of libraries: the descriptors of those that open, in order.
unfoldable pub open_libraries : Env → Text → List Dirent → World → List ℤ × World
open_libraries env path [] w = ([], w)
open_libraries env path (e ∷ es) w =
    let full = path ++ b'/' ∷ e.name in
    let mfd = env.int w.trace (open_file full) in
    let (fds, v) =
      open_libraries env path es (if is_library e.name then emit (open_file full) w else w) in
    (if is_library e.name && nonneg mfd then mfd ∷ fds else fds, v)

-- The directory of a module.
abbrev pub zygisk_dir : Text → Text
zygisk_dir name = modules_dir ++ b'/' ∷ name ++ text "/zygisk"

-- The body of the loop over /data/adb/modules; a stream is closed when it goes out of scope.
unfoldable pub scan_module : Env → Dirent → World → List ℤ × World
scan_module env e w =
    let path = zygisk_dir e.name in
    if not e.is_dir || is_hidden e.name then ([], w) else (elim (env.directory w.trace path) [
      | none ↦ ([], emit (opendir path) w)
      | some dir ↦
          let (fds, v) = open_libraries env path dir.entries (emit (opendir path) w) in
          (fds, emit (close dir.dirfd) v)
    ])

unfoldable pub scan_modules : Env → List Dirent → World → List ℤ × World
scan_modules env [] w = ([], w)
scan_modules env (e ∷ es) w =
    let (fds, v) = scan_module env e w in let (rest, u) = scan_modules env es v in (fds ++ rest, u)

-- The scan of the file system.
unfoldable pub scan_all : Env → World → List ℤ × World
scan_all env w = elim (env.directory w.trace modules_dir) [
  | none ↦ ([], emit (opendir modules_dir) w)
  | some dir ↦
      let (fds, v) = scan_modules env dir.entries (emit (opendir modules_dir) w) in
      (fds, emit (close dir.dirfd) v)
]

-- The flags in `resp` after the read: what was not read is what the stack held.
abbrev pub answered_flags : Env → List ℕ → ℕ
answered_flags env got = (decode_response (got ++ drop (length got) env.garbage)).flags

-- The result, the descriptors put in `fds`, and the world.
unfoldable pub get_module_info : Env → World → ℤ × List ℤ × World
get_module_info env w =
    let (fd, v) = zygisk_request_fd env get_info w in
    let (ret, got, u) = xxread env fd 12 v in
    let answered = record u { ctx = record u.ctx { info_flags = answered_flags env got } } in
    let (fds, scanned) = scan_all env answered in
    if not (nonneg fd)
    then (minus_one, [], v)
    else if is_unmount (answered_flags env got)
    then (fd, [], answered)
    else (fd, fds, scanned)
