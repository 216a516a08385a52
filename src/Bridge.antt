-- ===== src/Bridge.antt =====
-- How src/libzygisk/src/hook.cpp finds the runtime callbacks of the Java VM and loads the real native
-- bridge: `unwind_get_region_start`, `find_runtime_callbacks` and `post_native_bridge_load`. The
-- call stack, with the saved registers of its frames, is the answer of `_Unwind_Backtrace`.
pub mod Search
use zygisk_magisk_module.Prelude.{
  ℕ, ◌+◌, ◌%◌, Bool, true, false, ◌&&◌, ◌||◌, Option, none, some, List, [], ◌∷◌, ◌==◌, map, drop,
  length, ltb, leb, if◌then◌else◌,
}
use zygisk_magisk_module.World.{
  Text, text, Call, scan_maps, backtrace, get_property, load_native_bridge, MapInfo, StackFrame,
  Arch, aarch64, arm, i386, x86_64, riscv, Env, HookContext,
}
use zygisk_magisk_module.Plt.{ends_with}

abbrev bridge_library : Text
bridge_library = text "/libnativebridge.so"

-- `PROT_WRITE | PROT_READ`
abbrev read_write : ℕ
read_write = 3

-- `fp |= 1` for a function in thumb mode, of which the bit 0 of the program counter tells.
abbrev is_thumb : Arch → StackFrame → Bool
is_thumb arm f = (f.register 15 % 2) == 1
is_thumb arch f = false

unfoldable pub unwind_get_region_start : Arch → StackFrame → ℕ
unwind_get_region_start arch f =
    if is_thumb arch f && ((f.region_start % 2) == 0) then f.region_start + 1 else f.region_start

-- The first map of the data of libart.so: its start and end.
unfoldable pub find_art_data : List MapInfo → ℕ × ℕ
find_art_data [] = (0, 0)
find_art_data (m ∷ ms) =
    let rest = find_art_data ms in
    if ends_with m.path (text "/libart.so") && (m.perms == read_write)
    then (m.start, m.end)
    else rest

-- The values that can be the second argument of LoadNativeBridge, in the order of the search: the
-- registers that a callee saves, or the third word above the base of the frame.
unfoldable pub candidates : Arch → StackFrame → List ℕ
candidates aarch64 f = map f.register (19 ∷ 20 ∷ 21 ∷ 22 ∷ 23 ∷ 24 ∷ 25 ∷ 26 ∷ 27 ∷ 28 ∷ [])
candidates arm f = map f.register (4 ∷ 5 ∷ 6 ∷ 7 ∷ 8 ∷ 9 ∷ 10 ∷ [])
candidates i386 f = f.memory (f.register 5 + 12) ∷ []
candidates x86_64 f = map f.register (3 ∷ 15 ∷ 14 ∷ 13 ∷ 12 ∷ [])
candidates riscv f = map f.register (8 ∷ 9 ∷ 18 ∷ 19 ∷ 20 ∷ 21 ∷ 22 ∷ 23 ∷ 24 ∷ 25 ∷ 26 ∷ 27 ∷ [])

abbrev pub is_within : ℕ × ℕ → ℕ → Bool
is_within (start, end) v = leb start v && ltb v end

-- The first value in the range, or null.
pub first_within : ℕ × ℕ → List ℕ → ℕ
first_within range [] = 0
first_within range (v ∷ vs) =
    let rest = first_within range vs in if is_within range v then v else rest

pub find_runtime_callbacks : Env → StackFrame → List Call → ℕ
find_runtime_callbacks env f t = first_within (find_art_data (env.maps t)) (candidates env.arch f)

abbrev pub is_bridge : StackFrame → Bool
is_bridge f = elim f.library [ none ↦ false | some path ↦ ends_with path bridge_library ]

-- The walk over the call stack, which ends at the first frame of the library.
pub find_frame : List StackFrame → Option StackFrame
find_frame [] = none
find_frame (f ∷ fs) = let rest = find_frame fs in if is_bridge f then some f else rest

-- ZYGISKLDR
abbrev pub zygisk_loader : Text
zygisk_loader = text "libzygisk.so"

-- The end of `post_native_bridge_load`: the rest of the property names the real native bridge.
pub reload_native_bridge : Env → ℕ → ℕ → List Call → List Call
reload_native_bridge env fn callbacks t =
    let nb = env.bridge_property t in
    let len = length zygisk_loader in
    if ltb len (length nb)
    then load_native_bridge fn (drop len nb) callbacks ∷ get_property ∷ t
    else get_property ∷ t

-- `post_native_bridge_load` after the walk, at the frame that it has found.
pub use_frame : Env → HookContext → List Call → Option StackFrame → HookContext × List Call
use_frame env h t none = (h, t)
use_frame env h t (some f) =
    let fn = unwind_get_region_start env.arch f in
    let callbacks = find_runtime_callbacks env f t in
    if (fn == 0) || (callbacks == 0) then (h, scan_maps ∷ t) else (
      record h { runtime_callbacks = callbacks },
      reload_native_bridge env fn callbacks (scan_maps ∷ t),
    )

pub post_native_bridge_load : Env → ℕ → HookContext → List Call → HookContext × List Call
post_native_bridge_load env handle h t =
    use_frame env (record h { self_handle = handle }) (backtrace ∷ t) (find_frame (env.frames t))
