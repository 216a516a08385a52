-- ===== src/Flags.antt =====
-- The flag words: src/common/consts.hpp, src/libzygisk/src/api.hpp, and the masks and the state
-- flags of src/libzygisk/src/module.hpp. A `uint32_t` flag word is a number below 2 ^ 32.
pub mod Laws
use Prim.Native.Nat.{bit_and, bit_or}
use zygisk_magisk_module.Prelude.{ℕ, ◌-◌, ◌^◌, Bool, not, ◌==◌}

-- `ZygiskRequest`, the opcodes of the daemon's protocol.
pub data ZygiskRequest : Type 0 where
  get_info get_module_dir connect_companion : ZygiskRequest

-- Unary `+` on an enumerator of `ZygiskRequest`.
abbrev pub opcode : ZygiskRequest → ℕ
opcode get_info = 0
opcode get_module_dir = 1
opcode connect_companion = 2

-- `ZygiskStateFlags`
abbrev pub process_granted_root : ℕ
process_granted_root = 0x01

abbrev pub process_on_denylist : ℕ
process_on_denylist = 0x02

abbrev pub denylist_enforced : ℕ
denylist_enforced = 0x04

abbrev pub process_is_magisk_app : ℕ
process_is_magisk_app = 0x08

abbrev pub unmount_mask : ℕ
unmount_mask = bit_or process_on_denylist denylist_enforced

abbrev pub private_mask : ℕ
private_mask = bit_or denylist_enforced process_is_magisk_app

-- The state flags of a context.
pub data StateFlag : Type 0 where
  post_specialize app_fork_and_specialize app_specialize : StateFlag
  server_fork_and_specialize do_revert_unmount skip_close_log_pipe : StateFlag

abbrev pub mask : StateFlag → ℕ
mask post_specialize = 1
mask app_fork_and_specialize = 2
mask app_specialize = 4
mask server_fork_and_specialize = 8
mask do_revert_unmount = 16
mask skip_close_log_pipe = 32

-- `word & bits` as a condition.
unfoldable pub has_any : ℕ → ℕ → Bool
has_any word bits = not (bit_and word bits == 0)

-- `flags & FLAG` as a condition.
unfoldable pub has : ℕ → StateFlag → Bool
unfolding has_any
has flags f = has_any flags (mask f)

-- `(info_flags & UNMOUNT_MASK) == UNMOUNT_MASK`
unfoldable pub is_unmount : ℕ → Bool
is_unmount info = bit_and info unmount_mask == unmount_mask

-- `flags |= FLAG`
unfoldable pub add_flag : ℕ → StateFlag → ℕ
add_flag flags f = bit_or flags (mask f)

-- `~bits` of a `uint32_t`
abbrev pub complement32 : ℕ → ℕ
complement32 bits = 2 ^ 32 - 1 - bits

-- `info_flags & ~PRIVATE_MASK`
unfoldable pub public_flags : ℕ → ℕ
public_flags info = bit_and info (complement32 private_mask)

-- `zygisk::Option`; a module may pass any other number.
pub data ModuleOption : Type 0 where
  force_denylist_unmount dlclose_module_library : ModuleOption
  unknown_option : ℕ → ModuleOption
