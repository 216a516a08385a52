-- ===== src/Flags/Laws.antt =====
-- What the tests of a flag word see after `|=`, and which bits `getFlags` lets a module see.
use Prim.Native.Nat.{bit_and, bit_or}
use zygisk_magisk_module.Prelude.{
  ℕ, ◌+◌, ◌*◌, ◌/◌, ◌%◌, ◌^◌, ◌<◌, ◌≡◌, sym, ap, ◌∙◌, Bool, false, ◌&&◌, ◌||◌, ◌==◌, arith,
}
use zygisk_magisk_module.Prelude.Bits.{
  bit_and_lowest, bit_and-zero, bit_or_lowest, bit_or-zero, bit_and-mask_below,
}
use zygisk_magisk_module.Flags.{
  StateFlag, post_specialize, app_fork_and_specialize, app_specialize, server_fork_and_specialize,
  do_revert_unmount, skip_close_log_pipe, mask, has, has_any, is_unmount, add_flag, public_flags,
  process_granted_root, process_on_denylist, denylist_enforced, private_mask,
}

and_1 : (a : ℕ) → bit_and a 1 ≡ a % 2
and_1 a = omega (arith, bit_and_lowest a 1, bit_and-zero (a / 2))

and_2 : (a : ℕ) → bit_and a 2 ≡ a / 2 % 2 * 2
and_2 a = omega (arith, bit_and_lowest a 2, and_1 (a / 2))

and_4 : (a : ℕ) → bit_and a 4 ≡ a / 4 % 2 * 4
and_4 a = omega (arith, bit_and_lowest a 4, and_2 (a / 2))

and_8 : (a : ℕ) → bit_and a 8 ≡ a / 8 % 2 * 8
and_8 a = omega (arith, bit_and_lowest a 8, and_4 (a / 2))

and_16 : (a : ℕ) → bit_and a 16 ≡ a / 16 % 2 * 16
and_16 a = omega (arith, bit_and_lowest a 16, and_8 (a / 2))

and_32 : (a : ℕ) → bit_and a 32 ≡ a / 32 % 2 * 32
and_32 a = omega (arith, bit_and_lowest a 32, and_16 (a / 2))

and_6 : (a : ℕ) → bit_and a 6 ≡ a / 2 % 4 * 2
and_6 a = omega (arith, bit_and_lowest a 6, bit_and_lowest (a / 2) 3, and_1 (a / 2 / 2))

and_12 : (a : ℕ) → bit_and a 12 ≡ a / 4 % 4 * 4
and_12 a = omega (arith, bit_and_lowest a 12, and_6 (a / 2))

or_1 : (a : ℕ) → bit_or a 1 ≡ a / 2 * 2 + 1
or_1 a = omega (arith, bit_or_lowest a 1, bit_or-zero (a / 2))

or_2 : (a : ℕ) → bit_or a 2 ≡ (a / 4 * 2 + 1) * 2 + a % 2
or_2 a = omega (arith, bit_or_lowest a 2, or_1 (a / 2))

or_4 : (a : ℕ) → bit_or a 4 ≡ (a / 8 * 2 + 1) * 4 + a % 4
or_4 a = omega (arith, bit_or_lowest a 4, or_2 (a / 2))

or_8 : (a : ℕ) → bit_or a 8 ≡ (a / 16 * 2 + 1) * 8 + a % 8
or_8 a = omega (arith, bit_or_lowest a 8, or_4 (a / 2))

or_16 : (a : ℕ) → bit_or a 16 ≡ (a / 32 * 2 + 1) * 16 + a % 16
or_16 a = omega (arith, bit_or_lowest a 16, or_8 (a / 2))

or_32 : (a : ℕ) → bit_or a 32 ≡ (a / 64 * 2 + 1) * 32 + a % 32
or_32 a = omega (arith, bit_or_lowest a 32, or_16 (a / 2))

-- A test of one flag, as a digit of the word.
abbrev has_digit : ℕ → StateFlag → Bool
has_digit a post_specialize = a % 2 == 1
has_digit a app_fork_and_specialize = a / 2 % 2 == 1
has_digit a app_specialize = a / 4 % 2 == 1
has_digit a server_fork_and_specialize = a / 8 % 2 == 1
has_digit a do_revert_unmount = a / 16 % 2 == 1
has_digit a skip_close_log_pipe = a / 32 % 2 == 1

has-has_digit : (a : ℕ) (f : StateFlag) → has a f ≡ has_digit a f
unfolding has
has-has_digit a post_specialize = ground (arith, and_1 a)
has-has_digit a app_fork_and_specialize = ground (arith, and_2 a)
has-has_digit a app_specialize = ground (arith, and_4 a)
has-has_digit a server_fork_and_specialize = ground (arith, and_8 a)
has-has_digit a do_revert_unmount = ground (arith, and_16 a)
has-has_digit a skip_close_log_pipe = ground (arith, and_32 a)

-- The same flag.
abbrev pub same : StateFlag → StateFlag → Bool
same f g = mask f == mask g

has_digit-add_flag :
    (a : ℕ) (f g : StateFlag) → has_digit (add_flag a f) g ≡ (same f g || has_digit a g)
unfolding add_flag
has_digit-add_flag a post_specialize g = ground (arith, or_1 a)
has_digit-add_flag a app_fork_and_specialize g = ground (arith, or_2 a)
has_digit-add_flag a app_specialize g = ground (arith, or_4 a)
has_digit-add_flag a server_fork_and_specialize g = ground (arith, or_8 a)
has_digit-add_flag a do_revert_unmount g = ground (arith, or_16 a)
has_digit-add_flag a skip_close_log_pipe g = ground (arith, or_32 a)

-- Setting a flag turns that flag on and leaves the test of every other flag as it was.
pub has-add_flag : (a : ℕ) (f g : StateFlag) → has (add_flag a f) g ≡ (same f g || has a g)
has-add_flag a f g =
    has-has_digit (add_flag a f) g
    ∙ has_digit-add_flag a f g
    ∙ ap (λ b. same f g || b) (sym (has-has_digit a g))

-- The unmount test asks for both the denylist bit and the enforcement bit.
pub is_unmount-has_any :
    (a : ℕ) → is_unmount a ≡ (has_any a process_on_denylist && has_any a denylist_enforced)
unfolding is_unmount has_any
is_unmount-has_any a = ground (arith, and_2 a, and_4 a, and_6 a)

public_flags-digits : (a : ℕ) → a < 2 ^ 32 → public_flags a ≡ a / 16 * 16 + a % 4
unfolding public_flags
public_flags-digits a h = omega (
  arith,
  bit_and_lowest a 0xfffffff3,
  bit_and_lowest (a / 2) 0x7ffffff9,
  bit_and_lowest (a / 2 / 2) 0x3ffffffc,
  bit_and_lowest (a / 2 / 2 / 2) 0x1ffffffe,
  bit_and-mask_below 28 (a / 2 / 2 / 2 / 2) (omega arith),
)

-- What a module is shown has no private bit, and agrees with the word on the two public state
-- flags and on all bits above the four state flags.
pub public_flags_hide :
    (a : ℕ)
    → a < 2 ^ 32
    → (has_any (public_flags a) private_mask ≡ false)
      × (has_any (public_flags a) process_granted_root ≡ has_any a process_granted_root)
      × (has_any (public_flags a) process_on_denylist ≡ has_any a process_on_denylist)
      × (public_flags a / 16 ≡ a / 16)
unfolding has_any
public_flags_hide a h = ground (
  arith,
  public_flags-digits a h,
  and_12 (public_flags a),
  and_1 (public_flags a),
  and_2 (public_flags a),
  and_1 a,
  and_2 a,
)
