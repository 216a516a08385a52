-- ===== src/Plt.antt =====
-- Hooks that modules register by regular expression: `plt_hook_register`, `plt_hook_exclude`,
-- `plt_hook_process_regex` and `plt_hook_commit` of src/libzygisk/src/module.cpp. The code runs on
-- one thread, so that `hook_info_lock` is always free; compiled expressions are never used after
-- `regfree`, since the lists are cleared with it.
pub mod Selection
use Prim.Native.Nat.{bit_and}
use zygisk_magisk_module.Prelude.{
  ℕ, Bool, true, false, not, ◌&&◌, ◌||◌, Option, none, some, List, [], ◌∷◌, ◌++◌, ◌==◌, ◌-◌, length,
  drop, ltb, if◌then◌else◌,
}
use zygisk_magisk_module.World.{
  Text, Call, register_hook, commit_hook, scan_maps, module_func, MapInfo, Env, RegisterInfo,
  IgnoreInfo, Context, World,
}

-- `ign.symbol == reg.symbol`, and `empty`.
unfoldable pub eq_text : Text → Text → Bool
eq_text [] [] = true
eq_text [] (c ∷ t) = false
eq_text (b ∷ s) [] = false
eq_text (b ∷ s) (c ∷ t) = (b == c) && eq_text s t

-- `path.ends_with(suffix)`
unfoldable pub ends_with : Text → Text → Bool
ends_with path suffix =
    not (ltb (length path) (length suffix))
    && eq_text (drop (length path - length suffix) path) suffix

abbrev pub is_empty {ℓ} : {A : Type ℓ} → List A → Bool
is_empty [] = true
is_empty (x ∷ xs) = false

-- `symbol ?: ""`
abbrev or_empty : Option Text → Text
or_empty none = []
or_empty (some s) = s

-- A module's `fn` is null if it is 0.
unfoldable pub plt_hook_register : Env → Option Text → Option Text → ℕ → Context → Context
plt_hook_register env none symbol fn c = c
plt_hook_register env (some regex) none fn c = c
plt_hook_register env (some regex) (some symbol) fn c =
    if fn == 0 then c else (elim (env.regcomp regex) [
      | none ↦ c
      | some re ↦ record c {
        register_info =
            c.register_info ++ record { regex = re; symbol = symbol; callback = fn } ∷ [];
      }
    ])

unfoldable pub plt_hook_exclude : Env → Option Text → Option Text → Context → Context
plt_hook_exclude env none symbol c = c
plt_hook_exclude env (some regex) symbol c = elim (env.regcomp regex) [
  | none ↦ c
  | some re ↦ record c {
    ignore_info = c.ignore_info ++ record { regex = re; symbol = or_empty symbol } ∷ [];
  }
]

-- `PROT_READ`
abbrev prot_read : ℕ
prot_read = 1

-- The negation of the test that skips a map.
unfoldable pub is_candidate : MapInfo → Bool
is_candidate m = (m.offset == 0) && (m.is_private && not (bit_and m.perms prot_read == 0))

-- The loop over `ignore_info`.
unfoldable pub is_ignored : Env → Text → Text → List IgnoreInfo → Bool
is_ignored env path symbol [] = false
is_ignored env path symbol (i ∷ is) =
    let rest = is_ignored env path symbol is in
    if env.regexec i.regex path && (is_empty i.symbol || eq_text i.symbol symbol)
    then true
    else rest

-- The loop over `register_info`, at one map.
unfoldable pub register_all :
    Env → MapInfo → List IgnoreInfo → List RegisterInfo → List Call → List Call
register_all env m ignores [] t = t
register_all env m ignores (r ∷ rs) t = register_all env m ignores rs (
    if env.regexec r.regex m.path && not (is_ignored env m.path r.symbol ignores)
    then register_hook m.dev m.inode r.symbol (module_func r.callback) ∷ t
    else t)

-- The loop over the maps.
unfoldable pub process_maps : Env → Context → List MapInfo → List Call → List Call
process_maps env c [] t = t
process_maps env c (m ∷ ms) t =
    process_maps env c ms
      (if is_candidate m then register_all env m c.ignore_info c.register_info t else t)

unfoldable pub plt_hook_process_regex : Env → World → World
plt_hook_process_regex env w =
    if is_empty w.ctx.register_info
    then w
    else record w { trace = process_maps env w.ctx (env.maps w.trace) (scan_maps ∷ w.trace) }

unfoldable pub plt_hook_commit : Env → World → Bool × World
plt_hook_commit env w =
    let v = plt_hook_process_regex env w in
    (
      env.commits v.trace,
      record v {
        ctx = record v.ctx { register_info = []; ignore_info = [] };
        trace = commit_hook ∷ v.trace;
      },
    )
