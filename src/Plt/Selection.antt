-- ===== src/Plt/Selection.antt =====
-- Which hooks a commit registers: an independent description of the nested loops.
use Prim.Native.Nat.{bit_and}
use zygisk_magisk_module.Prelude.{
  ℕ, ◌≡◌, ◌≢◌, refl, ◌↔◌, ◌⊎◌, inl, inr, true, List, [], ◌∷◌, arith, Any, Occurs,
}
use zygisk_magisk_module.World.{
  Text, Call, Target, register_hook, scan_maps, module_func, MapInfo, Env, RegisterInfo, IgnoreInfo,
  Context, World,
}
use zygisk_magisk_module.Plt.{
  eq_text, is_empty, is_candidate, is_ignored, register_all, process_maps, plt_hook_process_regex,
  plt_hook_commit,
}

pub eq_text_iff : (s t : Text) → (eq_text s t ≡ true) ↔ (s ≡ t)
unfolding eq_text
eq_text_iff [] [] = (λ h. refl, λ h. refl)
eq_text_iff [] (c ∷ t) = (λ h. cc, λ h. cc)
eq_text_iff (b ∷ s) [] = (λ h. cc, λ h. cc)
eq_text_iff (b ∷ s) (c ∷ t) = ground (arith, eq_text_iff s t)

-- An exclusion covers a symbol of a library if its expression matches the library's path and its
-- symbol is that symbol, or empty.
abbrev Covers : Env → Text → Text → IgnoreInfo → Type 0
Covers env path symbol i =
    (env.regexec i.regex path ≡ true) × ((i.symbol ≡ []) ⊎ (i.symbol ≡ symbol))

-- A library's first mapping: at offset 0, private and readable.
abbrev IsHead : MapInfo → Type 0
IsHead m = (m.offset ≡ 0) × (m.is_private ≡ true) × (bit_and m.perms 1 ≢ 0)

-- A registration picks a mapping, no exclusion covers it, and the call is what it asks for there.
abbrev Picks : Env → Context → Call → MapInfo → RegisterInfo → Type 0
Picks env c call m r =
    (env.regexec r.regex m.path ≡ true)
    × ¬ Any (Covers env m.path r.symbol) c.ignore_info
    × (register_hook m.dev m.inode r.symbol (module_func r.callback) ≡ call)

abbrev pub IsSelected : Env → Context → List MapInfo → Call → Type 0
IsSelected env c ms call = Any (λ m. IsHead m × Any (Picks env c call m) c.register_info) ms

empty_iff : (s : Text) → (is_empty s ≡ true) ↔ (s ≡ [])
empty_iff [] = (λ h. refl, λ h. refl)
empty_iff (c ∷ s) = (λ h. cc, λ h. cc)

is_ignored_iff :
    (env : Env) (path symbol : Text) (is : List IgnoreInfo)
    → (is_ignored env path symbol is ≡ true) ↔ Any (Covers env path symbol) is
unfolding is_ignored
is_ignored_iff env path symbol [] = (λ h. cc, λ h. absurd h)
is_ignored_iff env path symbol (i ∷ is) =
    ground
      (arith, is_ignored_iff env path symbol is, empty_iff i.symbol, eq_text_iff i.symbol symbol)

is_candidate_iff : (m : MapInfo) → (is_candidate m ≡ true) ↔ IsHead m
unfolding is_candidate
is_candidate_iff m = ground arith

register_all-Occurs :
    (env : Env) (c : Context) (m : MapInfo) (call : Call) (rs : List RegisterInfo) (t : List Call)
    → Occurs call (register_all env m c.ignore_info rs t)
      ↔ (Any (Picks env c call m) rs ⊎ Occurs call t)
unfolding register_all
register_all-Occurs env c m call [] t = ground arith
register_all-Occurs env c m call (r ∷ rs) t = ground (
  arith,
  is_ignored_iff env m.path r.symbol c.ignore_info,
  register_all-Occurs env c m call rs t,
  register_all-Occurs env c m call rs
      (register_hook m.dev m.inode r.symbol (module_func r.callback) ∷ t),
)

process_maps-Occurs :
    (env : Env) (c : Context) (call : Call) (ms : List MapInfo) (t : List Call)
    → Occurs call (process_maps env c ms t) ↔ (IsSelected env c ms call ⊎ Occurs call t)
unfolding process_maps
process_maps-Occurs env c call [] t = ground arith
process_maps-Occurs env c call (m ∷ ms) t = ground (
  arith,
  is_candidate_iff m,
  register_all-Occurs env c m call c.register_info t,
  process_maps-Occurs env c call ms t,
  process_maps-Occurs env c call ms (register_all env m c.ignore_info c.register_info t),
)

none-IsSelected :
    (env : Env) (c : Context) (call : Call) (ms : List MapInfo)
    → c.register_info ≡ []
    → ¬ IsSelected env c ms call
none-IsSelected env c call [] e h = h
none-IsSelected env c call (m ∷ ms) e (inl h) = ground (arith, h.1)
none-IsSelected env c call (m ∷ ms) e (inr h) = none-IsSelected env c call ms e h

process_regex-Occurs :
    (env : Env) (w : World) (dev inode : ℕ) (symbol : Text) (target : Target)
    → let call = register_hook dev inode symbol target in
      Occurs call (plt_hook_process_regex env w).trace
      ↔ (IsSelected env w.ctx (env.maps w.trace) call ⊎ Occurs call w.trace)
unfolding plt_hook_process_regex
process_regex-Occurs env w dev inode symbol target =
    let call = register_hook dev inode symbol target in
    ground (
      arith,
      empty_regs w.ctx.register_info,
      none-IsSelected env w.ctx call (env.maps w.trace),
      process_maps-Occurs env w.ctx call (env.maps w.trace) (scan_maps ∷ w.trace),
    )
  where
    empty_regs : (rs : List RegisterInfo) → is_empty rs ≡ true → rs ≡ []
    empty_regs [] h = refl
    empty_regs (r ∷ rs) h = cc

-- A commit asks lsplt for a hook exactly if the hook was asked for before, or some registration
-- picks it in the mappings of the process and no exclusion covers it. Afterwards both lists are
-- empty, and the result is that of lsplt's own commit.
pub plt_hook_commit_lem :
    (env : Env) (w : World) (dev inode : ℕ) (symbol : Text) (target : Target)
    → let call = register_hook dev inode symbol target in
      let (result, v) = plt_hook_commit env w in
      (Occurs call v.trace ↔ (IsSelected env w.ctx (env.maps w.trace) call ⊎ Occurs call w.trace))
      × (v.ctx.register_info ≡ [])
      × (v.ctx.ignore_info ≡ [])
      × (result ≡ env.commits (plt_hook_process_regex env w).trace)
unfolding plt_hook_commit
plt_hook_commit_lem env w dev inode symbol target =
    (ground (arith, process_regex-Occurs env w dev inode symbol target), refl, refl, refl)
