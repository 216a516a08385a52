-- ===== src/Examples/Descriptors.antt =====
-- Descriptors across a fork, on the concrete phone.
use zygisk_magisk_module.Examples.{before_fork, phone, context, after_specialize, state}
use zygisk_magisk_module.Fds.{
  parse_int, in_range, is_allowed, exempt_all, proc_self_fd, record_fds, fork_pre, sanitize_fds,
  fds_to_ignore, can_exempt_fd, allow_all, close_unwanted, set_fds_to_ignore, exempt_fd,
}
use zygisk_magisk_module.Fds.Exempt.{exempt_fd-sanitize_fds}
use zygisk_magisk_module.Fds.Fork.{fork_pre_lem, fork-sanitize}
use zygisk_magisk_module.Fds.Parse.{parse_int-decimal}
use zygisk_magisk_module.Fds.Sanitize.{Lists, sanitize_fds_lem, IsKept}
use zygisk_magisk_module.Flags.{has}
use zygisk_magisk_module.Plt.{eq_text}
use zygisk_magisk_module.Prelude.{
  ℕ, pos, ◌≡◌, refl, List, [], ◌∷◌, arith, ℤ, ◌≢◌, ◌↔◌, ◌⊎◌, true, false, some, Occurs, minus_one,
}
use zygisk_magisk_module.Prelude.Decimal.{decimal}
use zygisk_magisk_module.World.{
  close, opendir, Dir, Env, World, new_int_array, fork, sigprocmask_block,
}

-- After the fork.
abbrev forked_child : World
forked_child = record (state (pos 0) 2 []) {
  ctx = record (context (pos 0) 2 []) {
    allowed_fds = true ∷ false ∷ true ∷ false ∷ false ∷ false ∷ false ∷ false ∷ [];
  };
  trace = close (pos 4) ∷ opendir proc_self_fd ∷ fork ∷ sigprocmask_block ∷ [];
}

-- After the clean-up: 5, which the child has opened, is closed.
abbrev clean_child : World
clean_child = record forked_child {
  trace = close (pos 4) ∷ close (pos 5) ∷ opendir proc_self_fd ∷ forked_child.trace;
}

-- After a module has exempted 5, and the clean-up.
abbrev exempt_child : World
exempt_child = record (state (pos 0) 2 []) {
  ctx = record (context (pos 0) 2 []) {
    args = set_fds_to_ignore (pos 2 ∷ pos 5 ∷ []) (context (pos 0) 2 []).args;
    allowed_fds = false ∷ false ∷ true ∷ false ∷ false ∷ true ∷ false ∷ false ∷ [];
    exempted_fds = pos 5 ∷ [];
  };
  trace =
      close (pos 4)
      ∷ close (pos 0)
      ∷ opendir proc_self_fd
      ∷ new_int_array (pos 2 ∷ pos 5 ∷ [])
      ∷ [];
}

parse_int-decimal_example : let n : ℕ = 1024 in parse_int (decimal n) ≡ pos n
parse_int-decimal_example = parse_int-decimal 1024 (ground arith)

fork-sanitize_example :
    let u : World = forked_child in
    let u' : World = clean_child in
    let before : Dir = before_fork in
    let after : Dir = after_specialize in
    let fd : ℤ = pos 5 in
    Occurs (close fd) u'.trace
    ↔ ((Lists fd after.entries × ¬ Lists fd before.entries) ⊎ Occurs (close fd) u.trace)
unfolding fork_pre sanitize_fds eq_text record_fds can_exempt_fd has close_unwanted
fork-sanitize_example =
    fork-sanitize (phone (pos 0) 1) (state minus_one 2 []) forked_child forked_child clean_child
      before_fork after_specialize (pos 5) refl refl refl refl refl refl refl refl refl refl
      (λ e. ground arith) (λ e. ground arith)

sanitize_fds_lem_example :
    let env : Env = phone (pos 0) 1 in
    let w : World = forked_child in
    let v : World = clean_child in
    let dir : Dir = after_specialize in
    let fd : ℤ = pos 5 in
    Occurs (close fd) v.trace ↔ (
      (dir.dirfd ≡ fd)
      ⊎ ((Lists fd dir.entries × (dir.dirfd ≢ fd) × ¬ IsKept env w fd) ⊎ Occurs (close fd) w.trace))
unfolding sanitize_fds eq_text can_exempt_fd has close_unwanted
sanitize_fds_lem_example =
    sanitize_fds_lem (phone (pos 0) 1) forked_child clean_child after_specialize (pos 5) refl refl
      refl

exempt_fd-sanitize_fds_example :
    let w : World = state (pos 0) 2 [] in
    let v : World = exempt_child in
    let fd : ℤ = pos 5 in
    ((exempt_fd fd w.ctx).0 ≡ true)
    × (Occurs (close fd) v.trace → Occurs (close fd) w.trace)
    × ((arr : List ℤ) × (fds_to_ignore v.ctx.args ≡ some (some arr)) × Occurs fd arr)
unfolding sanitize_fds eq_text can_exempt_fd has exempt_fd exempt_all close_unwanted allow_all
exempt_fd-sanitize_fds_example =
    exempt_fd-sanitize_fds (phone (pos 0) 1) (state (pos 0) 2 []) exempt_child before_fork (pos 5)
      refl refl refl refl refl refl refl (λ e. ground arith) refl

fork_pre_lem_example :
    let w : World = state minus_one 2 [] in
    let v : World = forked_child in
    let dir : Dir = before_fork in
    let fd : ℤ = pos 2 in
    ((is_allowed fd v.ctx.allowed_fds ≡ true) ↔ (
      (dir.dirfd ≢ fd)
      × ((Lists fd dir.entries × (in_range fd w.ctx.allowed_fds ≡ true))
          ⊎ (is_allowed fd w.ctx.allowed_fds ≡ true))))
    × (Occurs (close fd) v.trace ↔ (
        (dir.dirfd ≡ fd)
        ⊎ ((Lists fd dir.entries × (in_range fd w.ctx.allowed_fds ≡ false))
            ⊎ Occurs (close fd) w.trace)))
unfolding fork_pre eq_text record_fds
fork_pre_lem_example =
    fork_pre_lem (phone (pos 0) 1) (state minus_one 2 []) forked_child before_fork (pos 2) refl refl
      refl
