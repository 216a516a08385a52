-- ===== src/Fds/Exempt.antt =====
-- What `exempt_fd` promises a module, through the clean-up of descriptors.
use zygisk_magisk_module.Prelude.{
  ℤ, ◌≡◌, ◌≢◌, refl, ap, subst, ◌∙◌, inl, inr, true, false, Option, none, some, List, [], ◌∷◌, ◌++◌,
  arith, Occurs,
}
use zygisk_magisk_module.Flags.{has, post_specialize, skip_close_log_pipe}
use zygisk_magisk_module.World.{close, Dir, Env, Args, app, server, World}
use zygisk_magisk_module.Plt.{is_empty}
use zygisk_magisk_module.Fds.{
  is_child, fds_to_ignore, set_fds_to_ignore, can_exempt_fd, exempt_fd, in_range, exempt_all,
  proc_self_fd, close_listed, sanitize_fds, update_fds,
}
use zygisk_magisk_module.Fds.Sanitize.{sanitize_fds_lem, can_exempt_fd-none}

-- A module calls `exemptFd`.
abbrev pub exempted : ℤ → World → World
exempted fd w = record w { ctx = (exempt_fd fd w.ctx).1 }

Occurs-last : (xs : List ℤ) (x : ℤ) → Occurs x (xs ++ x ∷ [])
Occurs-last [] x = inl refl
Occurs-last (y ∷ xs) x = inr (Occurs-last xs x)

Occurs-right : (xs ys : List ℤ) (x : ℤ) → Occurs x ys → Occurs x (xs ++ ys)
Occurs-right [] ys x h = h
Occurs-right (y ∷ xs) ys x h = inr (Occurs-right xs ys x h)

is_empty-last : (xs : List ℤ) (x : ℤ) → is_empty (xs ++ x ∷ []) ≡ false
is_empty-last [] x = refl
is_empty-last (y ∷ xs) x = refl

set_fds_to_ignore_lem :
    (arr : List ℤ) (args : Args)
    → fds_to_ignore args ≢ none
    → fds_to_ignore (set_fds_to_ignore arr args) ≡ some (some arr)
set_fds_to_ignore_lem arr (app a) n = refl
set_fds_to_ignore_lem arr (server a) n = absurd (n refl)

-- The array that the Java side is given.
exempt_all-array :
    (env : Env) (u : World) (fd : ℤ) (o : Option (Option (List ℤ)))
    → fds_to_ignore u.ctx.args ≡ o
    → can_exempt_fd u.ctx ≡ true
    → is_empty u.ctx.exempted_fds ≡ false
    → env.allocates u.trace ≡ true
    → Occurs fd u.ctx.exempted_fds
    → (arr : List ℤ) × (fds_to_ignore (exempt_all env u).ctx.args ≡ some (some arr)) × Occurs fd arr
unfolding exempt_all update_fds
exempt_all-array env u fd none e can more room there =
    absurd (ground (arith, can_exempt_fd-none u.ctx e))
exempt_all-array env u fd (some none) e can more room there =
    (u.ctx.exempted_fds, ground (arith, set_fds_to_ignore_lem u.ctx.exempted_fds u.ctx.args), there)
exempt_all-array env u fd (some (some old)) e can more room there = (
  old ++ u.ctx.exempted_fds,
  ground (arith, set_fds_to_ignore_lem (old ++ u.ctx.exempted_fds) u.ctx.args),
  Occurs-right old u.ctx.exempted_fds fd there,
)

close_listed-args :
    (env : Env) (u v : World) → close_listed env u ≡ some v → v.ctx.args ≡ u.ctx.args
unfolding close_listed
close_listed-args env u v done = ground arith

-- The state after a call that is accepted.
abbrev pushed : ℤ → World → World
pushed fd w = record w { ctx = record w.ctx { exempted_fds = w.ctx.exempted_fds ++ fd ∷ [] } }

exempt_fd-pushed :
    (fd : ℤ) (w : World)
    → can_exempt_fd w.ctx ≡ true
    → has w.ctx.flags post_specialize ≡ false
    → has w.ctx.flags skip_close_log_pipe ≡ false
    → ((exempt_fd fd w.ctx).0 ≡ true) × (exempted fd w ≡ pushed fd w)
unfolding exempt_fd
exempt_fd-pushed fd w can before early = rw (before, early, can) (refl, refl)

sanitize_fds-args :
    (env : Env) (u v : World)
    → is_child u.ctx ≡ true
    → sanitize_fds env u ≡ some v
    → v.ctx.args ≡ (exempt_all env u).ctx.args
unfolding sanitize_fds
sanitize_fds-args env u v child done = close_listed-args env (exempt_all env u) v (rw child at done)

-- In a child of an app whose method has the argument `fds_to_ignore`, before the specialisation: a
-- descriptor below the limit that a module exempts is accepted; if the array for the Java side can be
-- allocated, the clean-up does not close it (the stream of /proc/self/fd has another number), and
-- the array that the original method is given holds it.
pub exempt_fd-sanitize_fds :
    (env : Env) (w v : World) (dir : Dir) (fd : ℤ)
    → is_child w.ctx ≡ true
    → can_exempt_fd w.ctx ≡ true
    → has w.ctx.flags post_specialize ≡ false
    → has w.ctx.flags skip_close_log_pipe ≡ false
    → in_range fd w.ctx.allowed_fds ≡ true
    → env.allocates w.trace ≡ true
    → env.directory (exempt_all env (exempted fd w)).trace proc_self_fd ≡ some dir
    → dir.dirfd ≢ fd
    → sanitize_fds env (exempted fd w) ≡ some v
    → ((exempt_fd fd w.ctx).0 ≡ true)
      × (Occurs (close fd) v.trace → Occurs (close fd) w.trace)
      × ((arr : List ℤ) × (fds_to_ignore v.ctx.args ≡ some (some arr)) × Occurs fd arr)
unfolding can_exempt_fd
exempt_fd-sanitize_fds env w v dir fd child can before early within room opened other done =
    let u = pushed fd w in
    let (accepted, same) = exempt_fd-pushed fd w can before early in
    let last = Occurs-last w.ctx.exempted_fds fd in
    let more = is_empty-last w.ctx.exempted_fds fd in
    let opened' : env.directory (exempt_all env u).trace proc_self_fd ≡ some dir =
      subst (λ x. env.directory (exempt_all env x).trace proc_self_fd ≡ some dir) same opened in
    let done' : sanitize_fds env u ≡ some v = subst (λ x. sanitize_fds env x ≡ some v) same done in
    let (arr, told, listed) =
      exempt_all-array env u fd (fds_to_ignore w.ctx.args) refl can more room last in
    let closed = (sanitize_fds_lem env u v dir fd child opened' done').0 in
    (
      accepted,
      λ h. elim (closed h) [
        | inl this ↦ absurd (other this)
        | inr (inl found) ↦ absurd (found.2 (inr (within, can, more, inr (room, last))))
        | inr (inr old) ↦ old
      ],
      (arr, ap fds_to_ignore (sanitize_fds-args env u v child done') ∙ told, listed),
    )
