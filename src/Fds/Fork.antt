-- ===== src/Fds/Fork.antt =====
-- `fork_pre` notes the descriptors that the child inherits; `sanitize_fds` closes the others.
use zygisk_magisk_module.Prelude.{
  ℤ, eq_ℤ_iff, ◌≡◌, ◌≢◌, refl, ◌↔◌, ◌⊎◌, inl, inr, Bool, true, false, some, List, [], ◌∷◌, arith,
  Occurs, Bool-cases,
}
use zygisk_magisk_module.World.{Call, close, opendir, Dirent, Dir, Env, World}
use zygisk_magisk_module.Fds.{
  parse_int, is_child, in_range, is_allowed, assign, exempt_all, proc_self_fd, record_fds, HasFork,
  record_open, forked, fork_pre, sanitize_fds,
}
use zygisk_magisk_module.Fds.Sanitize.{Lists, is_allowed-assign, in_range-assign, sanitize_fds_lem}

record_fds-allowed :
    (es : List Dirent) (a : List Bool) (t : List Call) (fd : ℤ)
    → (is_allowed fd (record_fds es a t).0 ≡ true)
      ↔ ((Lists fd es × (in_range fd a ≡ true)) ⊎ (is_allowed fd a ≡ true))
unfolding record_fds
record_fds-allowed [] a t fd = ground arith
record_fds-allowed (e ∷ es) a t fd =
    let g = parse_int e.name in
    elim (Bool-cases (in_range g a)) [
      | inl ok ↦
          rw (ok, record_fds)
            (ground (
              arith,
              eq_ℤ_iff g fd,
              is_allowed-assign g fd true a,
              in_range-assign g fd true a,
              record_fds-allowed es (assign g true a) t fd,
            ))
      | inr out ↦ rw (out, record_fds) (ground (arith, record_fds-allowed es a (close g ∷ t) fd))
    ]

record_fds-in_range :
    (es : List Dirent) (a : List Bool) (t : List Call) (fd : ℤ)
    → in_range fd (record_fds es a t).0 ≡ in_range fd a
unfolding record_fds
record_fds-in_range [] a t fd = refl
record_fds-in_range (e ∷ es) a t fd =
    let g = parse_int e.name in
    elim (Bool-cases (in_range g a)) [
      | inl ok ↦
          rw (ok, record_fds)
            (ground
              (arith, in_range-assign g fd true a, record_fds-in_range es (assign g true a) t fd))
      | inr out ↦ rw (out, record_fds) (record_fds-in_range es a (close g ∷ t) fd)
    ]

record_fds-Occurs :
    (es : List Dirent) (a : List Bool) (t : List Call) (fd : ℤ)
    → Occurs (close fd) (record_fds es a t).1
      ↔ ((Lists fd es × (in_range fd a ≡ false)) ⊎ Occurs (close fd) t)
unfolding record_fds
record_fds-Occurs [] a t fd = ground arith
record_fds-Occurs (e ∷ es) a t fd =
    let g = parse_int e.name in
    elim (Bool-cases (in_range g a)) [
      | inl ok ↦
          rw (ok, record_fds)
            (ground
              (arith, in_range-assign g fd true a, record_fds-Occurs es (assign g true a) t fd))
      | inr out ↦ rw (out, record_fds) (ground (arith, record_fds-Occurs es a (close g ∷ t) fd))
    ]

record_open_lem :
    (env : Env) (w v : World) (dir : Dir) (fd : ℤ)
    → env.directory w.trace proc_self_fd ≡ some dir
    → record_open env w ≡ some v
    → ((is_allowed fd v.ctx.allowed_fds ≡ true) ↔ (
        (dir.dirfd ≢ fd)
        × ((Lists fd dir.entries × (in_range fd w.ctx.allowed_fds ≡ true))
            ⊎ (is_allowed fd w.ctx.allowed_fds ≡ true))))
      × (Occurs (close fd) v.trace ↔ (
          (dir.dirfd ≡ fd)
          ⊎ ((Lists fd dir.entries × (in_range fd w.ctx.allowed_fds ≡ false))
              ⊎ Occurs (close fd) w.trace)))
unfolding record_open
record_open_lem env w v dir fd opened done =
    let t : List Call = opendir proc_self_fd ∷ w.trace in
    ground (
      arith,
      eq_ℤ_iff dir.dirfd fd,
      is_allowed-assign dir.dirfd fd false (record_fds dir.entries w.ctx.allowed_fds t).0,
      record_fds-allowed dir.entries w.ctx.allowed_fds t fd,
      record_fds-Occurs dir.entries w.ctx.allowed_fds t fd,
    )

record_open_defined :
    (env : Env) (w : World) (dir : Dir)
    → env.directory w.trace proc_self_fd ≡ some dir
    → in_range dir.dirfd w.ctx.allowed_fds ≡ true
    → (v : World) × (record_open env w ≡ some v)
unfolding record_open
record_open_defined env w dir opened within =
    let (allowed, t) = record_fds dir.entries w.ctx.allowed_fds (opendir proc_self_fd ∷ w.trace) in
    let kept =
      record_fds-in_range dir.entries w.ctx.allowed_fds (opendir proc_self_fd ∷ w.trace)
        dir.dirfd in
    (
      record w {
        ctx = record w.ctx { allowed_fds = assign dir.dirfd false allowed };
        trace = close dir.dirfd ∷ t;
      },
      ground (arith, kept),
    )

-- A child that gets on has opened /proc/self/fd.
pub fork_pre-opens :
    (env : Env) (w v : World)
    → is_child (forked env w).ctx ≡ true
    → fork_pre env w ≡ some v
    → record_open env (forked env w) ≡ some v
unfolding fork_pre
fork_pre-opens env w v child done = ground arith

-- In the child, after `fork_pre` a descriptor is allowed exactly if it was so before or
-- /proc/self/fd lists it within range, the stream's own excepted; and what was closed is that
-- stream and what is listed out of range.
pub fork_pre_lem :
    (env : Env) (w v : World) (dir : Dir) (fd : ℤ)
    → is_child (forked env w).ctx ≡ true
    → env.directory (forked env w).trace proc_self_fd ≡ some dir
    → fork_pre env w ≡ some v
    → ((is_allowed fd v.ctx.allowed_fds ≡ true) ↔ (
        (dir.dirfd ≢ fd)
        × ((Lists fd dir.entries × (in_range fd w.ctx.allowed_fds ≡ true))
            ⊎ (is_allowed fd w.ctx.allowed_fds ≡ true))))
      × (Occurs (close fd) v.trace ↔ (
          (dir.dirfd ≡ fd)
          ⊎ ((Lists fd dir.entries × (in_range fd w.ctx.allowed_fds ≡ false))
              ⊎ Occurs (close fd) w.trace)))
unfolding fork_pre
fork_pre_lem env w v dir fd child opened done =
    let r =
      record_open_lem env (forked env w) v dir fd opened (fork_pre-opens env w v child done) in
    (r.0, ground (arith, r.1))

-- `fork_pre` is defined in the parent, where it only blocks SIGCHLD and forks, if the pointer to the
-- original `fork` is set.
pub fork_pre-parent :
    (env : Env) (w : World)
    → HasFork env w
    → is_child (forked env w).ctx ≡ false
    → fork_pre env w ≡ some (forked env w)
unfolding fork_pre
fork_pre-parent env w has parent = rw (has, parent) refl

-- In a child it is defined if that pointer is set, and /proc/self/fd opens on a descriptor below the
-- limit.
fork_pre-child :
    (env : Env) (w : World) (dir : Dir)
    → HasFork env w
    → is_child (forked env w).ctx ≡ true
    → env.directory (forked env w).trace proc_self_fd ≡ some dir
    → in_range dir.dirfd w.ctx.allowed_fds ≡ true
    → (v : World) × (fork_pre env w ≡ some v)
unfolding fork_pre
fork_pre-child env w dir has child opened within =
    rw (has, child) (record_open_defined env (forked env w) dir opened within)

-- A child that exempts nothing: whatever ran since the fork, `sanitize_fds` closes, of the
-- descriptors below the limit and other than its own streams, exactly those that it finds and the
-- fork did not.
pub fork-sanitize :
    (env : Env) (w v u u' : World) (before after : Dir) (fd : ℤ)
    → is_child (forked env w).ctx ≡ true
    → env.directory (forked env w).trace proc_self_fd ≡ some before
    → fork_pre env w ≡ some v
    → is_allowed fd w.ctx.allowed_fds ≡ false
    → u.ctx.allowed_fds ≡ v.ctx.allowed_fds
    → is_child u.ctx ≡ true
    → u.ctx.exempted_fds ≡ []
    → env.directory (exempt_all env u).trace proc_self_fd ≡ some after
    → sanitize_fds env u ≡ some u'
    → in_range fd w.ctx.allowed_fds ≡ true
    → before.dirfd ≢ fd
    → after.dirfd ≢ fd
    → Occurs (close fd) u'.trace
      ↔ ((Lists fd after.entries × ¬ Lists fd before.entries) ⊎ Occurs (close fd) u.trace)
fork-sanitize env w v u u' before after fd child opened done fresh same child' plain reopened done'
      within n1 n2 =
    ground (
      arith,
      (fork_pre_lem env w v before fd child opened done).0,
      sanitize_fds_lem env u u' after fd child' reopened done',
    )
