-- ===== src/Fds/Sanitize.antt =====
-- Which descriptors `sanitize_fds` closes, and what it does for the exempted ones.
use zygisk_magisk_module.Prelude.{
  ℕ, zero, suc, ℤ, pos, negsuc, eq_ℤ, eq_ℤ_iff, ◌≡◌, ◌≢◌, refl, ◌↔◌, ◌⊎◌, inl, inr, Bool, true,
  false, ◌&&◌, Option, none, some, List, [], ◌∷◌, arith, length, set, get_or, ltb, ◌==◌,
  if◌then◌else◌, Any, Occurs, length-set, Bool-cases,
}
use zygisk_magisk_module.World.{Call, close, opendir, Dirent, Dir, Env, Args, Context, World}
use zygisk_magisk_module.Plt.{is_empty}
use zygisk_magisk_module.Fds.{
  parse_int, is_child, fds_to_ignore, can_exempt_fd, in_range, is_allowed, assign, allow_all,
  update_fds, exempt_all, proc_self_fd, is_unwanted, close_unwanted, close_listed, sanitize_fds,
}

get_or-set :
    (xs : List Bool) (i j : ℕ) (b : Bool)
    → get_or (set xs i b) j false ≡ (if (i == j) && ltb i (length xs) then b else get_or xs j false)
get_or-set [] i j b = ground arith
get_or-set (x ∷ xs) zero zero b = ground arith
get_or-set (x ∷ xs) zero (suc j) b = ground arith
get_or-set (x ∷ xs) (suc i) zero b = ground arith
get_or-set (x ∷ xs) (suc i) (suc j) b = ground (arith, get_or-set xs i j b)

pub is_allowed-assign :
    (g fd : ℤ) (b : Bool) (a : List Bool)
    → is_allowed fd (assign g b a) ≡ (if eq_ℤ g fd && in_range g a then b else is_allowed fd a)
is_allowed-assign (pos m) (pos n) b a = get_or-set a m n b
is_allowed-assign (pos m) (negsuc n) b a = refl
is_allowed-assign (negsuc m) (pos n) b a = refl
is_allowed-assign (negsuc m) (negsuc n) b a = ground arith

pub in_range-assign :
    (g fd : ℤ) (b : Bool) (a : List Bool) → in_range fd (assign g b a) ≡ in_range fd a
in_range-assign (pos m) (pos n) b a = rw (length-set a m b)
in_range-assign (pos m) (negsuc n) b a = refl
in_range-assign (negsuc m) fd b a = refl

in_range-allow_all :
    (fds : List ℤ) (fd : ℤ) (a : List Bool) → in_range fd (allow_all fds a) ≡ in_range fd a
unfolding allow_all
in_range-allow_all [] fd a = refl
in_range-allow_all (g ∷ fds) fd a = ground (
  arith,
  in_range-assign g fd true a,
  in_range-allow_all fds fd a,
  in_range-allow_all fds fd (assign g true a),
)

-- The loop allows the descriptors of its list that are in range, and no other.
is_allowed-allow_all :
    (fds : List ℤ) (fd : ℤ) (a : List Bool)
    → (is_allowed fd (allow_all fds a) ≡ true)
      ↔ ((Occurs fd fds × (in_range fd a ≡ true)) ⊎ (is_allowed fd a ≡ true))
unfolding allow_all
is_allowed-allow_all [] fd a = ground arith
is_allowed-allow_all (g ∷ fds) fd a = ground (
  arith,
  eq_ℤ_iff g fd,
  is_allowed-assign g fd true a,
  in_range-assign g fd true a,
  is_allowed-allow_all fds fd a,
  is_allowed-allow_all fds fd (assign g true a),
)

-- A directory lists a descriptor.
abbrev pub Lists : ℤ → List Dirent → Type 0
Lists fd = Any (λ e. parse_int e.name ≡ fd)

close_unwanted-Occurs :
    (dfd : ℤ) (allowed : List Bool) (fd : ℤ) (es : List Dirent) (t : List Call)
    → Occurs (close fd) (close_unwanted dfd allowed es t)
      ↔ ((Lists fd es × (is_unwanted dfd allowed fd ≡ true)) ⊎ Occurs (close fd) t)
unfolding close_unwanted
close_unwanted-Occurs dfd allowed fd [] t = ground arith
close_unwanted-Occurs dfd allowed fd (e ∷ es) t =
    elim (Bool-cases (is_unwanted dfd allowed (parse_int e.name))) [
      | inl closed ↦
          rw closed
            (ground (arith, close_unwanted-Occurs dfd allowed fd es (close (parse_int e.name) ∷ t)))
      | inr kept ↦ rw kept (ground (arith, close_unwanted-Occurs dfd allowed fd es t))
    ]

pub is_allowed-in_range : (fd : ℤ) (a : List Bool) → is_allowed fd a ≡ true → in_range fd a ≡ true
is_allowed-in_range (negsuc n) a h = cc
is_allowed-in_range (pos n) a h = go a n h
  where
    go : (a : List Bool) (n : ℕ) → get_or a n false ≡ true → ltb n (length a) ≡ true
    go [] n h = cc
    go (x ∷ a) zero h = ground arith
    go (x ∷ a) (suc n) h = go' n a (go a n h)
      where
        go' :
            (n : ℕ) (a : List Bool) → ltb n (length a) ≡ true → ltb (suc n) (suc (length a)) ≡ true
        go' n a h = ground arith

-- The descriptors of the array that the Java side asked to ignore.
abbrev pub ignored : Args → List ℤ
ignored args = elim (fds_to_ignore args) [
  | none ↦ []
  | some arr ↦ elim arr [ none ↦ [] | some fds ↦ fds ]
]

-- An exempted descriptor, or one in the array that was passed in, when there is something exempted.
abbrev pub IsExempt : Env → World → ℤ → Type 0
IsExempt env w fd =
    (in_range fd w.ctx.allowed_fds ≡ true)
    × (can_exempt_fd w.ctx ≡ true)
    × (is_empty w.ctx.exempted_fds ≡ false)
    × (Occurs fd (ignored w.ctx.args)
        ⊎ ((env.allocates w.trace ≡ true) × Occurs fd w.ctx.exempted_fds))

-- What survives: a descriptor that was allowed, or is exempt.
abbrev pub IsKept : Env → World → ℤ → Type 0
IsKept env w fd = (is_allowed fd w.ctx.allowed_fds ≡ true) ⊎ IsExempt env w fd

pub can_exempt_fd-none : (c : Context) → fds_to_ignore c.args ≡ none → can_exempt_fd c ≡ false
unfolding can_exempt_fd
can_exempt_fd-none c e = rw e (ground arith)

exempt_all-allowed :
    (env : Env) (w : World) (fd : ℤ) (o : Option (Option (List ℤ)))
    → fds_to_ignore w.ctx.args ≡ o
    → (is_allowed fd (exempt_all env w).ctx.allowed_fds ≡ true) ↔ IsKept env w fd
unfolding exempt_all update_fds
exempt_all-allowed env w fd none e = ground (arith, can_exempt_fd-none w.ctx e)
exempt_all-allowed env w fd (some none) e =
    ground (arith, is_allowed-allow_all w.ctx.exempted_fds fd w.ctx.allowed_fds)
exempt_all-allowed env w fd (some (some old)) e = ground (
  arith,
  is_allowed-allow_all old fd w.ctx.allowed_fds,
  in_range-allow_all old fd w.ctx.allowed_fds,
  is_allowed-allow_all w.ctx.exempted_fds fd (allow_all old w.ctx.allowed_fds),
  is_allowed-allow_all w.ctx.exempted_fds fd w.ctx.allowed_fds,
)

exempt_all-trace :
    (env : Env) (w : World) (fd : ℤ)
    → Occurs (close fd) (exempt_all env w).trace ↔ Occurs (close fd) w.trace
unfolding exempt_all update_fds
exempt_all-trace env w fd = ground arith

close_listed-Occurs :
    (env : Env) (w : World) (dir : Dir) (fd : ℤ)
    → env.directory w.trace proc_self_fd ≡ some dir
    → (v : World) → close_listed env w ≡ some v
    → Occurs (close fd) v.trace ↔ (
        (dir.dirfd ≡ fd)
        ⊎ ((Lists fd dir.entries × (is_unwanted dir.dirfd w.ctx.allowed_fds fd ≡ true))
            ⊎ Occurs (close fd) w.trace))
unfolding close_listed
close_listed-Occurs env w dir fd e v done = ground (
  arith,
  close_unwanted-Occurs dir.dirfd w.ctx.allowed_fds fd dir.entries (opendir proc_self_fd ∷ w.trace),
)

is_unwanted_iff :
    (dfd fd : ℤ) (a : List Bool)
    → (is_unwanted dfd a fd ≡ true) ↔ ((dfd ≢ fd) × ¬ (is_allowed fd a ≡ true))
unfolding is_unwanted
is_unwanted_iff dfd fd a = ground (arith, eq_ℤ_iff fd dfd, is_allowed-in_range fd a)

-- In a child, `sanitize_fds` closes a descriptor exactly if /proc/self/fd lists it and it was
-- neither allowed nor exempt, or it is the stream's own; earlier closes stay on the trace.
pub sanitize_fds_lem :
    (env : Env) (w v : World) (dir : Dir) (fd : ℤ)
    → is_child w.ctx ≡ true
    → env.directory (exempt_all env w).trace proc_self_fd ≡ some dir
    → sanitize_fds env w ≡ some v
    → Occurs (close fd) v.trace ↔ (
        (dir.dirfd ≡ fd)
        ⊎ ((Lists fd dir.entries × (dir.dirfd ≢ fd) × ¬ IsKept env w fd)
            ⊎ Occurs (close fd) w.trace))
unfolding sanitize_fds
sanitize_fds_lem env w v dir fd child opened done =
    let closed = close_listed-Occurs env (exempt_all env w) dir fd opened v (ground arith) in
    ground (
      arith,
      closed,
      is_unwanted_iff dir.dirfd fd (exempt_all env w).ctx.allowed_fds,
      exempt_all-allowed env w fd (fds_to_ignore w.ctx.args) refl,
      exempt_all-trace env w fd,
    )
