-- ===== src/Ipc/Bytes/Reading.antt =====
-- What the two reading loops promise.
use zygisk_magisk_module.Prelude.{
  ℕ, zero, suc, ℤ, pos, minus_one, ◌+◌, ◌-◌, ◌≤◌, ◌<◌, ◌≡◌, ◌∙◌, refl, Option, none, some, List, [],
  ◌∷◌, ◌++◌, arith, length, length-append, length-take, Bool-cases, inl, inr, ◌⊎◌, ◌==◌,
}
use zygisk_magisk_module.World.{Call, read, ReadAnswer, Env, World}
use zygisk_magisk_module.Ipc.Bytes.{
  emit, retries, chunk_of, uninterrupted, xxread_round, xxread_loop, xxread, read_all_round,
  read_all_loop, read_all,
}

chunk_of-le :
    (a : ReadAnswer) (left : ℕ) (bs : List ℕ) → chunk_of a left ≡ some bs → length bs ≤ left
unfolding chunk_of
chunk_of-le a left bs e = go a.bytes e
  where
    go : (o : Option (List ℕ)) → chunk_of (record a { bytes = o }) left ≡ some bs → length bs ≤ left
    go none e = cc
    go (some cs) e = ground (arith, length-take left cs)

-- An error, or the length of what was read; and never more bytes than were asked for.
abbrev pub IsXxreadResult : ℕ → ℤ → List ℕ → Type 0
IsXxreadResult count ret got = ((ret ≡ minus_one) ⊎ (ret ≡ pos (length got))) × (length got ≤ count)

xxread_round_rule {ℓ} :
    (P : ℤ × List ℕ × World → Type ℓ) (o : Option (List ℕ)) (got : List ℕ) (w : World)
    (next : List ℕ → ℤ × List ℕ × World)
    → P (minus_one, got, w)
    → P (pos (length got), got, w)
    → ((bs : List ℕ) → o ≡ some bs → 0 < length bs → P (next bs))
    → P (xxread_round o got w next)
unfolding xxread_round
xxread_round_rule P none got w next failed ended more = failed
xxread_round_rule P (some []) got w next failed ended more = ended
xxread_round_rule P (some (b ∷ bs)) got w next failed ended more = more (b ∷ bs) refl (omega arith)

xxread_loop-result :
    (env : Env) (fuel : ℕ) (fd : ℤ) (left count : ℕ) (got : List ℕ) (w : World)
    → left ≤ fuel
    → length got + left ≡ count
    → let r = xxread_loop env fuel fd left got w in IsXxreadResult count r.0 r.1
unfolding xxread_loop
xxread_loop-result env zero fd left count got w f h = (inr refl, omega arith)
xxread_loop-result env (suc fuel) fd left count got w f h = elim (Bool-cases (left == 0)) [
  | inl e ↦ rw e (inr refl, omega arith)
  | inr e ↦ rw e (
      xxread_round_rule (λ r. IsXxreadResult count r.0 r.1) _ got _ _ (inl refl, omega arith)
        (inr refl, omega arith)
        λ bs read lt.
          xxread_loop-result env fuel fd (left - length bs) count (got ++ bs) _ (omega arith)
            (omega (arith, length-append got bs, chunk_of-le _ left bs read)))
]

-- `xxread` returns -1 or the number of bytes that it has put in the buffer, which is never more
-- than the buffer holds.
pub xxread_result :
    (env : Env) (fd : ℤ) (count : ℕ) (w : World)
    → let r = xxread env fd count w in IsXxreadResult count r.0 r.1
unfolding xxread
xxread_result env fd count w =
    xxread_loop-result env count fd count count [] w (omega arith) (omega arith)

uninterrupted-le :
    (a : ReadAnswer) (left : ℕ) (bs : List ℕ) → uninterrupted a left ≡ some bs → length bs ≤ left
unfolding uninterrupted
uninterrupted-le a left bs e = ground (arith, chunk_of-le a left bs)

read_all_round_rule {ℓ} :
    (P : Option (List ℕ) × World → Type ℓ) (o : Option (List ℕ)) (w : World)
    (next : List ℕ → Option (List ℕ) × World)
    → P (none, w)
    → ((bs : List ℕ) → o ≡ some bs → 0 < length bs → P (next bs))
    → P (read_all_round o w next)
unfolding read_all_round
read_all_round_rule P none w next failed more = failed
read_all_round_rule P (some []) w next failed more = failed
read_all_round_rule P (some (b ∷ bs)) w next failed more = more (b ∷ bs) refl (omega arith)

read_all_loop-length :
    (env : Env) (fuel : ℕ) (fd : ℤ) (left count : ℕ) (got : List ℕ) (w : World)
    → left ≤ fuel
    → length got + left ≡ count
    → (bs : List ℕ) → (read_all_loop env fuel fd left got w).0 ≡ some bs
    → length bs ≡ count
unfolding read_all_loop
read_all_loop-length env zero fd left count got w f h = λ bs e. ground arith
read_all_loop-length env (suc fuel) fd left count got w f h = elim (Bool-cases (left == 0)) [
  | inl e ↦ rw e (λ bs e'. ground arith)
  | inr e ↦ rw e (
      read_all_round_rule (λ r. (bs : List ℕ) → r.0 ≡ some bs → length bs ≡ count) _ _ _
        (λ bs e'. cc)
        λ bs read lt.
          read_all_loop-length env fuel fd (left - length bs) count (got ++ bs) _ (omega arith)
            (omega (arith, length-append got bs, uninterrupted-le _ left bs read)))
]

-- When `read_all` succeeds it has filled the whole buffer.
pub length-read_all :
    (env : Env) (fd : ℤ) (count : ℕ) (w : World) (bs : List ℕ)
    → (read_all env fd count w).0 ≡ some bs
    → length bs ≡ count
unfolding read_all
length-read_all env fd count w =
    read_all_loop-length env count fd count count [] w (omega arith) (omega arith)

-- Reading puts calls on the trace and changes nothing else.
abbrev pub SameState : World → World → Type 0
SameState w v =
    (v.g_sock ≡ w.g_sock)
    × (v.g_available ≡ w.g_available)
    × (v.g_hook ≡ w.g_hook)
    × (v.g_ctx ≡ w.g_ctx)
    × (v.ctx ≡ w.ctx)

read_all_loop-SameState :
    (env : Env) (fuel : ℕ) (fd : ℤ) (left : ℕ) (got : List ℕ) (w : World)
    → SameState w (read_all_loop env fuel fd left got w).1
unfolding read_all_loop
read_all_loop-SameState env zero fd left got w = (refl, refl, refl, refl, refl)
read_all_loop-SameState env (suc fuel) fd left got w = elim (Bool-cases (left == 0)) [
  | inl e ↦ rw e (refl, refl, refl, refl, refl)
  | inr e ↦ rw e (
      read_all_round_rule (λ r. SameState w r.1) _ _ _ (refl, refl, refl, refl, refl)
        λ bs read lt. read_all_loop-SameState env fuel fd (left - length bs) (got ++ bs) _)
]

pub read_all-SameState :
    (env : Env) (fd : ℤ) (count : ℕ) (w : World) → SameState w (read_all env fd count w).1
unfolding read_all
read_all-SameState env fd count w = read_all_loop-SameState env count fd count [] w

retries-SameState : (n : ℕ) (c : Call) (w : World) → SameState w (retries n c w)
unfolding retries
retries-SameState zero c w = (refl, refl, refl, refl, refl)
retries-SameState (suc n) c w = retries-SameState n c (emit c w)

xxread_loop-SameState :
    (env : Env) (fuel : ℕ) (fd : ℤ) (left : ℕ) (got : List ℕ) (w : World)
    → SameState w (xxread_loop env fuel fd left got w).2
unfolding xxread_loop
xxread_loop-SameState env zero fd left got w = (refl, refl, refl, refl, refl)
xxread_loop-SameState env (suc fuel) fd left got w =
    let once = retries-SameState (env.reading w.trace fd left).interrupted (read fd left) w in
    elim (Bool-cases (left == 0)) [
      | inl e ↦ rw e (refl, refl, refl, refl, refl)
      | inr e ↦ rw e (
          xxread_round_rule (λ r. SameState w r.2) _ got _ _ once once
            λ bs _ lt. ground (
              arith,
              once,
              xxread_loop-SameState env fuel fd (left - length bs) (got ++ bs) (
                  emit (read fd left)
                    (retries (env.reading w.trace fd left).interrupted (read fd left) w)),
            ))
    ]

pub xxread-SameState :
    (env : Env) (fd : ℤ) (count : ℕ) (w : World) → SameState w (xxread env fd count w).2
unfolding xxread
xxread-SameState env fd count w = xxread_loop-SameState env count fd count [] w

-- A view of the trace that no `read` changes is the same after `xxread`.
module _ {A : Type 0} (view : List Call → A) (fd : ℤ)
    (blind : (n : ℕ) (t : List Call) → view (read fd n ∷ t) ≡ view t) where
  view-retries : (n count : ℕ) (w : World) → view (retries n (read fd count) w).trace ≡ view w.trace
  unfolding retries
  view-retries zero count w = refl
  view-retries (suc n) count w = view-retries n count (emit (read fd count) w) ∙ blind count w.trace

  view-xxread_loop :
      (env : Env) (fuel left : ℕ) (got : List ℕ) (w : World)
      → view (xxread_loop env fuel fd left got w).2.trace ≡ view w.trace
  unfolding xxread_loop
  view-xxread_loop env zero left got w = refl
  view-xxread_loop env (suc fuel) left got w =
      let n = (env.reading w.trace fd left).interrupted in
      let again = retries n (read fd left) w in
      let once = blind left again.trace ∙ view-retries n left w in
      elim (Bool-cases (left == 0)) [
        | inl e ↦ rw e refl
        | inr e ↦ rw e (
            xxread_round_rule (λ r. view r.2.trace ≡ view w.trace) _ got _ _ once once
              λ bs _ lt. view-xxread_loop env fuel (left - length bs) (got ++ bs) _ ∙ once)
      ]

  pub view-xxread :
      (env : Env) (count : ℕ) (w : World) → view (xxread env fd count w).2.trace ≡ view w.trace
  unfolding xxread
  view-xxread env count w = view-xxread_loop env count count [] w
