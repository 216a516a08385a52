-- ===== src/Ipc/Bytes/Stream.antt =====
-- `read_all` on a stream whose bytes come in pieces of any size.
pub mod Xxread
use zygisk_magisk_module.Prelude.{
  ℕ, zero, suc, ℤ, pos, ◌+◌, ◌-◌, ◌≤◌, ◌<◌, ◌≡◌, ◌≢◌, ◌∙◌, refl, sym, ap, subst, Option, none, some,
  List, [], ◌∷◌, ◌++◌, arith, length, take, drop, length-append, take-append, drop-append, take-all,
  take-nil, append-nil, append_assoc, leb, leb→le, Bool-cases, ==_cases, inl, inr, ◌⊎◌,
  if◌then◌else◌,
}
use zygisk_magisk_module.World.{Call, read, ReadAnswer, Env, World}
use zygisk_magisk_module.Ipc.Bytes.{
  emit, retries, chunk_of, uninterrupted, xxread_round, xxread_loop, xxread, read_all_round,
  read_all_loop, read_all,
}

-- While the stream is live, `rest` is what is still to come: a read gives some of it, at most what is
-- asked for, and at the end nothing, or an error. No signal interrupts it.
pub record IsStream (env : Env) (fd : ℤ) (IsLive : List Call → Type 0) (rest : List Call → List ℕ)
    : Type 0 where
  pub stays : (t : List Call) (n : ℕ) → IsLive t → IsLive (read fd n ∷ t)
  pub chunk :
      (t : List Call) (n : ℕ)
      → IsLive t
      → n ≢ 0
      → rest t ≢ []
      → (bs : List ℕ) × (env.reading t fd n ≡ record { interrupted = 0; bytes = some bs })
        × (bs ≢ [])
        × (length bs ≤ n)
        × (rest t ≡ bs ++ rest (read fd n ∷ t))
  pub ended :
      (t : List Call) (n : ℕ)
      → IsLive t
      → rest t ≡ []
      → ((env.reading t fd n).bytes ≡ none) ⊎ ((env.reading t fd n).bytes ≡ some [])

pub List-cases : (bs : List ℕ) → (bs ≡ []) ⊎ (bs ≢ [])
List-cases [] = inl refl
List-cases (b ∷ cs) = inr (λ e. cc)

pub shrinks :
    (bs : List ℕ) (left fuel : ℕ) → bs ≢ [] → left ≢ 0 → left ≤ suc fuel → left - length bs ≤ fuel
shrinks [] left fuel given more f = absurd (given refl)
shrinks (b ∷ bs) left fuel given more f = omega arith

-- With all the bytes to come, they are got, and those after them stay; with fewer, it is a failure.
abbrev IsRead :
    (List Call → Type 0)
    → List ℕ
    → ℕ
    → List ℕ
    → (List Call → List ℕ)
    → Option (List ℕ) × World
    → Type 0
IsRead IsLive got left coming rest r =
    (left ≤ length coming
      → (r.0 ≡ some (got ++ take left coming))
        × (rest r.1.trace ≡ drop left coming)
        × IsLive r.1.trace)
    × (length coming < left → r.0 ≡ none)

IsRead-ready :
    (IsLive : List Call → Type 0) (got coming : List ℕ) (rest : List Call → List ℕ) (w : World)
    → rest w.trace ≡ coming
    → IsLive w.trace
    → IsRead IsLive got 0 coming rest (some got, w)
IsRead-ready IsLive got coming rest w same live =
    (λ enough. (ap some (sym (append-nil got)), same, live), λ short. absurd (omega arith))

IsRead-over :
    (IsLive : List Call → Type 0) (got : List ℕ) (left : ℕ) (rest : List Call → List ℕ)
    (r : Option (List ℕ) × World)
    → left ≢ 0
    → r.0 ≡ none
    → IsRead IsLive got left [] rest r
IsRead-over IsLive got left rest r more failed =
    (λ enough. absurd (more (omega arith)), λ short. failed)

IsRead-chunk :
    (IsLive : List Call → Type 0) (got bs : List ℕ) (left : ℕ) (coming : List ℕ)
    (rest : List Call → List ℕ) (r : Option (List ℕ) × World)
    → length bs ≤ left
    → IsRead IsLive (got ++ bs) (left - length bs) coming rest r
    → IsRead IsLive got left (bs ++ coming) rest r
IsRead-chunk IsLive got bs left coming rest r fits (enough, short) = (
  λ h.
      let (got', rest', live) = enough (omega (arith, length-append bs coming)) in
      (
        got'
            ∙ ap some (
                append_assoc got bs (take (left - length bs) coming)
                ∙ ap (λ x. got ++ x) (sym (take-append left bs coming fits))),
        rest' ∙ sym (drop-append left bs coming fits),
        live,
      ),
  λ h. short (omega (arith, length-append bs coming)),
)

read_all_round-some :
    (bs : List ℕ) (w : World) (next : List ℕ → Option (List ℕ) × World)
    → bs ≢ []
    → read_all_round (some bs) w next ≡ next bs
unfolding read_all_round
read_all_round-some [] w next given = absurd (given refl)
read_all_round-some (b ∷ bs) w next given = refl

uninterrupted-some :
    (bs : List ℕ) (left : ℕ)
    → length bs ≤ left
    → uninterrupted (record { interrupted = 0; bytes = some bs }) left ≡ some bs
unfolding uninterrupted chunk_of
uninterrupted-some bs left fits = ap some (take-all left bs fits)

-- A read that gives nothing ends the loop.
read_all_round-over :
    (a : ReadAnswer) (left : ℕ) (w : World) (next : List ℕ → Option (List ℕ) × World)
    → (a.bytes ≡ none) ⊎ (a.bytes ≡ some [])
    → (read_all_round (uninterrupted a left) w next).0 ≡ none
unfolding read_all_round uninterrupted chunk_of
read_all_round-over a left w next (inl failed) = ground (arith, failed)
read_all_round-over a left w next (inr ended) = ground (arith, ended, take-nil {A = ℕ} left)

read_all_loop-IsRead :
    (env : Env) (fd : ℤ) (IsLive : List Call → Type 0) (rest : List Call → List ℕ)
    (stream : IsStream env fd IsLive rest) (fuel left : ℕ) (got : List ℕ) (w : World)
    → left ≤ fuel
    → IsLive w.trace
    → IsRead IsLive got left (rest w.trace) rest (read_all_loop env fuel fd left got w)
unfolding read_all_loop
read_all_loop-IsRead env fd IsLive rest stream zero left got w f live =
    subst (λ n. IsRead IsLive got n (rest w.trace) rest (some got, w)) (omega arith)
      (IsRead-ready IsLive got _ rest w refl live)
read_all_loop-IsRead env fd IsLive rest stream (suc fuel) left got w f live =
    elim (==_cases left 0) [
      | inl (test, e) ↦ rw test (
          subst (λ n. IsRead IsLive got n (rest w.trace) rest (some got, w)) (sym e)
            (IsRead-ready IsLive got _ rest w refl live))
      | inr (test, more) ↦
          let w' = emit (read fd left) w in
          let next : List ℕ → Option (List ℕ) × World =
            λ bs. read_all_loop env fuel fd (left - length bs) (got ++ bs) w' in
          let round = read_all_round (uninterrupted (env.reading w.trace fd left) left) w' next in
          let taken : IsRead IsLive got left (rest w.trace) rest round =
            (elim (List-cases (rest w.trace)) [
              | inl over ↦
                  subst (λ c. IsRead IsLive got left c rest round) (sym over)
                    (IsRead-over IsLive got left rest round more (
                      read_all_round-over (env.reading w.trace fd left) left w' next
                        (stream.ended w.trace left live over)))
              | inr coming ↦
                  let (bs, answer, given, fits, split) =
                    stream.chunk w.trace left live more coming in
                  let same : round ≡ next bs =
                    ap (λ a. read_all_round (uninterrupted a left) w' next) answer
                    ∙ ap (λ o. read_all_round o w' next) (uninterrupted-some bs left fits)
                    ∙ read_all_round-some bs w' next given in
                  subst (λ c. IsRead IsLive got left c rest round) (sym split)
                    (subst (IsRead IsLive got left (bs ++ rest w'.trace) rest) (sym same) (
                      IsRead-chunk IsLive got bs left (rest w'.trace) rest (next bs) fits (
                        read_all_loop-IsRead env fd IsLive rest stream fuel (left - length bs)
                          (got ++ bs) w' (shrinks bs left fuel given more f)
                          (stream.stays w.trace left live))))
            ]) in
          rw test taken
    ]

-- On a live stream, `read_all` is `take`, whatever the sizes of the pieces in which the bytes come: it
-- gives the next `count` bytes and leaves those after them to come, or fails if there are not as
-- many.
pub read_all-take :
    (env : Env) (fd : ℤ) (IsLive : List Call → Type 0) (rest : List Call → List ℕ) (count : ℕ)
    (w : World)
    → IsStream env fd IsLive rest
    → IsLive w.trace
    → let coming = rest w.trace in
      let r = read_all env fd count w in
      (r.0 ≡ (if leb count (length coming) then some (take count coming) else none))
      × (count ≤ length coming → (rest r.1.trace ≡ drop count coming) × IsLive r.1.trace)
unfolding read_all
read_all-take env fd IsLive rest count w stream live =
    let (enough, short) =
      read_all_loop-IsRead env fd IsLive rest stream count count [] w (omega arith) live in
    (
      elim (Bool-cases (leb count (length (rest w.trace)))) [
        | inl fits ↦ rw fits (enough (leb→le _ _ fits)).0
        | inr fails ↦ rw fails (short (ground arith))
      ],
      λ fits. ((enough fits).1, (enough fits).2),
    )
