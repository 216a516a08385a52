-- ===== src/Ipc/Bytes/Stream/Xxread.antt =====
-- `xxread` on a stream whose bytes come in pieces of any size.
use zygisk_magisk_module.Prelude.{
  ℕ, zero, suc, ℤ, pos, ◌+◌, ◌-◌, ◌≤◌, ◌≡◌, ◌≢◌, ◌∙◌, refl, sym, ap, subst, none, some, List, [],
  ◌∷◌, ◌++◌, arith, length, take, drop, length-append, take-append, drop-append, take-all, take-nil,
  append-nil, append_assoc, ==_cases, inl, inr, ◌⊎◌,
}
use zygisk_magisk_module.World.{Call, read, ReadAnswer, Env, World}
use zygisk_magisk_module.Ipc.Bytes.{emit, retries, chunk_of, xxread_round, xxread_loop, xxread}
use zygisk_magisk_module.Ipc.Bytes.Stream.{IsStream, shrinks, List-cases}

-- The loop of `xxread`: what comes is got, as far as it is wanted.
abbrev IsXxread :
    (List Call → Type 0) → List ℕ → ℕ → List ℕ → (List Call → List ℕ) → ℤ × List ℕ × World → Type 0
IsXxread IsLive got left coming rest r =
    (r.1 ≡ got ++ take left coming)
    × (left ≤ length coming
        → (r.0 ≡ pos (length got + left)) × (rest r.2.trace ≡ drop left coming) × IsLive r.2.trace)

IsXxread-ready :
    (IsLive : List Call → Type 0) (got coming : List ℕ) (rest : List Call → List ℕ) (w : World)
    → rest w.trace ≡ coming
    → IsLive w.trace
    → IsXxread IsLive got 0 coming rest (pos (length got), got, w)
IsXxread-ready IsLive got coming rest w same live =
    (sym (append-nil got), λ enough. (ap pos (omega arith), same, live))

IsXxread-over :
    (IsLive : List Call → Type 0) (got : List ℕ) (left : ℕ) (rest : List Call → List ℕ)
    (r : ℤ × List ℕ × World)
    → left ≢ 0
    → r.1 ≡ got
    → IsXxread IsLive got left [] rest r
IsXxread-over IsLive got left rest r more kept = (
  kept ∙ sym (append-nil got) ∙ ap (λ x. got ++ x) (sym (take-nil left)),
  λ enough. absurd (more (omega arith)),
)

IsXxread-chunk :
    (IsLive : List Call → Type 0) (got bs : List ℕ) (left : ℕ) (coming : List ℕ)
    (rest : List Call → List ℕ) (r : ℤ × List ℕ × World)
    → length bs ≤ left
    → IsXxread IsLive (got ++ bs) (left - length bs) coming rest r
    → IsXxread IsLive got left (bs ++ coming) rest r
IsXxread-chunk IsLive got bs left coming rest r fits (got', enough) = (
  got'
      ∙ append_assoc got bs (take (left - length bs) coming)
      ∙ ap (λ x. got ++ x) (sym (take-append left bs coming fits)),
  λ h.
      let (ret, rest', live) = enough (omega (arith, length-append bs coming)) in
      (
        ret ∙ ap pos (omega (arith, length-append got bs)),
        rest' ∙ sym (drop-append left bs coming fits),
        live,
      ),
)

xxread_round-some :
    (bs got : List ℕ) (w : World) (next : List ℕ → ℤ × List ℕ × World)
    → bs ≢ []
    → xxread_round (some bs) got w next ≡ next bs
unfolding xxread_round
xxread_round-some [] got w next given = absurd (given refl)
xxread_round-some (b ∷ bs) got w next given = refl

xxread_round-over :
    (a : ReadAnswer) (left : ℕ) (got : List ℕ) (w : World) (next : List ℕ → ℤ × List ℕ × World)
    → (a.bytes ≡ none) ⊎ (a.bytes ≡ some [])
    → (xxread_round (chunk_of a left) got w next).1 ≡ got
unfolding xxread_round chunk_of
xxread_round-over a left got w next (inl failed) = ground (arith, failed)
xxread_round-over a left got w next (inr ended) = ground (arith, ended, take-nil {A = ℕ} left)

chunk_of-some :
    (bs : List ℕ) (left : ℕ)
    → length bs ≤ left
    → chunk_of (record { interrupted = 0; bytes = some bs }) left ≡ some bs
unfolding chunk_of
chunk_of-some bs left fits = ap some (take-all left bs fits)

xxread_loop-IsXxread :
    (env : Env) (fd : ℤ) (IsLive : List Call → Type 0) (rest : List Call → List ℕ)
    (stream : IsStream env fd IsLive rest) (fuel left : ℕ) (got : List ℕ) (w : World)
    → left ≤ fuel
    → IsLive w.trace
    → IsXxread IsLive got left (rest w.trace) rest (xxread_loop env fuel fd left got w)
unfolding xxread_loop retries
xxread_loop-IsXxread env fd IsLive rest stream zero left got w f live =
    subst (λ n. IsXxread IsLive got n (rest w.trace) rest (pos (length got), got, w)) (omega arith)
      (IsXxread-ready IsLive got _ rest w refl live)
xxread_loop-IsXxread env fd IsLive rest stream (suc fuel) left got w f live =
    elim (==_cases left 0) [
      | inl (test, e) ↦ rw test (
          subst (λ n. IsXxread IsLive got n (rest w.trace) rest (pos (length got), got, w)) (sym e)
            (IsXxread-ready IsLive got _ rest w refl live))
      | inr (test, more) ↦
          let after : ReadAnswer → World =
            λ a. emit (read fd left) (retries a.interrupted (read fd left) w) in
          let next : World → List ℕ → ℤ × List ℕ × World =
            λ v bs. xxread_loop env fuel fd (left - length bs) (got ++ bs) v in
          let at : ReadAnswer → ℤ × List ℕ × World =
            λ a. xxread_round (chunk_of a left) got (after a) (next (after a)) in
          let a = env.reading w.trace fd left in
          let taken : IsXxread IsLive got left (rest w.trace) rest (at a) =
            (elim (List-cases (rest w.trace)) [
              | inl over ↦
                  subst (λ c. IsXxread IsLive got left c rest (at a)) (sym over)
                    (IsXxread-over IsLive got left rest (at a) more (
                      xxread_round-over a left got (after a) (next (after a))
                        (stream.ended w.trace left live over)))
              | inr coming ↦
                  let (bs, answer, given, fits, split) =
                    stream.chunk w.trace left live more coming in
                  let w' = emit (read fd left) w in
                  let same : at a ≡ next w' bs =
                    ap at answer
                    ∙ ap (λ o. xxread_round o got w' (next w')) (chunk_of-some bs left fits)
                    ∙ xxread_round-some bs got w' (next w') given in
                  subst (λ c. IsXxread IsLive got left c rest (at a)) (sym split)
                    (subst (IsXxread IsLive got left (bs ++ rest w'.trace) rest) (sym same) (
                      IsXxread-chunk IsLive got bs left (rest w'.trace) rest (next w' bs) fits (
                        xxread_loop-IsXxread env fd IsLive rest stream fuel (left - length bs)
                          (got ++ bs) w' (shrinks bs left fuel given more f)
                          (stream.stays w.trace left live))))
            ]) in
          rw test taken
    ]

-- On a live stream, `xxread` puts in the buffer what comes, as far as it fits.
pub xxread-take :
    (env : Env) (fd : ℤ) (IsLive : List Call → Type 0) (rest : List Call → List ℕ) (count : ℕ)
    (w : World)
    → IsStream env fd IsLive rest
    → IsLive w.trace
    → let coming = rest w.trace in
      let r = xxread env fd count w in
      (r.1 ≡ take count coming)
      × (count ≤ length coming
          → (r.0 ≡ pos count) × (rest r.2.trace ≡ drop count coming) × IsLive r.2.trace)
unfolding xxread
xxread-take env fd IsLive rest count w stream live =
    let (got, enough) =
      xxread_loop-IsXxread env fd IsLive rest stream count count [] w (omega arith) live in
    (got, λ fits. ((enough fits).0 ∙ ap pos (omega arith), (enough fits).1, (enough fits).2))
