-- ===== src/Jni/RoundTrip/Writes.antt =====
-- Which entries of the listing the registration of a table changes.
use zygisk_magisk_module.Prelude.{
  ◌≡◌, ◌≢◌, refl, ◌∙◌, ◌↔◌, ◌⊎◌, inl, inr, true, false, some, List, [], ◌∷◌, Bool-cases,
  Option-cases, arith, All, Any,
}
use zygisk_magisk_module.World.{Text, NativeMethod}
use zygisk_magisk_module.Plt.Selection.{eq_text_iff}
use zygisk_magisk_module.Jni.Vm.{Shorty, has_key, writes, write_one, write_all}

pub has_key_iff :
    (name s : Text) (o : NativeMethod)
    → (has_key name s o ≡ true) ↔ ((o.name ≡ name) × (o.signature ≡ s))
has_key_iff name s o = ground (arith, eq_text_iff o.name name, eq_text_iff o.signature s)

-- The method has a function, the class knows it, and the entry is the one with its key.
abbrev pub Names : Shorty → NativeMethod → NativeMethod → Type 0
Names shorty m o =
    (m.fn ≢ 0)
    × ((s : Text) × (shorty m.name m.signature ≡ some s) × (o.name ≡ m.name) × (o.signature ≡ s))

pub writes→Names :
    (shorty : Shorty) (m o : NativeMethod) → writes shorty m o ≡ true → Names shorty m o
unfolding writes
writes→Names shorty m o h = elim (Option-cases (shorty m.name m.signature)) [
  | inl unknown ↦ absurd (ground (arith, unknown))
  | inr (s, known) ↦
      let (name, signature) = (has_key_iff m.name s o).0 (ground (arith, known)) in
      (ground (arith), (s, known, name, signature))
]

pub Names→writes :
    (shorty : Shorty) (m o : NativeMethod) → Names shorty m o → writes shorty m o ≡ true
unfolding writes
Names→writes shorty m o (given, (s, known, name, signature)) =
    let key = (has_key_iff m.name s o).1 (name, signature) in ground (arith, key, known)

pub write_all_lem :
    (shorty : Shorty) (Q : NativeMethod → Type 0) (ms : List NativeMethod) (o : NativeMethod)
    → All Q ms
    → let n = write_all shorty ms o in
      ((n.fn ≡ o.fn) × All (λ m. writes shorty m o ≡ false) ms)
      ⊎ Any (λ m. Q m × (writes shorty m o ≡ true) × (n.fn ≡ m.fn)) ms
unfolding write_all write_one writes
write_all_lem shorty Q [] o all = inl (refl, tt)
write_all_lem shorty Q (m ∷ ms) o (q, all) = elim (Bool-cases (writes shorty m o)) [
  | inl holds ↦ (elim (write_all_lem shorty Q ms (write_one shorty m o) all) [
    | inl (e, rest) ↦ inr (inl (q, holds, e ∙ rw holds refl))
    | inr there ↦ inr (inr there)
  ])
  | inr fails ↦ (elim (write_all_lem shorty Q ms (write_one shorty m o) all) [
    | inl (e, rest) ↦ inl (e ∙ rw fails refl, (fails, rest))
    | inr there ↦ inr (inr there)
  ])
]

pub write_all-keeps :
    (shorty : Shorty) (ms : List NativeMethod) (o : NativeMethod)
    → write_all shorty ms o ≡ record o { fn = (write_all shorty ms o).fn }
unfolding write_all write_one
write_all-keeps shorty [] o = refl
write_all-keeps shorty (m ∷ ms) o = write_all-keeps shorty ms (write_one shorty m o)
