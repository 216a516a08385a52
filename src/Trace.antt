-- ===== src/Trace.antt =====
-- Traces that have grown by calls of one kind only. What such calls cannot change is the same
-- before and after, whatever code has made them.
use mathlib.Core.List.{append_assoc}
use zygisk_magisk_module.Prelude.{
  ◌≡◌, refl, sym, ap, subst, ◌∙◌, ◌↔◌, inl, inr, Bool, true, false, List, [], ◌∷◌, ◌++◌, All,
  All-append, Occurs,
}
use zygisk_magisk_module.World.{Call}

-- The second trace is the first with calls of a kind in front.
abbrev pub Grows : (Call → Bool) → List Call → List Call → Type 0
Grows kind t u = (new : List Call) × (u ≡ new ++ t) × All (λ c. kind c ≡ true) new

pub Grows-refl : (kind : Call → Bool) (t : List Call) → Grows kind t t
Grows-refl kind t = ([], refl, tt)

pub Grows-one :
    (kind : Call → Bool) (c : Call) (t : List Call) → kind c ≡ true → Grows kind t (c ∷ t)
Grows-one kind c t k = (c ∷ [], refl, (k, tt))

pub Grows-trans :
    (kind : Call → Bool) (t u v : List Call) → Grows kind t u → Grows kind u v → Grows kind t v
Grows-trans kind t u v (new, e, all) (more, e', all') = (
  more ++ new,
  e' ∙ ap (λ x. more ++ x) e ∙ sym (append_assoc more new t),
  All-append (λ c. kind c ≡ true) more new all' all,
)

-- A view of a trace that no call of the kind changes.
pub Grows-view {ℓ} :
    {A : Type ℓ} (kind : Call → Bool) (view : List Call → A)
    → ((c : Call) (t : List Call) → kind c ≡ true → view (c ∷ t) ≡ view t)
    → (t u : List Call) → Grows kind t u
    → view u ≡ view t
Grows-view kind view blind t u (new, e, all) = ap view e ∙ go new all
  where
    go : (new : List Call) → All (λ c. kind c ≡ true) new → view (new ++ t) ≡ view t
    go [] all = refl
    go (c ∷ new) (k, all) = blind c (new ++ t) k ∙ go new all

-- A call that is not of the kind was made before, if at all.
pub Grows-Occurs :
    (kind : Call → Bool) (c : Call) (t u : List Call)
    → kind c ≡ false
    → Grows kind t u
    → Occurs c u ↔ Occurs c t
Grows-Occurs kind c t u other (new, e, all) =
    (λ h. back new all (subst (Occurs c) e h), λ h. subst (Occurs c) (sym e) (front new h))
  where
    back : (new : List Call) → All (λ c. kind c ≡ true) new → Occurs c (new ++ t) → Occurs c t
    back [] all h = h
    back (d ∷ new) (k, all) (inl same) = absurd (cc)
    back (d ∷ new) (k, all) (inr h) = back new all h

    front : (new : List Call) → Occurs c t → Occurs c (new ++ t)
    front [] h = h
    front (d ∷ new) h = inr (front new h)
