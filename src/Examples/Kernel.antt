-- ===== src/Examples/Kernel.antt =====
-- A kernel that delivers at once what the daemon has written, as far as a read has room for it.
use zygisk_magisk_module.Prelude.{
  ℕ, zero, suc, ℤ, pos, eq_ℤ, ◌+◌, ◌≡◌, ◌≢◌, refl, sym, ap, ◌∙◌, inr, none, some, List, [], ◌∷◌,
  ◌++◌, length, take, drop, length-take, take-append-drop, take-nil, if◌then◌else◌, arith,
}
use zygisk_magisk_module.World.{text, Call, connect, read, Env}
use zygisk_magisk_module.Plt.{eq_text}
use zygisk_magisk_module.Ipc.Connect.Session.{sent, received, eq_ℤ-refl}
use zygisk_magisk_module.Daemon.Process.{Files}
use zygisk_magisk_module.Daemon.{respond}
use zygisk_magisk_module.Daemon.Conversation.{to_come, IsServed}
use zygisk_magisk_module.Examples.{phone}

-- The status file of process 77.
abbrev pub files : Files
files path =
    if eq_text path (text "/proc/77/status")
    then some (text "Name:\tapp_process64\nUid:\t10001\t10001\t10001\t10001\n")
    else none

abbrev response : ℤ → List Call → List ℕ
response fd t = respond files (take 8 (sent fd t))

-- How much the kernel has delivered.
unfoldable pub delivered : ℤ → List Call → ℕ
delivered fd [] = 0
delivered fd (connect f ∷ t) = let rest = delivered fd t in if eq_ℤ f fd then 0 else rest
delivered fd (read f n ∷ t) =
    let rest = delivered fd t in
    let more = length (take n (drop (delivered f t) (response f t))) in
    if eq_ℤ f fd then rest + more else rest
delivered fd (c ∷ t) = delivered fd t

abbrev pub kernel : Env
kernel = record (phone (pos 0) 1) {
  reading = λ t fd n. record {
    interrupted = 0;
    bytes = some (take n (drop (delivered fd t) (response fd t)));
  };
}

received-delivered : (fd : ℤ) (t : List Call) → received kernel fd t ≡ delivered fd t
unfolding received delivered
received-delivered fd [] = refl
received-delivered fd (connect f ∷ t) = rw (received-delivered fd t) refl
received-delivered fd (read f n ∷ t) = rw (received-delivered fd t) refl
received-delivered fd (c ∷ t) = received-delivered fd t

drop-length-take : (n : ℕ) (xs : List ℕ) → drop (length (take n xs)) xs ≡ drop n xs
drop-length-take zero xs = refl
drop-length-take (suc n) [] = refl
drop-length-take (suc n) (x ∷ xs) = drop-length-take n xs

drop-drop : (k m : ℕ) (xs : List ℕ) → drop (k + m) xs ≡ drop m (drop k xs)
drop-drop zero m xs = ap (λ j. drop j xs) (omega arith)
drop-drop (suc k) zero xs = let e : suc k + 0 ≡ suc k = omega arith in ap (λ j. drop j xs) e
drop-drop (suc k) (suc m) [] =
    let e : suc k + suc m ≡ suc (k + suc m) = omega arith in ap (λ j. drop {A = ℕ} j []) e
drop-drop (suc k) (suc m) (x ∷ xs) =
    let e : suc k + suc m ≡ suc (k + suc m) = omega arith in
    ap (λ j. drop j (x ∷ xs)) e ∙ drop-drop k (suc m) xs

take-given : (n : ℕ) (xs : List ℕ) → n ≢ 0 → xs ≢ [] → take n xs ≢ []
take-given zero xs more given = absurd (more refl)
take-given (suc n) [] more given = absurd (given refl)
take-given (suc n) (x ∷ xs) more given = λ e. cc

to_come-delivered :
    (fd : ℤ) (t : List Call) → to_come kernel files fd t ≡ drop (delivered fd t) (response fd t)
unfolding to_come
to_come-delivered fd t = ap (λ k. drop k (response fd t)) (received-delivered fd t)

to_come-read :
    (fd : ℤ) (t : List Call) (n : ℕ)
    → to_come kernel files fd (read fd n ∷ t) ≡ drop n (drop (delivered fd t) (response fd t))
unfolding delivered sent
to_come-read fd t n =
    let left = drop (delivered fd t) (response fd t) in
    let more : delivered fd (read fd n ∷ t) ≡ delivered fd t + length (take n left) =
      rw (eq_ℤ-refl fd) refl in
    to_come-delivered fd (read fd n ∷ t)
    ∙ ap (λ k. drop k (response fd t)) more
    ∙ drop-drop (delivered fd t) (length (take n left)) (response fd t)
    ∙ drop-length-take n left

pub kernel-IsServed : (fd : ℤ) → IsServed kernel files fd
unfolding sent
kernel-IsServed fd = record {
  stays = λ t n asked. asked;
  chunk = λ t n asked more coming.
      let left = drop (delivered fd t) (response fd t) in
      (
        take n left,
        refl,
        take-given n left more (λ e. coming (to_come-delivered fd t ∙ e)),
        omega (arith, length-take n left),
        to_come-delivered fd t
            ∙ sym (take-append-drop n left)
            ∙ ap (λ x. take n left ++ x) (sym (to_come-read fd t n)),
      );
  ended = λ t n asked over.
      inr (ap (λ x. some (take n x)) (sym (to_come-delivered fd t) ∙ over) ∙ ap some (take-nil n));
}
