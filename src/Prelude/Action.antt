-- ===== src/Prelude/Action.antt =====
-- Code that may throw and changes a state as it goes: what it has assigned before an exception stays.
use mathlib.Core.Path.{◌≡◌, refl, ap}
use native.Mathlib.Omega.{arith}
use libmediasoupclient.Prelude.Result.{Result, ok, err}

abbrev pub Action {ℓ κ} : Type ℓ → Type κ → Type (ℓ ⊔ κ)
Action S A = S → S × Result A

module _ {ℓ κ μ} {S : Type ℓ} {A : Type κ} {B : Type μ} where
  abbrev pub after : S × Result A → (A → Action S B) → S × Result B
  after (s, err e) next = (s, err e)
  after (s, ok a) next = next a s

  infixl 5 ◌>>=◌
  abbrev pub ◌>>=◌ : Action S A → (A → Action S B) → Action S B
  (m >>= next) s = after (m s) next

module _ {ℓ} {S : Type ℓ} where
  abbrev pub get : Action S S
  get s = (s, ok s)

  abbrev pub update : (S → S) → Action S (Unit {0})
  update change s = (change s, ok tt)

  abbrev pub lift {κ} : {A : Type κ} → Result A → Action S A
  lift m s = (s, m)

infixl 5 ◌>>◌
abbrev pub ◌>>◌ {ℓ κ} : {S : Type ℓ} {B : Type κ} → Action S (Unit {0}) → Action S B → Action S B
m >> next = m >>= λ _. next

-- A call that changes no state has returned, where the code after it has.
pub lift-eq-ok {ℓ κ μ} :
    {S : Type ℓ} {A : Type κ} {B : Type μ} (call : Result A) (next : A → Action S B) (s : S) {t : S}
    {b : B}
    → (lift call >>= next) s ≡ (t, ok b)
    → (a : A) × (call ≡ ok a) × (next a s ≡ (t, ok b))
lift-eq-ok (ok a) next s returns = (a, refl, returns)
lift-eq-ok {S = S} {B = B} (err e) next s {b = b} returns =
    absurd (ground (arith, ap (λ (x : S × Result B). x.1) returns))
