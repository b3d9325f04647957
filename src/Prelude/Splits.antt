-- ===== src/Prelude/Splits.antt =====
-- A property of a branching value, from its branches. The test is written out, the branches are
-- read off the goal.
use Prim.Native.String.{String}
use mathlib.Core.Path.{◌≡◌, refl}
use mathlib.Core.Logic.{◌⊎◌, inl, inr}
use mathlib.Core.Bool.{Bool, true, false}
use mathlib.Core.Option.{Option, none, some}
use wireguard_natter_helper.Prelude.Tests.{if◌then◌else◌}
use wireguard_natter_helper.Prelude.Results.{Result, ok, err}

module _ {ℓ κ} {A : Type ℓ} (P : A → Type κ) where
  pub split_if :
      (b : Bool) {x y : A} → (b ≡ true → P x) → (b ≡ false → P y) → P (if b then x else y)
  split_if true p q = p refl
  split_if false p q = q refl

  pub split_option {μ} :
      {B : Type μ} (o : Option B) {x : A} {f : B → A}
      → (o ≡ none → P x)
      → ((b : B) → o ≡ some b → P (f b))
      → P (elim o [ none ↦ x | some b ↦ f b ])
  split_option none p q = p refl
  split_option (some b) p q = q b refl

  pub split_result {μ} :
      {B : Type μ} (r : Result B) {f : String → A} {g : B → A}
      → ((e : String) → r ≡ err e → P (f e))
      → ((b : B) → r ≡ ok b → P (g b))
      → P (elim r [ err e ↦ f e | ok b ↦ g b ])
  split_result (err e) p q = p e refl
  split_result (ok b) p q = q b refl

pub Result-cases {ℓ} :
    {A : Type ℓ} (r : Result A) → ((e : String) × (r ≡ err e)) ⊎ ((a : A) × (r ≡ ok a))
Result-cases (err e) = inl (e, refl)
Result-cases (ok a) = inr (a, refl)

-- Results of constructors that are equal, and of those that cannot be
pub some_inj : {A : Type 0} {a b : A} → some a ≡ some b → a ≡ b
some_inj e = cc

pub not_some : {X A : Type 0} {a : A} → none ≡ some a → X
not_some e = cc

pub ok_inj : {A : Type 0} {a b : A} → ok a ≡ ok b → a ≡ b
ok_inj e = cc

pub clash : {X : Type 0} → true ≡ false → X
clash e = cc

pub err-ne-ok : {X A : Type 0} {x : String} {a : A} → err x ≡ ok a → X
err-ne-ok e = cc
