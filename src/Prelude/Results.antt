-- ===== src/Prelude/Results.antt =====
-- Go's results that come with an error.
use mathlib.Core.Path.{◌≡◌, refl, sym, subst, ap}
use mathlib.Core.Logic.{◌⊎◌, ◌↔◌, inl, inr}
use mathlib.Core.List.{◌++◌}
use mathlib.Core.Bool.{Bool, true, false}
use victoriametrics_data_mig.Prelude.Tests.{if◌then◌else◌}
use victoriametrics_data_mig.Prelude.Strings.{Text}

-- A value, or the text of an error.
pub data Result {ℓ} (A : Type ℓ) : Type ℓ where
  err : Text → Result A
  ok : A → Result A

pub Result-cases {ℓ} :
    {A : Type ℓ} (r : Result A) → ((e : Text) × (r ≡ err e)) ⊎ ((a : A) × (r ≡ ok a))
Result-cases (err e) = inl (e, refl)
Result-cases (ok a) = inr (a, refl)

pub ok_injective {ℓ} : {A : Type ℓ} (a b : A) → ok a ≡ ok b → a ≡ b
ok_injective a b e = cc

pub err_not_ok {ℓ} : {A : Type ℓ} (e : Text) (a : A) → ¬ (err e ≡ ok a)
err_not_ok e a same = cc

-- The error of a call is returned with more text in front, `fmt.Errorf("...: %w", err)`.
abbrev pub wrapped {ℓ} : {A : Type ℓ} → Text → Result A → Result A
wrapped message (err e) = err (message ++ e)
wrapped message (ok a) = ok a

-- `if err != nil { return err }`, and what follows.
abbrev pub then_ok {ℓ κ} : {A : Type ℓ} {B : Type κ} → Result A → (A → Result B) → Result B
then_ok (err e) f = err e
then_ok (ok a) f = f a

pub wrapped_iff {ℓ} :
    {A : Type ℓ} (message : Text) (r : Result A) (a : A) → (wrapped message r ≡ ok a) ↔ (r ≡ ok a)
wrapped_iff message (err e) a = ((λ h. absurd (err_not_ok _ a h)), λ h. absurd (err_not_ok e a h))
wrapped_iff message (ok b) a = ((λ h. h), λ h. h)

module _ {ℓ κ} {A : Type ℓ} {B : Type κ} where
  pub then_ok_iff :
      (r : Result A) (f : A → Result B) (b : B)
      → (then_ok r f ≡ ok b) ↔ ((a : A) × (r ≡ ok a) × (f a ≡ ok b))
  then_ok_iff (err e) f b =
      ((λ h. absurd (err_not_ok e b h)), λ (a, same, _). absurd (err_not_ok e a same))
  then_ok_iff (ok a) f b = (
    (λ h. (a, refl, h)),
    λ (a', same, h). subst (λ x. f x ≡ ok b) (sym (ok_injective a a' same)) h,
  )

  pub then_wrapped_iff :
      (message : Text) (r : Result A) (f : A → Result B) (b : B)
      → (then_ok (wrapped message r) f ≡ ok b) ↔ ((a : A) × (r ≡ ok a) × (f a ≡ ok b))
  then_wrapped_iff message r f b =
      let parts = then_ok_iff (wrapped message r) f b in
      (
        (λ h. let (a, e, good) = parts.0 h in (a, (wrapped_iff message r a).0 e, good)),
        λ (a, e, good). parts.1 (a, (wrapped_iff message r a).1 e, good),
      )

pub guarded_iff {ℓ} :
    {A : Type ℓ} (test : Bool) (a b : A) (e : Text)
    → ((if test then ok a else err e) ≡ ok b) ↔ ((test ≡ true) × (a ≡ b))
guarded_iff true a b e = ((λ h. (refl, ok_injective a b h)), λ (_, same). ap ok same)
guarded_iff false a b e = ((λ h. absurd (err_not_ok e b h)), λ (h, _). absurd (clash h))
  where
    clash : ◌≡◌ {A = Bool} false true → ⊥
    clash h = cc
