-- ===== src/Common/Exec.antt =====
-- Functions that run statements and may raise. The state comes back beside the exception too: what
-- was written before a raise stays written until the caller rolls the transaction back.
use mathlib.Core.Path.{◌≡◌, refl, ap, sym, ◌∙◌}
use mathlib.Core.Logic.{◌⊎◌, inl, inr}
use mathlib.Core.Bool.{Bool, true, false}
use mathlib.Core.Option.{Option, none, some}

pub data Result (E A : Type 0) : Type 0 where
  ok : A → Result E A
  err : E → Result E A

abbrev pub is_ok : {E A : Type 0} → Result E A → Bool
is_ok (ok a) = true
is_ok (err e) = false

abbrev pub Exec : Type 0 → Type 0 → Type 0 → Type 0
Exec E S A = S → Result E A × S

module _ {E S A : Type 0} where
  abbrev pub pure : A → Exec E S A
  pure a s = (ok a, s)

  abbrev pub raise : E → Exec E S A
  raise e s = (err e, s)

  abbrev pub lift : Result E A → Exec E S A
  lift r s = (r, s)

  abbrev pub gets : (S → A) → Exec E S A
  gets f s = (ok (f s), s)

  abbrev pub or_raise : Option A → E → Exec E S A
  or_raise none e = raise e
  or_raise (some a) e = pure a

module _ {E S : Type 0} where
  abbrev pub modify : (S → S) → Exec E S (Unit {0})
  modify f s = (ok tt, f s)

  abbrev pub raise_if : Bool → E → Exec E S (Unit {0})
  raise_if true e = raise e
  raise_if false e = pure tt

-- Shut, so that the rules for a block find its parts.
infixl 5 ◌>>=◌ ◌>>◌
unfoldable pub ◌>>=◌ : {E S A B : Type 0} → Exec E S A → (A → Exec E S B) → Exec E S B
◌>>=◌ m f s = let (r, t) = m s in elim r [ ok a ↦ f a t | err e ↦ (err e, t) ]

abbrev pub ◌>>◌ : {E S A B : Type 0} → Exec E S A → Exec E S B → Exec E S B
m >> k = m >>= λ _. k

pub err-ne-ok :
    {E S A : Type 0} (e : E) (a : A) (s t : S)
    → let x : Result E A × S = (err e, s) in let y : Result E A × S = (ok a, t) in x ≡ y → ⊥
err-ne-ok e a s t h = cc

pub ok_inj :
    {E S A : Type 0} (a b : A) (s t : S)
    → let x : Result E A × S = (ok a, s) in
      let y : Result E A × S = (ok b, t) in x ≡ y → (a ≡ b) × (s ≡ t)
ok_inj a b s t h = (cc, cc)

pub Result-cases :
    {E A : Type 0} (x : Result E A) → ((a : A) × (x ≡ ok a)) ⊎ ((e : E) × (x ≡ err e))
Result-cases (ok a) = inl (a, refl)
Result-cases (err e) = inr (e, refl)

pub result_inj :
    {E A : Type 0} (a b : A)
    → let x : Result E A = ok a in let y : Result E A = ok b in x ≡ y → a ≡ b
result_inj a b h = cc

-- Where a statement has ended
pub Exec-cases :
    {E S A : Type 0} (r : Result E A × S)
    → ((a : A) × (t : S) × (r ≡ (ok a, t))) ⊎ ((e : E) × (t : S) × (r ≡ (err e, t)))
Exec-cases (ok a, t) = inl (a, t, refl)
Exec-cases (err e, t) = inr (e, t, refl)

module _ {E S A B : Type 0} (m : Exec E S A) (k : A → Exec E S B) (s : S) where
  pub bind_ok : (a : A) (t : S) → m s ≡ (ok a, t) → (m >>= k) s ≡ k a t
  unfolding ◌>>=◌
  bind_ok a t h = rw (h, ◌>>=◌) (ap (λ r. k a r.1) h)

  pub bind_err : (e : E) (t : S) → m s ≡ (err e, t) → (m >>= k) s ≡ (err e, t)
  unfolding ◌>>=◌
  bind_err e t h = rw (h, ◌>>=◌) (ap (λ (r : Result E A × S). (err e, r.1)) h)

-- A block that returned ran through both of its parts.
pub bind_inv :
    {E S A B : Type 0} (m : Exec E S A) (k : A → Exec E S B) (s : S) (b : B) (u : S)
    → (m >>= k) s ≡ (ok b, u)
    → (a : A) × (t : S) × (m s ≡ (ok a, t)) × (k a t ≡ (ok b, u))
bind_inv m k s b u h = elim (Exec-cases (m s)) [
  | inl (a, t, e) ↦ (a, t, e, sym (bind_ok m k s a t e) ∙ h)
  | inr (x, t, e) ↦ absurd (err-ne-ok x b t u (sym (bind_err m k s x t e) ∙ h))
]
