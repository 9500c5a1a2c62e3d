-- ===== src/Kit/Results.antt =====
-- A value or the exception that was raised in its place.
pub data Result {ℓ κ} (F : Type ℓ) (A : Type κ) : Type (ℓ ⊔ κ) where
  ok : A → Result F A
  err : F → Result F A

abbrev pub map_ok {ℓ κ μ} :
    {F : Type ℓ} {A : Type κ} {B : Type μ} → (A → B) → Result F A → Result F B
map_ok f (ok a) = ok (f a)
map_ok f (err e) = err e
