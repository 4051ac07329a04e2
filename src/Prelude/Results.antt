-- ===== src/Prelude/Results.antt =====
-- `Result`, with what `?` and `ok_or` do.
use mathlib.Core.Option.{Option, none, some}
use mathlib.Core.Option
use mathlib.Core.Path.{◌≡◌, refl, sym, ap}
use mathlib.Core.Logic.{◌⊎◌, inl, inr}

pub data Result (E A : Type 0) : Type 0 where
  ok : A → Result E A
  err : E → Result E A

module _ {E A B : Type 0} where
  abbrev pub and_then : Result E A → (A → Result E B) → Result E B
  and_then (ok a) k = k a
  and_then (err e) k = err e

module _ {E A : Type 0} where
  abbrev pub ok_or : E → Option A → Result E A
  ok_or e none = err e
  ok_or e (some a) = ok a

pub some_injective {ℓ} : {A : Type ℓ} {a b : A} → some a ≡ some b → a ≡ b
some_injective {a = a} e = ap (λ o. Option.get_or o a) e

-- A mapped option that is given was given before.
pub map-some :
    {A B : Type 0} (f : A → B) (o : Option A) (b : B)
    → Option.map f o ≡ some b
    → (a : A) × (o ≡ some a) × (b ≡ f a)
map-some f none b e = absurd cc
map-some f (some a) b e = (a, refl, sym (some_injective e))

-- The split on a computed option.
pub Option-cases {ℓ} : {A : Type ℓ} (o : Option A) → (o ≡ none) ⊎ ((a : A) × (o ≡ some a))
Option-cases none = inl refl
Option-cases (some a) = inr (a, refl)

module _ {E A : Type 0} where
  abbrev value_or : A → Result E A → A
  value_or d (ok a) = a
  value_or d (err e) = d

  pub ok_injective : {a b : A} → Path (Result E A) (ok a) (ok b) → a ≡ b
  ok_injective {a = a} e = ap (value_or a) e

module _ {E F A : Type 0} where
  abbrev pub map_err : (E → F) → Result E A → Result F A
  map_err f (ok a) = ok a
  map_err f (err e) = err (f e)

  -- A success behind `map_err` was one before.
  pub map_err-ok : (f : E → F) (r : Result E A) (a : A) → map_err f r ≡ ok a → r ≡ ok a
  map_err-ok f (ok b) a h = ap ok (ok_injective h)
  map_err-ok f (err e) a h = absurd (cc)

module _ {E A B : Type 0} where
  -- The two steps of a chain that succeeds.
  pub and_then-ok :
      (r : Result E A) (k : A → Result E B) (b : B)
      → and_then r k ≡ ok b
      → (a : A) × (r ≡ ok a) × (k a ≡ ok b)
  and_then-ok (ok a) k b h = (a, refl, h)
  and_then-ok (err e) k b h = absurd (cc)

module _ {E A : Type 0} where
  pub ok_or-ok : (e : E) (o : Option A) (a : A) → ok_or e o ≡ ok a → o ≡ some a
  ok_or-ok e none a h = absurd (cc)
  ok_or-ok e (some b) a h = ap some (ok_injective h)
