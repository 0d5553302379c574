-- ===== src/Prelude/Lists.antt =====
-- Lists measured and indexed by native numbers, under the library's names.
use Prim.Native.Nat.{ℕ, zero, suc, ◌+◌, ◌-◌, ◌≤◌, min}
use mathlib.Core.Path.{◌≡◌, refl, ap}
use mathlib.Core.List.{List, [], ◌∷◌, ◌++◌}
use mathlib.Core.Bool.{Bool, true, false}
use rtmpcamera.Prelude.Tests.{◌==◌, leb, ==_refl, if◌then◌else◌}
use native.Mathlib.Omega.{arith}

module _ {ℓ} {A : Type ℓ} where
  abbrev pub length : List A → ℕ
  length [] = 0
  length (x ∷ xs) = suc (length xs)

  abbrev pub get_or : List A → ℕ → A → A
  get_or [] i d = d
  get_or (x ∷ xs) zero d = x
  get_or (x ∷ xs) (suc i) d = get_or xs i d

  -- A write out of bounds changes nothing.
  abbrev pub set : List A → ℕ → A → List A
  set [] i v = []
  set (x ∷ xs) zero v = v ∷ xs
  set (x ∷ xs) (suc i) v = x ∷ set xs i v

  abbrev pub take : ℕ → List A → List A
  take zero xs = []
  take (suc n) [] = []
  take (suc n) (x ∷ xs) = x ∷ take n xs

  abbrev pub drop : ℕ → List A → List A
  drop zero xs = xs
  drop (suc n) [] = []
  drop (suc n) (x ∷ xs) = drop n xs

  pub length-append : (xs ys : List A) → length (xs ++ ys) ≡ length xs + length ys
  length-append [] ys = omega arith
  length-append (x ∷ xs) ys = omega (arith, length-append xs ys)

  pub take-append-drop : (n : ℕ) (xs : List A) → take n xs ++ drop n xs ≡ xs
  take-append-drop zero xs = refl
  take-append-drop (suc n) [] = refl
  take-append-drop (suc n) (x ∷ xs) = ap (λ r. x ∷ r) (take-append-drop n xs)

  pub length-take : (n : ℕ) (xs : List A) → length (take n xs) ≡ min n (length xs)
  length-take zero xs = omega arith
  length-take (suc n) [] = omega arith
  length-take (suc n) (x ∷ xs) = omega (arith, length-take n xs)

  pub length-drop : (n : ℕ) (xs : List A) → length (drop n xs) ≡ length xs - n
  length-drop zero xs = omega arith
  length-drop (suc n) [] = omega arith
  length-drop (suc n) (x ∷ xs) = omega (arith, length-drop n xs)

  -- What stands before a known prefix's end, and behind it.
  pub take_append : (xs ys : List A) → take (length xs) (xs ++ ys) ≡ xs
  take_append [] ys = refl
  take_append (x ∷ xs) ys = ap (λ r. x ∷ r) (take_append xs ys)

  pub drop_append : (xs ys : List A) → drop (length xs) (xs ++ ys) ≡ ys
  drop_append [] ys = refl
  drop_append (x ∷ xs) ys = drop_append xs ys

  pub drop_all : (n : ℕ) (xs : List A) → length xs ≤ n → drop n xs ≡ []
  drop_all zero [] h = refl
  drop_all zero (x ∷ xs) h = absurd (omega arith)
  drop_all (suc n) [] h = refl
  drop_all (suc n) (x ∷ xs) h = drop_all n xs (omega arith)

pub take_all {ℓ} : {A : Type ℓ} (n : ℕ) (xs : List A) → length xs ≤ n → take n xs ≡ xs
take_all zero [] h = refl
take_all zero (x ∷ xs) h = absurd (omega arith)
take_all (suc n) [] h = refl
take_all (suc n) (x ∷ xs) h = ap (λ r. x ∷ r) (take_all n xs (omega arith))

-- Behind a prefix of known length.
pub drop-past {ℓ} :
    {A : Type ℓ} (m n : ℕ) (xs ys : List A) → m ≡ length xs + n → drop m (xs ++ ys) ≡ drop n ys
drop-past m n [] ys e = let f : m ≡ n = omega arith in ap (λ k. drop k ys) f
drop-past zero n (x ∷ xs) ys e = absurd (omega arith)
drop-past (suc m) n (x ∷ xs) ys e = drop-past m n xs ys (omega arith)

pub take-past {ℓ} :
    {A : Type ℓ} (m n : ℕ) (xs ys : List A)
    → m ≡ length xs + n
    → take m (xs ++ ys) ≡ xs ++ take n ys
take-past m n [] ys e = let f : m ≡ n = omega arith in ap (λ k. take k ys) f
take-past zero n (x ∷ xs) ys e = absurd (omega arith)
take-past (suc m) n (x ∷ xs) ys e = ap (λ r. x ∷ r) (take-past m n xs ys (omega arith))

pub drop-drop {ℓ} :
    {A : Type ℓ} (a b c : ℕ) (xs : List A) → c ≡ a + b → drop b (drop a xs) ≡ drop c xs
drop-drop zero b c xs e = let f : b ≡ c = omega arith in ap (λ k. drop k xs) f
drop-drop (suc a) b zero xs e = absurd (omega arith)
drop-drop (suc a) zero (suc c) [] e = refl
drop-drop (suc a) (suc b) (suc c) [] e = refl
drop-drop (suc a) b (suc c) (x ∷ xs) e = drop-drop a b c xs (omega arith)

-- `strcmp` is 0.
abbrev pub same_bytes : List ℕ → List ℕ → Bool
same_bytes [] [] = true
same_bytes [] (y ∷ ys) = false
same_bytes (x ∷ xs) [] = false
same_bytes (x ∷ xs) (y ∷ ys) = if x == y then same_bytes xs ys else false

pub same_bytes_refl : (xs : List ℕ) → same_bytes xs xs ≡ true
same_bytes_refl [] = refl
same_bytes_refl (x ∷ xs) = ground (arith, ==_refl x, same_bytes_refl xs)

pub same_bytes→≡ : (xs ys : List ℕ) → same_bytes xs ys ≡ true → xs ≡ ys
same_bytes→≡ [] [] h = refl
same_bytes→≡ [] (y ∷ ys) h = absurd (ground (arith, h))
same_bytes→≡ (x ∷ xs) [] h = absurd (ground (arith, h))
same_bytes→≡ (x ∷ xs) (y ∷ ys) h = ground (arith, same_bytes→≡ xs ys)

pub same_bytes-take : (n : ℕ) (xs : List ℕ) → same_bytes (take n xs) xs ≡ leb (length xs) n
same_bytes-take zero [] = refl
same_bytes-take zero (x ∷ xs) = ground arith
same_bytes-take (suc n) [] = ground arith
same_bytes-take (suc n) (x ∷ xs) = ground (arith, same_bytes-take n xs)
