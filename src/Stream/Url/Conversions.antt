-- ===== src/Stream/Url/Conversions.antt =====
-- rtmp_stream.c: the conversions of an address, on texts that they take whole.
use rtmpcamera.Prelude.{
  ℕ, zero, suc, ◌+◌, ◌/◌, ◌%◌, ◌≤◌, ◌<◌, ◌≡◌, refl, Bool, true, false, some, [], ◌∷◌, ◌++◌, length,
  arith, append-nil, length-append, decimal, digits_of, value-decimal, ltb, Bool-cases, inl, inr,
  ◌==◌,
}
use rtmpcamera.Stream.{Bytes}
use rtmpcamera.Stream.Url.{is_space, no_digit, span, conversion, skip_space, digits, integer}

-- No byte of the list stops a conversion.
abbrev pub IsClear : (stop : ℕ → Bool) → Bytes → Type 0
IsClear stop [] = Unit {0}
IsClear stop (b ∷ bs) = (stop b ≡ false) × IsClear stop bs

-- The list ends, or its first byte stops a conversion.
abbrev pub Ends : (stop : ℕ → Bool) → Bytes → Type 0
Ends stop [] = Unit {0}
Ends stop (b ∷ bs) = stop b ≡ true

span_lem :
    (stop : ℕ → Bool) (width : ℕ) (xs ys : Bytes)
    → IsClear stop xs
    → length xs ≤ width
    → Ends stop ys
    → span stop width (xs ++ ys) ≡ (xs, ys)
unfolding span
span_lem stop zero [] ys c h e = refl
span_lem stop zero (x ∷ xs) ys c h e = absurd (omega arith)
span_lem stop (suc width) [] [] c h e = refl
span_lem stop (suc width) [] (y ∷ ys) c h e = rw e refl
span_lem stop (suc width) (x ∷ xs) ys c h e =
    rw (c.0, span_lem stop width xs ys c.1 (omega arith) e) refl

pub conversion_lem :
    (stop : ℕ → Bool) (width : ℕ) (xs ys : Bytes)
    → IsClear stop xs
    → 0 < length xs
    → length xs ≤ width
    → Ends stop ys
    → conversion stop width (xs ++ ys) ≡ some (xs, ys)
conversion_lem stop width [] ys c p h e = absurd (omega arith)
conversion_lem stop width (x ∷ xs) ys c p h e = rw (span_lem stop width (x ∷ xs) ys c h e) refl

IsClear-append :
    (stop : ℕ → Bool) (xs : Bytes) (d : ℕ)
    → IsClear stop xs
    → stop d ≡ false
    → IsClear stop (xs ++ d ∷ [])
IsClear-append stop [] d c e = (e, tt)
IsClear-append stop (x ∷ xs) d c e = (c.0, IsClear-append stop xs d c.1 e)

digits_of-IsClear : (fuel n : ℕ) → IsClear no_digit (digits_of fuel n)
unfolding digits_of
digits_of-IsClear zero n = (ground arith, tt)
digits_of-IsClear (suc fuel) n = elim (Bool-cases (ltb n 10)) [
  | inl small ↦ rw small (ground arith, tt)
  | inr large ↦ rw large (
      IsClear-append no_digit (digits_of fuel (n / 10)) (48 + n % 10)
        (digits_of-IsClear fuel (n / 10)) (ground arith))
]

digits_of-nonempty : (fuel n : ℕ) → 0 < length (digits_of fuel n)
unfolding digits_of
digits_of-nonempty zero n = omega arith
digits_of-nonempty (suc fuel) n = elim (Bool-cases (ltb n 10)) [
  | inl small ↦ rw small (omega arith)
  | inr large ↦
      rw large (omega (arith, length-append (digits_of fuel (n / 10)) ((48 + n % 10) ∷ [])))
]

decimal-IsClear : (n : ℕ) → IsClear no_digit (decimal n)
unfolding decimal
decimal-IsClear n = digits_of-IsClear n n

decimal-nonempty : (n : ℕ) → 0 < length (decimal n)
unfolding decimal
decimal-nonempty n = digits_of-nonempty n n

-- A text that a conversion can take whole: no byte stops it, and it has at least one and at most so many.
pub record IsField (stop : ℕ → Bool) (width : ℕ) (text : Bytes) : Type 0 where
  pub clear : IsClear stop text
  pub nonempty : 0 < length text
  pub fits : length text ≤ width

-- Digits are no white space and no sign.
integer-digits :
    (ds ys : Bytes)
    → IsClear no_digit ds
    → 0 < length ds
    → integer (ds ++ ys) ≡ digits false (ds ++ ys)
unfolding integer skip_space
integer-digits [] ys c p = absurd (omega arith)
integer-digits (d ∷ ds) ys c p = rw (blank, minus, plus) refl
  where
    blank : is_space d ≡ false
    blank = ground (arith, c.0)

    minus : (d == 45) ≡ false
    minus = ground (arith, c.0)

    plus : (d == 43) ≡ false
    plus = ground (arith, c.0)

pub integer-decimal :
    (n : ℕ) (ys : Bytes)
    → Ends no_digit ys
    → integer (decimal n ++ ys) ≡ some (record { negative = false; magnitude = n }, ys)
integer-decimal n ys e =
    rw
      (
        integer-digits (decimal n) ys (decimal-IsClear n) (decimal-nonempty n),
        conversion_lem no_digit (length (decimal n ++ ys)) (decimal n) ys (decimal-IsClear n)
            (decimal-nonempty n) (omega (arith, length-append (decimal n) ys)) e,
        value-decimal n,
      )
      refl

pub skip_space-clear : (xs : Bytes) → IsClear is_space xs → skip_space xs ≡ xs
unfolding skip_space
skip_space-clear [] c = refl
skip_space-clear (x ∷ xs) c = rw (c.0) refl

pub whole :
    (stop : ℕ → Bool) (width : ℕ) (xs : Bytes)
    → IsField stop width xs
    → conversion stop width xs ≡ some (xs, [])
whole stop width xs f =
    rw (append-nil xs) at (conversion_lem stop width xs [] f.clear f.nonempty f.fits tt)
