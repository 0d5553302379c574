-- ===== src/Amf/Copied.antt =====
-- What rtmp_amf_value_copy of rtmp_amf.c keeps.
use rtmpcamera.Prelude.{◌≡◌, ◌≢◌, refl, ap, [], ◌∷◌, arith}
use rtmpcamera.Amf.{
  Bytes, Value, number, boolean, string, object, null, undefined, array, date, Properties,
  no_properties, property,
}
use rtmpcamera.Amf.Copy.{until_nul, value_copy, copy_properties}

-- A text without a NUL.
unfoldable pub IsText : Bytes → Type 0
IsText [] = Unit {0}
IsText (c ∷ cs) = (c ≢ 0) × IsText cs

-- The values without an array whose texts have no NUL.
unfoldable mutual
  pub IsPlain : Value → Type 0
  IsPlain (string contents size) = IsText contents
  IsPlain (object ps) = ArePlain ps
  IsPlain (array xs) = ⊥
  IsPlain _ = Unit {0}

  pub ArePlain : Properties → Type 0
  ArePlain no_properties = Unit {0}
  ArePlain (property name v ps) = IsText name × IsPlain v × ArePlain ps

until_nul-IsText : (s : Bytes) → IsText s → until_nul s ≡ s
unfolding until_nul IsText
until_nul-IsText [] h = refl
until_nul-IsText (c ∷ cs) h = ground (arith, ap (λ t. c ∷ t) (until_nul-IsText cs h.1))

mutual
  unfolding value_copy IsPlain

  copy-IsPlain : (v : Value) → IsPlain v → value_copy v ≡ v
  copy-IsPlain (number bits) h = refl
  copy-IsPlain (boolean b) h = refl
  copy-IsPlain (string contents size) h = ap (λ s. string s size) (until_nul-IsText contents h)
  copy-IsPlain (object ps) h = ap object (copies-ArePlain ps h)
  copy-IsPlain null h = refl
  copy-IsPlain undefined h = refl
  copy-IsPlain (array xs) h = absurd h
  copy-IsPlain (date bits) h = refl

  copies-ArePlain : (ps : Properties) → ArePlain ps → copy_properties ps ≡ ps
  copies-ArePlain no_properties h = refl
  copies-ArePlain (property name v ps) h =
      rw (until_nul-IsText name h.0, copy-IsPlain v h.1, copies-ArePlain ps h.2) refl

-- The copy of a value without arrays whose texts hold no NUL equals the value, at any depth of
-- objects.
pub value_copy-IsPlain : (v : Value) → IsPlain v → value_copy v ≡ v
value_copy-IsPlain v h = copy-IsPlain v h
