-- ===== src/Amf/Free.antt =====
-- rtmp_amf.c: rtmp_amf_value_free, and the memory of a copy.
--
-- A block is told from others by what it holds. An array without elements has none allocated, as
-- rtmp_amf_value_copy leaves it.
use mathlib.Core.List.{Perm, perm_middle, perm_append_comm}
use mathlib.Core.List.Perm
use rtmpcamera.Prelude.{ℕ, suc, ◌≡◌, refl, ap, List, [], ◌∷◌, ◌++◌}
use rtmpcamera.Amf.{
  Bytes, Value, number, boolean, string, object, null, undefined, array, date, Properties,
  no_properties, property, Elements, no_elements, element,
}
use rtmpcamera.Amf.Copy.{until_nul, value_copy, copy_properties}

-- A value, a text with its NUL, or a table of so many pointers.
pub data Block : Type 0 where
  value : Block
  text : Bytes → Block
  table : ℕ → Block

abbrev count_properties : Properties → ℕ
count_properties no_properties = 0
count_properties (property name v ps) = suc (count_properties ps)

abbrev count_elements : Elements → ℕ
count_elements no_elements = 0
count_elements (element v vs) = suc (count_elements vs)

abbrev pub of_elements : Elements → List Block
of_elements no_elements = []
of_elements (element v vs) = table (suc (count_elements vs)) ∷ []

-- rtmp_amf_value_free: what it passes to `free`, in order.
unfoldable mutual
  pub value_free : Value → List Block
  value_free (string contents size) = text contents ∷ value ∷ []
  value_free (object ps) =
      free_properties ps ++ (table (count_properties ps) ∷ table (count_properties ps) ∷ value ∷ [])
  value_free (array vs) = free_elements vs ++ (of_elements vs ++ (value ∷ []))
  value_free _ = value ∷ []

  pub free_properties : Properties → List Block
  free_properties no_properties = []
  free_properties (property name v ps) = text name ∷ (value_free v ++ free_properties ps)

  pub free_elements : Elements → List Block
  free_elements no_elements = []
  free_elements (element v vs) = value_free v ++ free_elements vs

-- The allocations of rtmp_amf_value_copy, in order.
unfoldable mutual
  pub copy_blocks : Value → List Block
  copy_blocks (string contents size) = value ∷ text (until_nul contents) ∷ []
  copy_blocks (object ps) =
      value ∷ table (count_properties ps) ∷ table (count_properties ps) ∷ properties_blocks ps
  copy_blocks _ = value ∷ []

  pub properties_blocks : Properties → List Block
  properties_blocks no_properties = []
  properties_blocks (property name v ps) =
      text (until_nul name) ∷ (copy_blocks v ++ properties_blocks ps)

count-copy : (ps : Properties) → count_properties (copy_properties ps) ≡ count_properties ps
unfolding copy_properties
count-copy no_properties = refl
count-copy (property name v ps) = ap suc (count-copy ps)

mutual
  unfolding value_free copy_blocks value_copy

  free-copy : (v : Value) → Perm (value_free (value_copy v)) (copy_blocks v)
  free-copy (number bits) = Perm.refl _
  free-copy (boolean b) = Perm.refl _
  free-copy (string contents size) = perm_append_comm (text (until_nul contents) ∷ []) (value ∷ [])
  free-copy (object ps) =
      let tables = table (count_properties ps) ∷ table (count_properties ps) ∷ [] in
      rw (count-copy ps) (
        Perm.trans (perm_append_comm (free_properties (copy_properties ps)) (tables ++ value ∷ []))
          (Perm.trans (perm_middle tables (free_properties (copy_properties ps)))
            (Perm.cons _ (Perm.cons _ (Perm.cons _ (free-copies ps))))))
  free-copy null = Perm.refl _
  free-copy undefined = Perm.refl _
  free-copy (array vs) = Perm.refl _
  free-copy (date bits) = Perm.refl _

  free-copies :
      (ps : Properties) → Perm (free_properties (copy_properties ps)) (properties_blocks ps)
  free-copies no_properties = Perm.refl []
  free-copies (property name v ps) = Perm.cons _ (Perm.append (free-copy v) (free-copies ps))

-- The copy of any value is freed in full: what rtmp_amf_value_free frees of it are the blocks that
-- rtmp_amf_value_copy allocated, each as often, up to their order.
pub value_free-value_copy : (v : Value) → Perm (value_free (value_copy v)) (copy_blocks v)
value_free-value_copy v = free-copy v
