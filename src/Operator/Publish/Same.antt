-- ===== src/Operator/Publish/Same.antt =====
-- reflect.DeepEqual on what slices hold.
use thunder_device_plugin.Base.{
  Bool, true, false, ◌&&◌, Option, none, some, List, [], ◌∷◌, Str, eqb, ◌==◌, text_eq, Assoc,
  lookup,
}
use thunder_device_plugin.Base.Int.{ℤ, pos, negsuc}
use thunder_device_plugin.Operator.Slices.Defs.{Device, Requirement, Spec}

abbrev pub same_ℤ : ℤ → ℤ → Bool
same_ℤ (pos a) (pos b) = eqb a b
same_ℤ (negsuc a) (negsuc b) = eqb a b
same_ℤ (pos a) (negsuc b) = false
same_ℤ (negsuc a) (pos b) = false

abbrev pub same_list {ℓ} : {A : Type ℓ} → (A → A → Bool) → List A → List A → Bool
same_list same [] [] = true
same_list same [] (y ∷ ys) = false
same_list same (x ∷ xs) [] = false
same_list same (x ∷ xs) (y ∷ ys) = same x y && same_list same xs ys

abbrev pub same_text : Str → Str → Bool
same_text a b = a == b

abbrev has_value : Str → Option Str → Bool
has_value v none = false
has_value v (some w) = v == w

-- Every entry of the first map is in the second.
abbrev pub included : Assoc Str Str → Assoc Str Str → Bool
included [] m = true
included ((k, v) ∷ l) m = has_value v (lookup k m) && included l m

-- Two maps of strings hold the same entries.
abbrev pub same_map : Assoc Str Str → Assoc Str Str → Bool
same_map a b = included a b && included b a

abbrev pub same_device : Device → Device → Bool
same_device a b = a.name == b.name && same_map a.attributes b.attributes

abbrev pub same_requirement : Requirement → Requirement → Bool
same_requirement a b =
    a.label == b.label && a.operator == b.operator && same_list same_text a.values b.values

unfoldable pub same_spec : Spec → Spec → Bool
same_spec a b =
    a.driver == b.driver
    && a.pool == b.pool
    && same_ℤ a.generation b.generation
    && eqb a.slice_count b.slice_count
    && same_list (same_list same_requirement) a.node_selector b.node_selector
    && same_list same_device a.devices b.devices
