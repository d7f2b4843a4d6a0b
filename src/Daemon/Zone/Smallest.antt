-- ===== src/Daemon/Zone/Smallest.antt =====
-- The loop of findSmallestZoneID, and the least ID of a list of zones.
use thunder_device_plugin.Base.{
  ◌≡◌, refl, ◌⊎◌, inl, inr, Bool, true, false, ◌||◌, List, [], ◌∷◌, Str, arith, ◌==◌, text_eq,
  str_eq_iff, is_nil, All, keep, str_lt, Bool-cases,
}
use thunder_device_plugin.Daemon.Zone.{Zone, smallest_from}

-- The zones of a display name.
abbrev pub named : Str → List Zone → List Zone
named name zones = keep (λ zone. zone.display_name == name) zones

-- Is it the ID of one of the zones?
abbrev pub is_id_of : Str → List Zone → Bool
is_id_of id [] = false
is_id_of id (zone ∷ zones) = zone.zone_id == id || is_id_of id zones

abbrev pub NotBelow : Str → Zone → Type 0
NotBelow id zone = str_lt zone.zone_id id ≡ false

-- The smallest ID of some zones, or "" for none.
pub record IsSmallest (zones : List Zone) (id : Str) : Type 0 where
  pub least : All (NotBelow id) zones
  pub found : (is_nil zones ≡ true × id ≡ []) ⊎ (is_id_of id zones ≡ true)

not_below_trans : (a b c : Str) → str_lt b a ≡ false → str_lt c b ≡ false → str_lt c a ≡ false
unfolding str_lt
not_below_trans [] b [] h k = refl
not_below_trans [] [] (x ∷ c) h k = refl
not_below_trans [] (y ∷ b) (x ∷ c) h k = refl
not_below_trans (x ∷ a) [] c h k = cc
not_below_trans (x ∷ a) (y ∷ b) [] h k = cc
not_below_trans (x ∷ a) (y ∷ b) (z ∷ c) h k = ground (arith, not_below_trans a b c)

not_below_self : (a : Str) → str_lt a a ≡ false
unfolding str_lt
not_below_self [] = refl
not_below_self (x ∷ a) = ground (arith, not_below_self a)

not_below_asym : (a b : Str) → str_lt a b ≡ true → str_lt b a ≡ false
unfolding str_lt
not_below_asym [] [] h = cc
not_below_asym [] (y ∷ b) h = refl
not_below_asym (x ∷ a) [] h = cc
not_below_asym (x ∷ a) (y ∷ b) h = ground (arith, not_below_asym a b)

-- The loop from an ID that it has already found.
record Lowers (zones : List Zone) (from id : Str) : Type 0 where
  lower : str_lt from id ≡ false
  least : All (NotBelow id) zones
  found : (id ≡ from) ⊎ (is_id_of id zones ≡ true)

Lowers-next :
    (zone : Zone) (zones : List Zone) (from id : Str)
    → str_lt from zone.zone_id ≡ false
    → Lowers zones zone.zone_id id
    → Lowers (zone ∷ zones) from id
Lowers-next zone zones from id below h = record {
  lower = not_below_trans id zone.zone_id from h.lower below;
  least = (h.lower, h.least);
  found = ground (arith, h.found, str_eq_iff zone.zone_id id);
}

Lowers-kept :
    (zone : Zone) (zones : List Zone) (from id : Str)
    → str_lt zone.zone_id from ≡ false
    → Lowers zones from id
    → Lowers (zone ∷ zones) from id
Lowers-kept zone zones from id above h = record {
  lower = h.lower;
  least = (not_below_trans id from zone.zone_id h.lower above, h.least);
  found = ground (arith, h.found);
}

smallest_from-Lowers :
    (name from : Str) (zones : List Zone)
    → is_nil from ≡ false
    → All (λ zone. is_nil zone.zone_id ≡ false) zones
    → Lowers (named name zones) from (smallest_from name from zones)
unfolding smallest_from
smallest_from-Lowers name from [] started ids = record {
  lower = not_below_self from;
  least = tt;
  found = inl refl;
}
smallest_from-Lowers name from (zone ∷ zones) started ids =
    elim (Bool-cases (zone.display_name == name)) [
      | inr foreign ↦ rw foreign (smallest_from-Lowers name from zones started ids.1)
      | inl same ↦ elim (Bool-cases (str_lt zone.zone_id from)) [
        | inl below ↦
            rw (same, started, below)
              (Lowers-next zone (named name zones) from (smallest_from name zone.zone_id zones)
                (not_below_asym zone.zone_id from below)
                (smallest_from-Lowers name zone.zone_id zones ids.0 ids.1))
        | inr above ↦
            rw (same, started, above)
              (Lowers-kept zone (named name zones) from (smallest_from name from zones) above
                (smallest_from-Lowers name from zones started ids.1))
      ]
    ]

Lowers-IsSmallest :
    (zone : Zone) (zones : List Zone) (id : Str)
    → Lowers zones zone.zone_id id
    → IsSmallest (zone ∷ zones) id
Lowers-IsSmallest zone zones id h = record {
  least = (h.lower, h.least);
  found = inr (ground (arith, h.found, str_eq_iff zone.zone_id id));
}

-- Where no zone has an empty ID, the loop of findSmallestZoneID finds the smallest ID of the zones of
-- the display name, and "" only when there is no such zone.
pub smallest_from-IsSmallest :
    (name : Str) (zones : List Zone)
    → All (λ zone. is_nil zone.zone_id ≡ false) zones
    → IsSmallest (named name zones) (smallest_from name [] zones)
unfolding smallest_from
smallest_from-IsSmallest name [] ids = record { least = tt; found = inl (refl, refl) }
smallest_from-IsSmallest name (zone ∷ zones) ids = elim (Bool-cases (zone.display_name == name)) [
  | inr foreign ↦ rw foreign (smallest_from-IsSmallest name zones ids.1)
  | inl same ↦ rw same (
      Lowers-IsSmallest zone (named name zones) (smallest_from name zone.zone_id zones)
        (smallest_from-Lowers name zone.zone_id zones ids.0 ids.1))
]
