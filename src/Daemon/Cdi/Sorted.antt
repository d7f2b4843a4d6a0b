-- ===== src/Daemon/Cdi/Sorted.antt =====
-- sortArgPairs on the pairs of a map of flags.
use thunder_device_plugin.Base.{
  ◌≡◌, refl, subst, ◌∙◌, true, false, not, List, [], ◌∷◌, Str, arith, str_lt, ◌==◌, text_eq,
  str_eq_iff, All, if-branch,
}
use mathlib.Core.List.{Permᴰ}
use mathlib.Core.List.Permᴰ
use thunder_device_plugin.Daemon.Cdi.Hooks.{insert_pair, sort_pairs}

abbrev pub Pair : Type 0
Pair = Str × Str

abbrev pub Differ : Pair → Pair → Type 0
Differ p q = (p.0 == q.0) ≡ false

lt_total : (s t : Str) → str_lt s t ≡ false → str_lt t s ≡ false → s ≡ t
unfolding str_lt
lt_total [] [] h k = refl
lt_total [] (y ∷ t) h k = cc
lt_total (x ∷ s) [] h k = cc
lt_total (x ∷ s) (y ∷ t) h k = ground (arith, lt_total s t)

lt_asym : (s t : Str) → str_lt s t ≡ true → str_lt t s ≡ false
unfolding str_lt
lt_asym [] [] h = cc
lt_asym [] (y ∷ t) h = refl
lt_asym (x ∷ s) [] h = cc
lt_asym (x ∷ s) (y ∷ t) h = ground (arith, lt_asym s t)

-- What is not above is below what is above.
le_lt : (s t u : Str) → str_lt t s ≡ false → str_lt t u ≡ true → str_lt s u ≡ true
unfolding str_lt
le_lt s [] [] h k = cc
le_lt [] [] (z ∷ u) h k = refl
le_lt (x ∷ s) [] (z ∷ u) h k = cc
le_lt s (y ∷ t) [] h k = cc
le_lt [] (y ∷ t) (z ∷ u) h k = refl
le_lt (x ∷ s) (y ∷ t) (z ∷ u) h k = ground (arith, le_lt s t u)

-- One of two texts that differ is below the other.
lt_either : (s t : Str) → (s == t) ≡ false → str_lt s t ≡ not (str_lt t s)
lt_either s t apart = ground (arith, lt_total s t, lt_asym s t, str_eq_iff s t)

insert_pair_swap :
    (a b : Pair) (pairs : List Pair)
    → Differ a b
    → insert_pair a (insert_pair b pairs) ≡ insert_pair b (insert_pair a pairs)
unfolding insert_pair
insert_pair_swap a b [] apart = ground (arith, lt_either a.0 b.0 apart)
insert_pair_swap a b (p ∷ pairs) apart = ground (
  arith,
  lt_either a.0 b.0 apart,
  le_lt a.0 p.0 b.0,
  le_lt b.0 p.0 a.0,
  insert_pair_swap a b pairs apart,
)

-- No two pairs have one flag.
abbrev pub Distinct : List Pair → Type 0
Distinct [] = Unit
Distinct (p ∷ pairs) = All (Differ p) pairs × Distinct pairs

All-perm {κ} : (P : Pair → Type κ) {ps qs : List Pair} → Permᴰ ps qs → All P ps → All P qs
All-perm P Permᴰ.nil h = h
All-perm P (Permᴰ.cons e π) h = (subst P e h.0, All-perm P π h.1)
All-perm P (Permᴰ.swap e e') h = (subst P e' h.1.0, (subst P e h.0, h.1.1))
All-perm P (Permᴰ.trans π ρ) h = All-perm P ρ (All-perm P π h)

Differ-sym : (p q : Pair) → Differ p q → Differ q p
Differ-sym p q h = ground (arith, str_eq_iff p.0 q.0, str_eq_iff q.0 p.0)

pub Distinct-perm : {ps qs : List Pair} → Permᴰ ps qs → Distinct ps → Distinct qs
Distinct-perm Permᴰ.nil h = h
Distinct-perm (Permᴰ.cons {a} {b} {l₁} {l₂} e π) h =
    (All-perm (Differ b) π (subst (λ p. All (Differ p) l₁) e h.0), Distinct-perm π h.1)
Distinct-perm (Permᴰ.swap {a} {b} {a'} {b'} {l} e e') h = (
  (
    subst (λ p. Differ p b') e' (subst (Differ b) e (Differ-sym a b h.0.0)),
    subst (λ p. All (Differ p) l) e' h.1.0,
  ),
  (subst (λ p. All (Differ p) l) e h.0.1, h.1.1),
)
Distinct-perm (Permᴰ.trans π ρ) h = Distinct-perm ρ (Distinct-perm π h)

-- The order of pairs with different flags does not matter to the sort.
pub sort_pairs-perm :
    {ps qs : List Pair} → Permᴰ ps qs → Distinct ps → sort_pairs ps ≡ sort_pairs qs
unfolding sort_pairs
sort_pairs-perm Permᴰ.nil h = refl
sort_pairs-perm (Permᴰ.cons e π) h = rw (e, sort_pairs-perm π h.1) refl
sort_pairs-perm (Permᴰ.swap {a} {b} {a'} {b'} {l} e e') h =
    insert_pair_swap a b (sort_pairs l) h.0.0 ∙ rw (e, e') refl
sort_pairs-perm (Permᴰ.trans π ρ) h = sort_pairs-perm π h ∙ sort_pairs-perm ρ (Distinct-perm π h)

insert_pair-perm : (p : Pair) (pairs : List Pair) → Permᴰ (insert_pair p pairs) (p ∷ pairs)
unfolding insert_pair
insert_pair-perm p [] = Permᴰ.refl (p ∷ [])
insert_pair-perm p (q ∷ pairs) =
    if-branch (λ l. Permᴰ l (p ∷ q ∷ pairs)) (str_lt q.0 p.0) _ _
      (λ below. Permᴰ.trans (Permᴰ.cons refl (insert_pair-perm p pairs)) (Permᴰ.swap refl refl))
      (λ above. Permᴰ.refl (p ∷ q ∷ pairs))

pub sort_pairs_perm : (pairs : List Pair) → Permᴰ (sort_pairs pairs) pairs
unfolding sort_pairs
sort_pairs_perm [] = Permᴰ.nil
sort_pairs_perm (p ∷ pairs) =
    Permᴰ.trans (insert_pair-perm p (sort_pairs pairs)) (Permᴰ.cons refl (sort_pairs_perm pairs))

-- The pairs stand in the order of their flags.
abbrev pub Below : Pair → Pair → Type 0
Below p q = str_lt q.0 p.0 ≡ false

abbrev pub InOrder : List Pair → Type 0
InOrder [] = Unit
InOrder (p ∷ pairs) = All (Below p) pairs × InOrder pairs

insert_pair_lowest :
    (p : Pair) (pairs : List Pair) → All (Below p) pairs → insert_pair p pairs ≡ p ∷ pairs
unfolding insert_pair
insert_pair_lowest p [] h = refl
insert_pair_lowest p (q ∷ pairs) h = rw h.0 refl

-- Sorting what is in order changes nothing.
pub sort_pairs-InOrder : (pairs : List Pair) → InOrder pairs → sort_pairs pairs ≡ pairs
unfolding sort_pairs
sort_pairs-InOrder [] h = refl
sort_pairs-InOrder (p ∷ pairs) h =
    rw (sort_pairs-InOrder pairs h.1) (insert_pair_lowest p pairs h.0)
