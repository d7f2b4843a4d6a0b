-- ===== src/Base/Joined.antt =====
-- The name of the file that filepath.Join leads to, for a directory and a name.
use thunder_device_plugin.Base.{
  ℕ, ◌≡◌, refl, sym, ap, ◌∙◌, inl, inr, Bool, true, false, List, [], ◌∷◌, ◌++◌, Str, codes, is_nil,
  split, join, contains, eqb, eqb_iff, Bool-cases, text_eq, str_eq, split_parts, if◌then◌else◌,
}
use thunder_device_plugin.Base.Paths.{
  clean, clean_parts, clean_from, clean_step, reverse_onto, is_abs, join_paths,
}
use thunder_device_plugin.Base.FileNames.{base_name, IsPlain, Ends, append_shown, base_name-Ends}

append_assoc : (a b c : Str) → (a ++ b) ++ c ≡ a ++ (b ++ c)
append_assoc [] b c = refl
append_assoc (x ∷ a) b c = ap (λ s. x ∷ s) (append_assoc a b c)

Ends-before : (name before path : Str) → Ends name path → Ends name (before ++ b'/' ∷ path)
unfolding Ends
Ends-before name before path (inl same) = inr (before, rw same refl)
Ends-before name before path (inr (front, same)) =
    inr (before ++ b'/' ∷ front, rw same (sym (append_assoc before (b'/' ∷ front) (b'/' ∷ name))))

Ends-shown : (name path : Str) → is_nil name ≡ false → Ends name path → is_nil path ≡ false
unfolding Ends
Ends-shown name path shown (inl same) = rw same shown
Ends-shown name path shown (inr (front, same)) = rw same (append_shown front b'/' name)

abbrev joined : List Str → Str
joined parts = join (b'/' ∷ []) parts

join-reverse_onto :
    (name : Str) (kept done : List Str)
    → is_nil done ≡ false
    → Ends name (joined done)
    → Ends name (joined (reverse_onto kept done))
unfolding reverse_onto Ends join
join-reverse_onto name [] done some_done ends = ends
join-reverse_onto name (part ∷ kept) done some_done ends =
    join-reverse_onto name kept (part ∷ done) refl
      (rw some_done (Ends-before name part (joined done) ends))

clean_from-last :
    (rooted : Bool) (parts kept : List Str) (name : Str)
    → IsPlain name
    → clean_from rooted kept (parts ++ name ∷ []) ≡ name ∷ clean_from rooted kept parts
unfolding clean_from clean_step str_eq codes
clean_from-last rooted [] [] name plain = rw (plain.shown, plain.not_here, plain.not_up) refl
clean_from-last rooted [] (k ∷ kept) name plain =
    rw (plain.shown, plain.not_here, plain.not_up) refl
clean_from-last rooted (part ∷ parts) kept name plain = clean_from-last rooted parts _ name plain

split_parts_none : (c : ℕ) (name : Str) → contains c name ≡ false → split_parts c name ≡ (name, [])
unfolding split_parts contains
split_parts_none c [] h = refl
split_parts_none c (x ∷ name) h = elim (Bool-cases (eqb x c)) [
  | inl same ↦ absurd (cc)
  | inr apart ↦ rw (apart, split_parts_none c name (rw apart at h)) refl
]

split_parts-last :
    (c : ℕ) (front name : Str)
    → contains c name ≡ false
    → split_parts c (front ++ c ∷ name)
      ≡ ((split_parts c front).0, (split_parts c front).1 ++ name ∷ [])
unfolding split_parts
split_parts-last c [] name h = rw (split_parts_none c name h, (eqb_iff c c).1 refl) refl
split_parts-last c (x ∷ front) name h = elim (Bool-cases (eqb x c)) [
  | inl same ↦ rw (same, split_parts-last c front name h) refl
  | inr apart ↦ rw (apart, split_parts-last c front name h) refl
]

split-last :
    (c : ℕ) (front name : Str)
    → contains c name ≡ false
    → split c (front ++ c ∷ name) ≡ split c front ++ name ∷ []
unfolding split
split-last c front name h = rw (split_parts-last c front name h) refl

name_Ends : (name : Str) → Ends name (joined (name ∷ []))
unfolding Ends join
name_Ends name = inl refl

Ends-rooted :
    (name : Str) (rooted : Bool) (body : Str)
    → is_nil name ≡ false
    → Ends name body
    → Ends name (if rooted then b'/' ∷ body else if is_nil body then b'.' ∷ [] else body)
Ends-rooted name true body shown ends = Ends-before name [] body ends
Ends-rooted name false body shown ends = rw (Ends-shown name body shown ends) ends

clean_parts-Ends :
    (rooted : Bool) (parts : List Str) (name : Str)
    → IsPlain name
    → Ends name (clean_parts rooted (parts ++ name ∷ []))
unfolding clean_parts reverse_onto
clean_parts-Ends rooted parts name plain =
    let kept = clean_from rooted [] parts in
    rw (clean_from-last rooted parts [] name plain) (
      Ends-rooted name rooted (joined (reverse_onto kept (name ∷ []))) plain.shown
        (join-reverse_onto name kept (name ∷ []) refl (name_Ends name)))

clean-Ends : (dir name : Str) → IsPlain name → Ends name (clean (dir ++ b'/' ∷ name))
unfolding clean
clean-Ends dir name plain =
    rw (split-last b'/' dir name plain.slashless)
      (clean_parts-Ends (is_abs (dir ++ b'/' ∷ name)) (split b'/' dir) name plain)

clean_name-Ends : (name : Str) → IsPlain name → Ends name (clean name)
unfolding clean split
clean_name-Ends name plain =
    rw (split_parts_none b'/' name plain.slashless) (clean_parts-Ends (is_abs name) [] name plain)

join_paths-Ends : (dir name : Str) → IsPlain name → Ends name (join_paths (dir ∷ name ∷ []))
unfolding join_paths join
join_paths-Ends [] name plain = rw plain.shown (clean_name-Ends name plain)
join_paths-Ends (c ∷ dir) name plain = rw plain.shown (clean-Ends (c ∷ dir) name plain)

-- The file that a name leads to in a directory is called by that name.
pub base_name-join_paths :
    (dir name : Str) → IsPlain name → base_name (join_paths (dir ∷ name ∷ [])) ≡ name
base_name-join_paths dir name plain =
    base_name-Ends name (join_paths (dir ∷ name ∷ [])) plain (join_paths-Ends dir name plain)

Ends-append : (name path suffix : Str) → Ends name path → Ends (name ++ suffix) (path ++ suffix)
unfolding Ends
Ends-append name path suffix (inl same) = inl (ap (λ s. s ++ suffix) same)
Ends-append name path suffix (inr (front, same)) =
    inr (front, ap (λ s. s ++ suffix) same ∙ append_assoc front (b'/' ∷ name) suffix)

-- The name of a file in a directory with a suffix behind it.
pub base_name-append_suffix :
    (dir name suffix : Str)
    → IsPlain name
    → IsPlain (name ++ suffix)
    → base_name (join_paths (dir ∷ name ∷ []) ++ suffix) ≡ name ++ suffix
base_name-append_suffix dir name suffix plain plain' =
    base_name-Ends (name ++ suffix) (join_paths (dir ∷ name ∷ []) ++ suffix) plain'
      (Ends-append name (join_paths (dir ∷ name ∷ [])) suffix (join_paths-Ends dir name plain))

join_paths_shown :
    (dir path : Str)
    → is_nil path ≡ false
    → (join_paths ([] ∷ path ∷ []) ≡ clean path)
      × ((c : ℕ) → join_paths ((c ∷ dir) ∷ path ∷ []) ≡ clean (c ∷ dir ++ b'/' ∷ path))
unfolding join_paths join
join_paths_shown dir [] shown = absurd (cc)
join_paths_shown dir (x ∷ path) shown = (refl, λ c. refl)

-- The same for a name below a directory of the directory.
pub base_name_below :
    (dir middle name : Str)
    → IsPlain name
    → base_name (join_paths (dir ∷ (middle ++ b'/' ∷ name) ∷ [])) ≡ name
base_name_below [] middle name plain =
    ap base_name (join_paths_shown [] (middle ++ b'/' ∷ name) (append_shown middle b'/' name)).0
    ∙ base_name-Ends name (clean (middle ++ b'/' ∷ name)) plain (clean-Ends middle name plain)
base_name_below (c ∷ dir) middle name plain =
    let path = c ∷ dir ++ b'/' ∷ middle in
    ap base_name
      ((join_paths_shown dir (middle ++ b'/' ∷ name) (append_shown middle b'/' name)).1 c)
    ∙ ap (λ p. base_name (clean p)) (sym (append_assoc (c ∷ dir) (b'/' ∷ middle) (b'/' ∷ name)))
    ∙ base_name-Ends name (clean (path ++ b'/' ∷ name)) plain (clean-Ends path name plain)
