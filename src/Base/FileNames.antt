-- ===== src/Base/FileNames.antt =====
-- filepath.Base on Unix, and the file that a path joined from a directory and a name leads to.
use thunder_device_plugin.Base.{
  ℕ, ◌≡◌, refl, ap, ◌∙◌, ◌⊎◌, inl, inr, false, ◌&&◌, Option, none, some, [], ◌∷◌, ◌++◌, Str, codes,
  arith, is_nil, contains, eqb, eqb_iff, ◌==◌, text_eq, if◌then◌else◌,
}

-- What stands behind the last occurrence of a character.
unfoldable pub after_last : ℕ → Str → Option Str
after_last c [] = none
after_last c (x ∷ s) = elim (after_last c s) [
  | some rest ↦ some rest
  | none ↦ if eqb x c then some s else none
]

-- A text without the slashes at its end.
unfoldable pub trim_slashes : Str → Str
trim_slashes [] = []
trim_slashes (c ∷ s) =
    let rest = trim_slashes s in if is_nil rest && eqb c b'/' then [] else c ∷ rest

-- filepath.Base.
unfoldable pub base_name : Str → Str
unfolding after_last trim_slashes
base_name path =
    let trimmed = trim_slashes path in
    if is_nil path
    then codes "."
    else if is_nil trimmed
    then codes "/"
    else elim (after_last b'/' trimmed) [ none ↦ trimmed | some name ↦ name ]

-- A name that is no special element of a path.
pub record IsPlain (name : Str) : Type 0 where
  pub slashless : contains b'/' name ≡ false
  pub shown : is_nil name ≡ false
  pub not_here : (name == codes ".") ≡ false
  pub not_up : (name == codes "..") ≡ false

after_last-none : (c : ℕ) (name : Str) → contains c name ≡ false → after_last c name ≡ none
unfolding after_last contains
after_last-none c [] h = refl
after_last-none c (x ∷ name) h = ground (arith, after_last-none c name)

pub after_last-append :
    (c : ℕ) (front name : Str)
    → contains c name ≡ false
    → after_last c (front ++ c ∷ name) ≡ some name
unfolding after_last
after_last-append c [] name h = rw (after_last-none c name h, (eqb_iff c c).1 refl) refl
after_last-append c (x ∷ front) name h = rw (after_last-append c front name h) refl

trim_slashes_slashless : (name : Str) → contains b'/' name ≡ false → trim_slashes name ≡ name
unfolding trim_slashes contains
trim_slashes_slashless [] h = refl
trim_slashes_slashless (c ∷ name) h = ground (arith, trim_slashes_slashless name)

pub append_shown : (front : Str) (c : ℕ) (back : Str) → is_nil (front ++ c ∷ back) ≡ false
append_shown [] c back = refl
append_shown (x ∷ front) c back = refl

trim_slashes-append :
    (front name : Str)
    → contains b'/' name ≡ false
    → is_nil name ≡ false
    → trim_slashes (front ++ b'/' ∷ name) ≡ front ++ b'/' ∷ name
unfolding trim_slashes
trim_slashes-append [] name h shown = rw (trim_slashes_slashless name h, shown) refl
trim_slashes-append (c ∷ front) name h shown =
    rw (trim_slashes-append front name h shown, append_shown front b'/' name) refl

-- A path that is a name, or ends in one behind a slash.
unfoldable pub Ends : Str → Str → Type 0
Ends name path = (path ≡ name) ⊎ ((front : Str) × (path ≡ front ++ b'/' ∷ name))

base_name_plain : (name : Str) → IsPlain name → base_name name ≡ name
unfolding base_name
base_name_plain name plain =
    rw
      (
        trim_slashes_slashless name plain.slashless,
        plain.shown,
        after_last-none b'/' name plain.slashless,
      )
      (trim_slashes_slashless name plain.slashless)

base_name-append : (front name : Str) → IsPlain name → base_name (front ++ b'/' ∷ name) ≡ name
unfolding base_name
base_name-append front name plain =
    rw
      (
        trim_slashes-append front name plain.slashless plain.shown,
        append_shown front b'/' name,
        after_last-append b'/' front name plain.slashless,
      )
      refl

pub base_name-Ends : (name path : Str) → IsPlain name → Ends name path → base_name path ≡ name
unfolding Ends
base_name-Ends name path plain (inl same) = ap base_name same ∙ base_name_plain name plain
base_name-Ends name path plain (inr (front, same)) =
    ap base_name same ∙ base_name-append front name plain
