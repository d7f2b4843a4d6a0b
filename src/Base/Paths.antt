-- ===== src/Base/Paths.antt =====
-- path/filepath on Unix: Clean, Join, IsAbs.
use thunder_device_plugin.Base.{
  Bool, false, not, ◌&&◌, ◌||◌, List, [], ◌∷◌, Str, ◌==◌, text_eq, str_eq, codes, ◌≡◌, refl, is_nil,
  split, join, keep, eqb, if◌then◌else◌,
}

unfoldable pub is_abs : Str → Bool
is_abs [] = false
is_abs (c ∷ s) = eqb c b'/'

abbrev dots : Str
dots = b'.' ∷ b'.' ∷ []

-- One element of the path against the elements kept so far, the last one first.
unfoldable pub clean_step : Bool → List Str → Str → List Str
clean_step rooted [] part = if part == dots && rooted then [] else part ∷ []
clean_step rooted (last ∷ kept) part =
    if part == dots && not (last == dots) then kept else part ∷ last ∷ kept

unfoldable pub clean_from : Bool → List Str → List Str → List Str
unfolding clean_step str_eq
clean_from rooted kept [] = kept
clean_from rooted kept (part ∷ parts) =
    clean_from rooted
      (if is_nil part || part == (b'.' ∷ []) then kept else clean_step rooted kept part) parts

unfoldable pub reverse_onto : List Str → List Str → List Str
reverse_onto [] done = done
reverse_onto (x ∷ xs) done = reverse_onto xs (x ∷ done)

unfoldable pub clean_parts : Bool → List Str → Str
unfolding clean_from reverse_onto join
clean_parts rooted parts =
    let body = join (b'/' ∷ []) (reverse_onto (clean_from rooted [] parts) []) in
    if rooted then b'/' ∷ body else if is_nil body then b'.' ∷ [] else body

-- filepath.Clean: empty and "." elements go, ".." takes the element before it.
unfoldable pub clean : Str → Str
unfolding is_abs clean_parts split
clean path = clean_parts (is_abs path) (split b'/' path)

-- filepath.Join: the elements that are not empty, joined and cleaned; "" when there are none.
unfoldable pub join_paths : List Str → Str
unfolding clean
join_paths parts =
    let present = keep (λ part. not (is_nil part)) parts in
    if is_nil present then [] else clean (join (b'/' ∷ []) present)

clean_mixed : clean (codes "/a/./b/../../c//d/..") ≡ codes "/c"
unfolding clean codes
clean_mixed = refl

clean_relative : clean (codes "../../a/..") ≡ codes "../.."
unfolding clean codes
clean_relative = refl

join_host : join_paths (codes "/host" ∷ codes "usr/bin" ∷ []) ≡ codes "/host/usr/bin"
unfolding join_paths codes
join_host = refl
