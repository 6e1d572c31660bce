-- ===== src/Sort.antt =====
-- Python's `sorted` on texts.
pub mod Perms
use snap_cook.Common.{Str, str_lt, List, [], ◌∷◌, if◌then◌else◌}

-- The order is that of the code points.
unfoldable pub insert_text : Str → List Str → List Str
insert_text s [] = s ∷ []
insert_text s (t ∷ l) = if str_lt t s then t ∷ insert_text s l else s ∷ t ∷ l

unfoldable pub sorted : List Str → List Str
unfolding insert_text
sorted [] = []
sorted (s ∷ l) = insert_text s (sorted l)
