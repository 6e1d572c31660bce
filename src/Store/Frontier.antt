-- ===== src/Store/Frontier.antt =====
-- The frontier of the loop of `history`, and the number of ids that may still come to it.
use snap_cook.Common.{
  some-injective, if_true, if_false, Str, str_eq, str_eq_iff, str_eq_refl, str_eq_comm, ℕ, suc, ◌+◌,
  ◌≤◌, ◌≡◌, refl, sym, ◌∙◌, ap, ◌⊎◌, ◌||◌, inl, inr, Bool, true, false, Option, none, some, List,
  [], ◌∷◌, map, length, if◌then◌else◌, Bool-cases, Option-cases, arith,
}
use snap_cook.Dict.{Dict, get, mem}
use snap_cook.Store.{VersionRecord}
use snap_cook.Worklist.Containers.{pop_last}

abbrev pub version_ids : List VersionRecord → List Str
version_ids out = map (λ (r : VersionRecord). r.version_id) out

abbrev pub is_none : Option VersionRecord → Bool
is_none none = true
is_none (some r) = false

-- The parents that the versions outside `seen` may still bring to the frontier.
unfoldable pub pending : List Str → Dict VersionRecord → ℕ
pending seen [] = 0
pending seen ((k, r) ∷ d) = (if mem k seen then 0 else length r.parents) + pending seen d

pub pending-seen :
    (k : Str) (seen : List Str) (d : Dict VersionRecord) → pending (k ∷ seen) d ≤ pending seen d
unfolding pending mem
pending-seen k seen [] = omega arith
pending-seen k seen ((j, r) ∷ d) = ground (arith, pending-seen k seen d)

pub pending-drop :
    (k : Str) (seen : List Str) (d : Dict VersionRecord) (r : VersionRecord)
    → mem k seen ≡ false
    → get d k ≡ some r
    → pending (k ∷ seen) d + length r.parents ≤ pending seen d
unfolding pending mem get
pending-drop k seen [] r h e = cc
pending-drop k seen ((j, q) ∷ d) r h e = elim (Bool-cases (str_eq j k)) [
  | inl same ↦
      let unseen : mem j seen ≡ false = rw ((str_eq_iff j k).0 same) h in
      let found : q ≡ r = some-injective (sym (if_true (some q) (get d k) same) ∙ e) in
      ground (
        arith,
        str_eq_comm k j,
        pending-seen k seen d,
        ap (λ (x : VersionRecord). length x.parents) found,
      )
  | inr other ↦ ground (
    arith,
    str_eq_comm k j,
    pending-drop k seen d r h (sym (if_false (some q) (get d k) other) ∙ e),
  )
]

pub pop_last-none : (l : List Str) → pop_last l ≡ none → l ≡ []
unfolding pop_last
pop_last-none [] e = refl
pop_last-none (x ∷ xs) e = ground arith

pub length-pop_last :
    (l rest : List Str) (x : Str) → pop_last l ≡ some (x, rest) → length l ≡ suc (length rest)
unfolding pop_last
length-pop_last [] rest x e = cc
length-pop_last (y ∷ ys) rest x e = elim (Option-cases (pop_last ys)) [
  | inl q ↦ ground (arith, pop_last-none ys q)
  | inr ((z, zs), q) ↦ ground (arith, length-pop_last ys zs z q)
]

mem-pop_last :
    (l rest : List Str) (x v : Str)
    → pop_last l ≡ some (x, rest)
    → mem v l ≡ (str_eq x v || mem v rest)
unfolding pop_last mem
mem-pop_last [] rest x v e = cc
mem-pop_last (y ∷ ys) rest x v e = elim (Option-cases (pop_last ys)) [
  | inl q ↦ ground (arith, pop_last-none ys q)
  | inr ((z, zs), q) ↦ ground (arith, mem-pop_last ys zs z v q)
]

pub mem-rest :
    (l rest : List Str) (x v : Str)
    → pop_last l ≡ some (x, rest)
    → mem v rest ≡ true
    → mem v l ≡ true
mem-rest l rest x v e h = ground (arith, mem-pop_last l rest x v e)

pub mem-last : (l rest : List Str) (x : Str) → pop_last l ≡ some (x, rest) → mem x l ≡ true
mem-last l rest x e = ground (arith, mem-pop_last l rest x x e, str_eq_refl x)

pub last_or_rest :
    (l rest : List Str) (x v : Str)
    → pop_last l ≡ some (x, rest)
    → mem v l ≡ true
    → (x ≡ v) ⊎ (mem v rest ≡ true)
last_or_rest l rest x v e h = elim (Bool-cases (str_eq x v)) [
  | inl same ↦ inl ((str_eq_iff x v).0 same)
  | inr other ↦ inr (ground (arith, mem-pop_last l rest x v e))
]
