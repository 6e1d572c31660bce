-- ===== src/Dict.antt =====
-- Python's `dict` with string keys, in insertion order: a write to a key that is there keeps its
-- place, a new key goes to the end.
pub mod Laws
pub mod Perms
use snap_cook.Common.{
  Str, str_eq, str_eq_iff, str_eq_refl, ℕ, ◌≡◌, refl, ◌≢◌, Bool, true, false, ◌||◌, ◌&&◌, not,
  Option, none, some, List, [], ◌∷◌, ◌++◌, map, if◌then◌else◌, arith,
}
use snap_cook.Errors.{Result, ok, err, key_error}

abbrev pub Dict {ℓ} : Type ℓ → Type ℓ
Dict V = List (Str × V)

unfoldable pub mem : Str → List Str → Bool
mem k [] = false
mem k (j ∷ l) = str_eq j k || mem k l

module _ {ℓ} {V : Type ℓ} where
  -- d.get(k)
  unfoldable pub get : Dict V → Str → Option V
  get [] k = none
  get ((j, v) ∷ d) k = if str_eq j k then some v else get d k

  -- d[k] = v
  unfoldable pub set : Str → V → Dict V → Dict V
  set k v [] = (k, v) ∷ []
  set k v ((j, w) ∷ d) = if str_eq j k then (j, v) ∷ d else (j, w) ∷ set k v d

  -- d[k]
  unfoldable pub fetch : Dict V → Str → Result V
  fetch d k = elim (get d k) [ none ↦ err key_error | some v ↦ ok v ]

  abbrev pub keys : Dict V → List Str
  keys d = map (λ e. e.0) d

  -- A comprehension `{k: v for …}`: the pairs are written one after the other.
  unfoldable pub put_all : List (Str × V) → Dict V → Dict V
  put_all [] d = d
  put_all ((k, v) ∷ l) d = put_all l (set k v d)

  pub get-set :
      (k j : Str) (v : V) (d : Dict V)
      → get (set k v d) j ≡ (if str_eq k j then some v else get d j)
  unfolding get set
  get-set k j v [] = refl
  get-set k j v ((i, w) ∷ d) =
      ground (arith, str_eq_iff k j, str_eq_iff i k, str_eq_iff i j, get-set k j v d)

  pub fetch-congr : (d e : Dict V) (k : Str) → get d k ≡ get e k → fetch d k ≡ fetch e k
  unfolding fetch
  fetch-congr d e k h = ground arith

  pub fetch-some : (d : Dict V) (k : Str) (v : V) → get d k ≡ some v → fetch d k ≡ ok v
  unfolding fetch
  fetch-some d k v h = rw (h, fetch)

-- `len(set(l)) == len(l)`
unfoldable pub distinct : List Str → Bool
unfolding mem
distinct [] = true
distinct (k ∷ l) = not (mem k l) && distinct l
