-- ===== src/Dict/Laws.antt =====
-- The keys of a dictionary, and what a comprehension builds.
use snap_cook.Common.{
  Str, str_eq, str_eq_iff, ◌≡◌, refl, true, false, ◌||◌, none, some, List, [], ◌∷◌, map,
  if◌then◌else◌, arith, Bool-cases, inl, inr, Option-cases, subst, sym, ◌∙◌,
}
use snap_cook.Dict.{Dict, mem, distinct, get, set, keys, put_all, get-set}

module _ {ℓ} {V : Type ℓ} where
  pub get-eq_none : (d : Dict V) (k : Str) → mem k (keys d) ≡ false → get d k ≡ none
  unfolding get mem
  get-eq_none [] k h = refl
  get-eq_none ((j, v) ∷ d) k h = ground (arith, get-eq_none d k)

  pub mem-keys : (d : Dict V) (k : Str) (v : V) → get d k ≡ some v → mem k (keys d) ≡ true
  unfolding get mem
  mem-keys [] k v h = cc
  mem-keys ((j, w) ∷ d) k v h = ground (arith, mem-keys d k v)

  not_mem-of_none : (d : Dict V) (k : Str) → get d k ≡ none → mem k (keys d) ≡ false
  unfolding get mem
  not_mem-of_none [] k h = refl
  not_mem-of_none ((j, v) ∷ d) k h = ground (arith, not_mem-of_none d k)

  pub get-of_mem : (d : Dict V) (k : Str) → mem k (keys d) ≡ true → (v : V) × (get d k ≡ some v)
  get-of_mem d k h = elim (Option-cases (get d k)) [
    | inl e ↦ cc (not_mem-of_none d k e)
    | inr found ↦ found
  ]

  pub mem-keys_eq : (d e : Dict V) (k : Str) → get d k ≡ get e k → mem k (keys d) ≡ mem k (keys e)
  mem-keys_eq d e k h = elim (Option-cases (get d k)) [
    | inl n ↦ cc (not_mem-of_none d k n, not_mem-of_none e k (sym h ∙ n))
    | inr (v, f) ↦ cc (mem-keys d k v f, mem-keys e k v (sym h ∙ f))
  ]

  pub mem-keys-set :
      (k n : Str) (v : V) (d : Dict V) → mem n (keys (set k v d)) ≡ (str_eq k n || mem n (keys d))
  unfolding set mem
  mem-keys-set k n v [] = refl
  mem-keys-set k n v ((j, w) ∷ d) = ground (arith, mem-keys-set k n v d, str_eq_iff j k)

  pub distinct-set :
      (k : Str) (v : V) (d : Dict V) → distinct (keys d) ≡ true → distinct (keys (set k v d)) ≡ true
  unfolding set distinct mem
  distinct-set k v [] h = refl
  distinct-set k v ((j, w) ∷ d) h =
      ground (arith, distinct-set k v d, mem-keys-set k j v d, str_eq_iff j k, str_eq_iff k j)

  pub mem-put_all :
      (l : List (Str × V)) (d : Dict V) (n : Str)
      → mem n (keys (put_all l d)) ≡ (mem n (keys l) || mem n (keys d))
  unfolding put_all mem
  mem-put_all [] d n = refl
  mem-put_all ((k, v) ∷ l) d n = ground (arith, mem-put_all l (set k v d) n, mem-keys-set k n v d)

  pub distinct-put_all :
      (l : List (Str × V)) (d : Dict V)
      → distinct (keys d) ≡ true
      → distinct (keys (put_all l d)) ≡ true
  unfolding put_all
  distinct-put_all [] d h = h
  distinct-put_all ((k, v) ∷ l) d h = distinct-put_all l (set k v d) (distinct-set k v d h)

  -- A constant comprehension holds its value at its keys.
  pub get-put_const :
      (c : V) (l : List Str) (d : Dict V) (n : Str)
      → get (put_all (map (λ (k : Str). (k, c)) l) d) n ≡ (if mem n l then some c else get d n)
  unfolding put_all mem
  get-put_const c [] d n = refl
  get-put_const c (k ∷ l) d n = ground (arith, get-put_const c l (set k c d) n, get-set k n c d)

module _ {ℓ κ} {V : Type ℓ} (P : Str → V → Type κ) where
  -- Every entry of the dictionary satisfies `P`.
  abbrev pub Entries : Dict V → Type κ
  Entries [] = Unit
  Entries ((k, v) ∷ d) = P k v × Entries d

  set-Entries : (k : Str) (v : V) (d : Dict V) → P k v → Entries d → Entries (set k v d)
  unfolding set
  set-Entries k v [] p e = (p, tt)
  set-Entries k v ((j, w) ∷ d) p e = elim (Bool-cases (str_eq j k)) [
    | inl same ↦ rw same (subst (λ (i : Str). P i v) (sym ((str_eq_iff j k).0 same)) p, e.1)
    | inr other ↦ rw other (e.0, set-Entries k v d p e.1)
  ]

  pub put_all-Entries :
      (l : List (Str × V)) (d : Dict V) → Entries l → Entries d → Entries (put_all l d)
  unfolding put_all
  put_all-Entries [] d p e = e
  put_all-Entries ((k, v) ∷ l) d p e = put_all-Entries l (set k v d) p.1 (set-Entries k v d p.0 e)

  pub get-Entries : (d : Dict V) (k : Str) (v : V) → Entries d → get d k ≡ some v → P k v
  unfolding get
  get-Entries [] k v e h = cc
  get-Entries ((j, w) ∷ d) k v e h = elim (Bool-cases (str_eq j k)) [
    | inl same ↦
        let found : w ≡ v = ground arith in
        subst (λ (i : Str). P i v) ((str_eq_iff j k).0 same) (subst (P j) found e.0)
    | inr other ↦ get-Entries d k v e.1 (ground arith)
  ]
