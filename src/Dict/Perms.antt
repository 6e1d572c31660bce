-- ===== src/Dict/Perms.antt =====
-- A dictionary does not depend on the order in which different keys are written.
use mathlib.Core.List.{Permᴰ}
use mathlib.Core.List.Permᴰ
use snap_cook.Common.{
  Str, str_eq_refl, ◌≡◌, refl, ap, map, sym, ◌∙◌, subst, true, false, some, List, [], ◌∷◌, arith,
  Option-cases, inl, inr,
}
use snap_cook.Dict.{Dict, mem, distinct, get, set, get-set, keys, put_all}
use snap_cook.Dict.Laws.{Entries, put_all-Entries, get-Entries}

module _ {V : Type 0} where
  pub get-put_all_other :
      (l : List (Str × V)) (d : Dict V) (n : Str)
      → mem n (keys l) ≡ false
      → get (put_all l d) n ≡ get d n
  unfolding put_all mem
  get-put_all_other [] d n h = refl
  get-put_all_other ((k, v) ∷ l) d n h =
      ground (arith, get-put_all_other l (set k v d) n, get-set k n v d)

  -- Written under different keys, each value is found.
  pub get-put_all_own :
      (l : List (Str × V)) (d : Dict V)
      → distinct (keys l) ≡ true
      → Entries (λ k v. get (put_all l d) k ≡ some v) l
  unfolding put_all distinct
  get-put_all_own [] d h = tt
  get-put_all_own ((k, v) ∷ l) d h = (
    get-put_all_other l (set k v d) k (ground arith)
        ∙ ground (arith, get-set k k v d, str_eq_refl k),
    get-put_all_own l (set k v d) (ground arith),
  )

  Entries-perm :
      (P : Str → V → Type 0) {l m : List (Str × V)} → Permᴰ l m → Entries P m → Entries P l
  Entries-perm P Permᴰ.nil h = tt
  Entries-perm P (Permᴰ.cons e p) h =
      (subst (λ (kv : Str × V). P kv.0 kv.1) (sym e) h.0, Entries-perm P p h.1)
  Entries-perm P (Permᴰ.swap e f) h = (
    subst (λ (kv : Str × V). P kv.0 kv.1) (sym e) h.1.0,
    (subst (λ (kv : Str × V). P kv.0 kv.1) (sym f) h.0, h.1.1),
  )
  Entries-perm P (Permᴰ.trans p q) h = Entries-perm P p (Entries-perm P q h)

  get-put_all-some :
      {l m : List (Str × V)} (n : Str) (v : V)
      → Permᴰ l m
      → distinct (keys m) ≡ true
      → get (put_all l []) n ≡ some v
      → get (put_all m []) n ≡ some v
  get-put_all-some {l} {m} n v p once found =
      get-Entries P (put_all l []) n v
        (put_all-Entries P l [] (Entries-perm P p (get-put_all_own m [] once)) tt) found
    where
      P : Str → V → Type 0
      P k w = get (put_all m []) k ≡ some w

  pub get-put_all_perm :
      {l m : List (Str × V)} (n : Str)
      → Permᴰ l m
      → distinct (keys l) ≡ true
      → distinct (keys m) ≡ true
      → get (put_all l []) n ≡ get (put_all m []) n
  get-put_all_perm {l} {m} n p l_once m_once = elim (Option-cases (get (put_all l []) n)) [
    | inr (v, e) ↦ e ∙ sym (get-put_all-some n v p m_once e)
    | inl e ↦ elim (Option-cases (get (put_all m []) n)) [
      | inl f ↦ e ∙ sym f
      | inr (w, f) ↦ cc (get-put_all-some n w (Permᴰ.symm p) l_once f)
    ]
  ]

pub keys-map {ℓ} :
    {A V : Type ℓ} (f : A → Str) (g : A → V) (l : List A)
    → keys (map (λ (a : A). (f a, g a)) l) ≡ map f l
keys-map f g [] = refl
keys-map f g (a ∷ l) = ap (λ (r : List Str). f a ∷ r) (keys-map f g l)

module _ {A V : Type 0} (f : A → Str) (g : A → V) where
  -- A comprehension over a list of things with different keys may take them in any order.
  pub get-comprehension :
      {l m : List A} (n : Str)
      → Permᴰ l m
      → distinct (map f l) ≡ true
      → distinct (map f m) ≡ true
      → get (put_all (map (λ (a : A). (f a, g a)) l) []) n
        ≡ get (put_all (map (λ (a : A). (f a, g a)) m) []) n
  get-comprehension {l} {m} n p l_once m_once =
      get-put_all_perm n (Permᴰ.map (λ (a : A). (f a, g a)) p) (rw (keys-map f g l) l_once)
        (rw (keys-map f g m) m_once)
