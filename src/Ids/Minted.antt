-- ===== src/Ids/Minted.antt =====
-- A minted id tells its type.
use snap_cook.Common.{
  Str, str_eq, str_eq_iff, ◌==◌, ◌≡◌, refl, ◌∙◌, ap, subst, Bool, true, not, ◌&&◌, some, List, [],
  ◌∷◌, Bool-cases, inl, inr, arith,
}
use snap_cook.Dict.{mem}
use snap_cook.Ids.{
  all_prefixes, partition_underscore, known_prefix, has_form, prefix_of, is_id_of, mint,
}

unfoldable is_plain : Str → Bool
is_plain [] = true
is_plain (c ∷ s) = not (c == 95) && is_plain s

unfoldable are_plain : List Str → Bool
unfolding is_plain
are_plain [] = true
are_plain (s ∷ l) = is_plain s && are_plain l

plain-of_mem : (s : Str) (l : List Str) → are_plain l ≡ true → mem s l ≡ true → is_plain s ≡ true
unfolding are_plain mem
plain-of_mem s [] h k = cc
plain-of_mem s (t ∷ l) h k = elim (Bool-cases (str_eq t s)) [
  | inl e ↦ subst (λ (x : Str). is_plain x ≡ true) ((str_eq_iff t s).0 e) (ground arith)
  | inr e ↦ plain-of_mem s l (ground arith) (ground arith)
]

partition-mint : (p u : Str) → is_plain p ≡ true → partition_underscore (mint p u) ≡ (p, some u)
unfolding partition_underscore mint is_plain
partition-mint [] u h = refl
partition-mint (c ∷ p) u h = ground (arith, partition-mint p u)

prefixes_plain : are_plain all_prefixes ≡ true
unfolding are_plain
prefixes_plain = refl

-- An id minted with one of the prefixes has that prefix, and is an id of a type exactly if it is
-- that of the prefix and the text behind it is a ULID.
pub mint-prefix_of :
    (is_ulid : Str → Bool) (p u q : Str)
    → mem p all_prefixes ≡ true
    → (prefix_of (mint p u) ≡ some p) × (is_id_of is_ulid (mint p u) q ≡ (str_eq p q && is_ulid u))
unfolding prefix_of is_id_of
mint-prefix_of is_ulid p u q known =
    let parts = partition-mint p u (plain-of_mem p all_prefixes prefixes_plain known) in
    (ap known_prefix parts ∙ rw known refl, ap (has_form is_ulid q) parts)
