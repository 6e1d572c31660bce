-- ===== src/Cooklang/Quantities/Places.antt =====
-- cooklang/parse.py reads the amounts that cooklang/print_.py writes: which amounts have a place
-- in the notation.
use mathlib.Core.Path.{ap₂}
use snap_cook.Common.{
  Str, codes, ◌<◌, ◌≡◌, refl, sym, ap, ◌∙◌, subst, Bool, true, false, Option, none, some, ◌∷◌, ◌++◌,
  length, length-append, arith,
}
use snap_cook.Errors.{ok}
use snap_cook.Decimal.{Decimal}
use snap_cook.Schema.Quantity.{
  Quantity, QuantitySpec, ScalingPolicy, linear, invariant, manual, nonlinear, scalar, range, count,
  approx, SizeGrade, UnitRef, range_ordered, count_ordered,
}
use snap_cook.Units.Registry.{strip_right}
use snap_cook.Cooklang.Numbers.{break_at, is_number}
use snap_cook.Cooklang.Numbers.Digits.{All}
use snap_cook.Cooklang.Numbers.Plain.{canonical, is_numeric, append_mark}
use snap_cook.Cooklang.Quantities.{
  stripped, policy, parse_with_unit, token_of, parse_body, behind_mark,
}
use snap_cook.Cooklang.Quantities.RoundTrip.{
  unit_of, PlainUnit, Marked, strip_right-append, strip_left-append, marked_end, parse_body-unit,
}
use snap_cook.Cooklang.Printer.{is_invariant}

-- The same quantity, with its numbers as they are read.
unfoldable pub again : Quantity → Quantity
again (scalar s) = scalar (record s { value = canonical s.value })
again (range r) = range (record r { low = canonical r.low; high = canonical r.high })
again (count c) = count (record c {
  value = canonical c.value;
  high = elim c.high [ none ↦ none | some high ↦ some (canonical high) ];
})
again (approx a) = approx a

abbrev pub WordsAt : Option (Str × Str) → Type 0
WordsAt none = Unit
WordsAt (some p) = is_number p.0 ≡ false

-- A text that has no number in front of a dash.
abbrev pub Words : Str → Type 0
Words s = WordsAt (break_at 45 s)

-- The counts that are written as they are read: with a size, alone, or between two numbers.
abbrev pub PrintedCount :
    Decimal → (high : Option Decimal) → Option SizeGrade → ScalingPolicy → Type 0
PrintedCount value none (some size) p = p ≡ linear
PrintedCount value (some high) (some size) p = ⊥
PrintedCount value none none p = (value.neg ≡ false) × Marked p
PrintedCount value (some high) none p =
    (value.neg ≡ false)
    × (count_ordered (record { value = canonical value; high = some (canonical high); size = none })
        ≡ true)
    × (p ≡ linear)

-- The quantities that the notation has a place for.
unfoldable pub Printed : (lower : Str → Str) → Quantity → ScalingPolicy → Type 0
Printed lower (scalar s) p = (s.value.neg ≡ false) × PlainUnit s.unit × Marked p
Printed lower (range r) p =
    (r.low.neg ≡ false)
    × PlainUnit r.unit
    × (range_ordered (record r { low = canonical r.low; high = canonical r.high }) ≡ true)
    × Marked p
Printed lower (count c) p = PrintedCount c.value c.high c.size p
Printed lower (approx a) p =
    (stripped a.surface ≡ a.surface)
    × (0 < length a.surface)
    × (break_at 37 a.surface ≡ none)
    × (is_number a.surface ≡ false)
    × Words a.surface
    × (a.token ≡ token_of lower a.surface)
    × (a.nominal ≡ none)
    × (p ≡ invariant)

pub policy_again :
    (q : Quantity) (p : ScalingPolicy)
    → Marked p
    → policy (is_invariant (some (record { quantity = q; scaling = p }))) ≡ p
policy_again q linear h = refl
policy_again q invariant h = refl
policy_again q manual h = absurd h
policy_again q nonlinear h = absurd h

-- A text that is not blank, and what it is read as.
abbrev pub Reads : (lower : Str → Str) → Str → Bool → QuantitySpec → Type 0
Reads lower s inv spec = (stripped s ≡ s) × (0 < length s) × (parse_body lower s inv ≡ ok spec)

pub stripped-append :
    (s t : Str)
    → All is_numeric s
    → 0 < length s
    → strip_right t ≡ t
    → 0 < length t
    → stripped (s ++ t) ≡ s ++ t
stripped-append s t hs ps ht pt =
    ap strip_right (strip_left-append s t hs ps) ∙ strip_right-append s t ht pt

pub stripped-unit :
    (s surface : Str)
    → All is_numeric s
    → 0 < length s
    → stripped surface ≡ surface
    → stripped (s ++ codes "%" ++ surface) ≡ s ++ codes "%" ++ surface
stripped-unit s surface hs ps h =
    subst (λ t. stripped t ≡ t) (sym (append_mark s surface 37))
      (stripped-append s (37 ∷ surface) hs ps (marked_end surface h) (omega arith))

pub some_append : (s t : Str) → 0 < length s → 0 < length (s ++ t)
some_append s t p = omega (arith, length-append s t, p)

pub some_append3 : (s t u : Str) → 0 < length s → 0 < length (s ++ t ++ u)
some_append3 s t u p = some_append (s ++ t) u (some_append s t p)

pub Reads-unit :
    (lower : Str → Str) (s : Str) (u : UnitRef) (q : UnitRef → Quantity) (p : ScalingPolicy)
    (inv : Bool)
    → All is_numeric s
    → 0 < length s
    → PlainUnit (some u)
    → policy inv ≡ p
    → parse_with_unit s u.surface ≡ ok (q (unit_of u.surface))
    → Reads lower (behind_mark s (some u)) inv (record { quantity = q u; scaling = p })
Reads-unit lower s u q p inv all ps (plain, no_size, e) hp reads = (
  stripped-unit s u.surface all ps plain,
  some_append3 s (codes "%") u.surface ps,
  parse_body-unit lower s u.surface inv (q (unit_of u.surface)) all plain no_size reads
      ∙ ap₂ (λ v p. ok (record { quantity = q v; scaling = p })) (sym e) hp,
)
