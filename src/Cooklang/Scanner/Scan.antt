-- ===== src/Cooklang/Scanner/Scan.antt =====
-- cooklang/parse.py: the scan of a step ends and keeps its parts consistent.
use snap_cook.Common.{Str, ℕ, zero, suc, ◌≤◌, [], ◌∷◌, ◌++◌, length, arith, Option, none, some}
use snap_cook.Dict.{Dict}
use snap_cook.Registry.{IngredientRegistry}
use snap_cook.Cooklang.Safe.{Safe, ok-Safe, >>=-Safe}
use snap_cook.Cooklang.Scanner.{Parsed, Token, flush, run}
use snap_cook.Cooklang.Scanner.Kept.{Consistent}
use snap_cook.Cooklang.Scanner.Parts.{Consistent-chunk, Consistent-flush, Consistent-flushed}
use snap_cook.Cooklang.Scanner.Tokens.{Step, try_token-Safe}

module _ (lower : Str → Str) (index : ℕ) (lang : Str) (registry : IngredientRegistry)
    (names : Dict Str) where
  -- Behind a token, or a character that starts none.
  next-Safe :
      (fuel : ℕ) (ch : ℕ) (s literal : Str) (p : Parsed) (marker : Option Token)
      → Consistent index p
      → Step index (length s) marker
      → ((end literal : Str) (q : Parsed)
          → length end ≤ length s
          → Consistent index q
          → Safe (Consistent index) (run lower index lang registry names fuel end literal q))
      → Safe (Consistent index) (elim marker [
        | none ↦ run lower index lang registry names fuel s (literal ++ ch ∷ []) p
        | some (chunk, end, p') ↦
            let flushed = flush lang literal p' in
            run lower index lang registry names fuel end []
              (record flushed { chunks = flushed.chunks ++ chunk ∷ [] })
      ])
  unfolding Step
  next-Safe fuel ch s literal p none h step again = again s (literal ++ ch ∷ []) p (omega arith) h
  next-Safe fuel ch s literal p (some (chunk, end, p')) h (short, kept, here) again =
      let flushed = Consistent-flush index lang literal p' chunk kept here in
      again end [] _ short
        (Consistent-chunk index chunk (flush lang literal p') flushed.0 flushed.1)

  -- With as much fuel as there are characters, a scan from consistent parts ends: with one of the
  -- two errors, or with consistent parts.
  pub run-Safe :
      (fuel : ℕ) (s literal : Str) (p : Parsed)
      → length s ≤ fuel
      → Consistent index p
      → Safe (Consistent index) (run lower index lang registry names fuel s literal p)
  unfolding run
  run-Safe fuel [] literal p le h =
      ok-Safe (Consistent index) _ (Consistent-flushed index lang literal p h)
  run-Safe zero (ch ∷ s) literal p le h = absurd (omega (arith, le))
  run-Safe (suc fuel) (ch ∷ s) literal p le h =
      >>=-Safe (Step index (length s)) (Consistent index) _ _
        (try_token-Safe lower index lang registry names ch s p h)
        (λ marker step. next-Safe fuel ch s literal p marker h step (λ end literal' q short kept.
          run-Safe fuel end literal' q (omega (arith, le, short)) kept))
