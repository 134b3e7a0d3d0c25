-- ===== src/Migrations/Statements.antt =====
-- migrations/runner.go: `splitStatements`, one step of its loop for each rune. The `strings.TrimSpace`
-- of the library is a parameter.
use linka_plays_metric.Prelude.{
  ℕ, List, [], ◌∷◌, Bool, true, false, ◌||◌, ◌&&◌, eqb, if◌then◌else◌, Result, ok, err, message,
}

-- Where the loop stands: outside, in a comment, or in a quote of the given rune, behind a backslash or
-- not.
pub data Mode : Type 0 where
  plain line_comment block_comment : Mode
  quoted : (quote : ℕ) → (escaped : Bool) → Mode

-- The statements so far, the runes of the current one, both newest first, and the mode.
pub record Splitter : Type 0 where
  pub statements : List (List ℕ)
  pub current : List ℕ
  pub mode : Mode

abbrev pub write : ℕ → Splitter → Splitter
write c s = record s { current = c ∷ s.current }

module _ (trim_space : List ℕ → List ℕ) where
  abbrev pub reverse : List ℕ → List ℕ → List ℕ
  reverse [] acc = acc
  reverse (c ∷ cs) acc = reverse cs (c ∷ acc)

  abbrev pub keep : List ℕ → List (List ℕ) → List (List ℕ)
  keep [] statements = statements
  keep (c ∷ cs) statements = (c ∷ cs) ∷ statements

  unfoldable pub flush : Splitter → Splitter
  flush s = record s {
    statements = keep (trim_space (reverse s.current [])) s.statements;
    current = [];
  }

  abbrev in_order : List (List ℕ) → List (List ℕ) → List (List ℕ)
  in_order [] acc = acc
  in_order (x ∷ xs) acc = in_order xs (x ∷ acc)

  -- What the loop does at a rune outside of quotes and comments, and whether it skips the next one.
  unfoldable pub step_plain : ℕ → ℕ → Splitter → Splitter × Bool
  step_plain c next s =
      if eqb c b'-' && eqb next b'-'
      then (record (write b' ' s) { mode = line_comment }, true)
      else if eqb c b'/' && eqb next b'*'
      then (record (write b' ' s) { mode = block_comment }, true)
      else if eqb c b'\'' || eqb c b'"' || eqb c b'`'
      then (record (write c s) { mode = quoted c false }, false)
      else if eqb c b';'
      then (flush s, false)
      else (write c s, false)

  unfoldable pub step : Mode → ℕ → ℕ → Splitter → Splitter × Bool
  step plain c next s = step_plain c next s
  step line_comment c next s =
      if eqb c b'\n' then (record (write c s) { mode = plain }, false) else (s, false)
  step block_comment c next s =
      if eqb c b'*' && eqb next b'/' then (record s { mode = plain }, true) else (s, false)
  step (quoted q true) c next s = (record (write c s) { mode = quoted q false }, false)
  step (quoted q false) c next s =
      if eqb c b'\\'
      then (record (write c s) { mode = quoted q true }, false)
      else if eqb c q
      then (if eqb next q
          then (write next (write c s), true)
          else (record (write c s) { mode = plain }, false))
      else (write c s, false)

  abbrev next_rune : List ℕ → ℕ
  next_rune [] = 0
  next_rune (c ∷ cs) = c

  -- The loop; `skip` says that the turn before has taken this rune as well.
  unfoldable pub scan : (skip : Bool) → List ℕ → Splitter → Splitter
  scan skip [] s = s
  scan true (c ∷ cs) s = scan false cs s
  scan false (c ∷ cs) s = let (t, skip) = step s.mode c (next_rune cs) s in scan skip cs t

  abbrev is_open : Mode → Bool
  is_open plain = false
  is_open line_comment = false
  is_open block_comment = true
  is_open (quoted _ _) = true

  unfoldable pub split_statements : List ℕ → Result (List (List ℕ))
  split_statements input =
      let end = scan false input (record { statements = []; current = []; mode = plain }) in
      if is_open end.mode
      then err (message "unterminated SQL quote or block comment")
      else ok (in_order (flush end).statements [])
