-- ===== src/Migrations/Loading.antt =====
-- migrations/runner.go: `Load`, over the embedded files in the order of their names. The functions of
-- the library that it calls are parameters.
use linka_plays_metric.Prelude.{
  String, ℕ, List, [], ◌∷◌, map, Bool, true, false, not, ◌||◌, eqb, if◌then◌else◌, Result, ok, err,
  message, guard, wrap, ◌>>=◌, ◌>>◌, Option, none, some, codes,
}
use linka_plays_metric.Migrations.Statements.{split_statements}
use linka_plays_metric.Migrations.Runner.{Migration}

-- `strconv.ParseUint(_, 10, 32)`, the SHA-256 in hexadecimal, `strings.TrimSpace`, and the text of
-- a list of runes.
pub record Library : Type 0 where
  pub parse_uint : List ℕ → Option ℕ
  pub checksum : String → String
  pub trim_space : List ℕ → List ℕ
  pub to_text : List ℕ → String

-- `strings.IndexByte(name, '_') == 3`, with the three characters in front.
abbrev pub prefix : List ℕ → Option (List ℕ)
prefix (a ∷ b ∷ c ∷ d ∷ rest) =
    if not (eqb a b'_' || eqb b b'_' || eqb c b'_')
    then (if eqb d b'_' then some (a ∷ b ∷ c ∷ []) else none)
    else none
prefix _ = none

abbrev pub has_version : ℕ → List ℕ → Bool
has_version version [] = false
has_version version (v ∷ seen) = eqb v version || has_version version seen

abbrev pub is_nil : List (List ℕ) → Bool
is_nil [] = true
is_nil (_ ∷ _) = false

abbrev pub found_prefix : Option (List ℕ) → Result (List ℕ)
found_prefix none = err (message "migration must start with a three-digit version")
found_prefix (some digits) = ok digits

abbrev pub found_version : Option ℕ → Result ℕ
found_version none = err (message "migration has invalid version")
found_version (some version) =
    if eqb version 0 then err (message "migration has invalid version") else ok version

module _ (library : Library) where
  -- One turn of the loop; `seen` has the versions so far.
  unfoldable pub load_file : (name : String) → Result String → (seen : List ℕ) → Result Migration
  load_file name contents seen = do
    digits ← found_prefix (prefix (codes name))
    version ← found_version (library.parse_uint digits)
    guard (not (has_version version seen)) (message "duplicate migration version")
    text ← wrap "read migration" contents
    statements ← wrap "parse migration" (split_statements library.trim_space (codes text))
    guard (not (is_nil statements)) (message "migration is empty")
    ok (record {
      version = version;
      name = name;
      checksum = library.checksum text;
      statements = map library.to_text statements;
    })

  unfoldable pub load : List (String × Result String) → (seen : List ℕ) → Result (List Migration)
  load [] seen = ok []
  load ((name, contents) ∷ files) seen = do
    migration ← load_file name contents seen
    rest ← load files (migration.version ∷ seen)
    ok (migration ∷ rest)
