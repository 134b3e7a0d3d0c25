-- ===== src/Prelude/Joins.antt =====
-- strings.Join and strings.Split of the standard library, for a separator of one character.
use Prim.Native.Nat.{ℕ}
use Prim.Native.Char.{Char, code}
use Prim.Native.String.{String, ◌++◌}
use text.Mathlib.TextLemmas.{nil-append, cons-append, append_assoc}
use mathlib.Core.Path.{◌≡◌, refl, ap, ◌∙◌}
use mathlib.Core.Logic.{inl, inr}
use mathlib.Core.Bool.{true, not}
use mathlib.Core.List.{List, [], ◌∷◌, ◌++◌ as append_list}
use native.Mathlib.Omega.{arith}
use linka_plays_metric.Prelude.Tests.{eqb, if◌then◌else◌, &&_split, Bool-cases}
use linka_plays_metric.Prelude.Lists.{all, All}
use linka_plays_metric.Prelude.Text.{codes}

unfoldable pub join : String → List String → String
join separator [] = ""
join separator (part ∷ []) = part
join separator (part ∷ next ∷ parts) = part ++ separator ++ join separator (next ∷ parts)

-- One more character before the first part.
abbrev pub push : Char → List String → List String
push c [] = String.◌∷◌ c "" ∷ []
push c (part ∷ parts) = String.◌∷◌ c part ∷ parts

unfoldable pub split : ℕ → String → List String
split separator String.[] = "" ∷ []
split separator (String.◌∷◌ c s) =
    let rest = split separator s in if eqb (code c) separator then "" ∷ rest else push c rest

-- The text has no such character.
abbrev pub Lacks : ℕ → String → Type 0
Lacks separator s = all (λ c. not (eqb c separator)) (codes s) ≡ true

pub split_lacking : (separator : ℕ) (s : String) → Lacks separator s → split separator s ≡ s ∷ []
unfolding split
split_lacking separator String.[] h = refl
split_lacking separator (String.◌∷◌ c s) h =
    ground (arith, split_lacking separator s, &&_split (not (eqb (code c) separator)))

pub split-append :
    (part rest : String)
    → Lacks b'.' part
    → split b'.' (part ++ "." ++ rest) ≡ part ∷ split b'.' rest
unfolding split
split-append String.[] rest h = rw (nil-append, cons-append, nil-append) refl
split-append (String.◌∷◌ c s) rest h =
    rw cons-append (ground (arith, split-append s rest, &&_split (not (eqb (code c) b'.'))))

-- Splitting inverts joining, for one or more parts without a dot.
pub split-join :
    (part : String) (parts : List String)
    → All (Lacks b'.') (part ∷ parts)
    → split b'.' (join "." (part ∷ parts)) ≡ part ∷ parts
unfolding join
split-join part [] (here, _) = split_lacking b'.' part here
split-join part (next ∷ parts) (here, there) =
    split-append part (join "." (next ∷ parts)) here
    ∙ ap (λ l. part ∷ l) (split-join next parts there)

pub join-snoc :
    (separator part : String) (parts : List String) (last : String)
    → join separator (part ∷ parts) ++ separator ++ last
      ≡ join separator (append_list (part ∷ parts) (last ∷ []))
unfolding join
join-snoc separator part [] last = refl
join-snoc separator part (next ∷ parts) last =
    rw (append_assoc, append_assoc)
      (ap (λ s. part ++ separator ++ s) (join-snoc separator next parts last))

push-Lacks :
    (c : Char) (parts : List String)
    → not (eqb (code c) b'.') ≡ true
    → All (Lacks b'.') parts
    → All (Lacks b'.') (push c parts)
push-Lacks c [] h _ = (ground arith, tt)
push-Lacks c (part ∷ parts) h (here, there) = (ground arith, there)

-- No part of a split has a dot.
pub split-Lacks : (s : String) → All (Lacks b'.') (split b'.' s)
unfolding split
split-Lacks String.[] = (refl, tt)
split-Lacks (String.◌∷◌ c s) = elim (Bool-cases (eqb (code c) b'.')) [
  | inl dot ↦ rw (dot, split) (refl, split-Lacks s)
  | inr other ↦ rw (other, split) (push-Lacks c (split b'.' s) (rw other refl) (split-Lacks s))
]
