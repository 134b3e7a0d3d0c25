-- ===== src/Migrations/Laws/Loaded.antt =====
-- migrations/runner.go: what `Load` yields.
use linka_plays_metric.Prelude.{
  String, ℕ, List, [], ◌∷◌, Memᴰ, Bool, true, false, not, arith, ◌≡◌, ◌≢◌, refl, sym, ap, subst,
  ◌∙◌, Result, ok, >>=-eq-ok, guard, wrap, codes,
}
use linka_plays_metric.Migrations.Runner.{Migration}
use linka_plays_metric.Migrations.Statements.{split_statements}
use linka_plays_metric.Migrations.Loading.{
  Library, prefix, has_version, is_nil, found_prefix, found_version, load_file, load,
}
use linka_plays_metric.Migrations.Laws.Settled.{AreDistinct}

module _ (library : Library) where
  load_file-fresh :
      (name : String) (contents : Result String) (seen : List ℕ) (m : Migration)
      → load_file library name contents seen ≡ ok m
      → has_version m.version seen ≡ false
  unfolding load_file
  load_file-fresh name contents seen m h =
      let (digits, _, h1) = >>=-eq-ok (found_prefix (prefix (codes name))) _ h in
      let (version, _, h2) = >>=-eq-ok (found_version (library.parse_uint digits)) _ h1 in
      let (_, fresh, h3) = >>=-eq-ok (guard (not (has_version version seen)) _) _ h2 in
      let (text, _, h4) = >>=-eq-ok (wrap "read migration" contents) _ h3 in
      let (statements, _, h5) =
        >>=-eq-ok (wrap "parse migration" (split_statements library.trim_space (codes text))) _
          h4 in
      let (_, _, h6) = >>=-eq-ok (guard (not (is_nil statements)) _) _ h5 in
      let e : version ≡ m.version = cc h6 in
      subst (λ v. has_version v seen ≡ false) e (passed (has_version version seen) _ fresh)
    where
      passed : (b : Bool) (e : _) → guard (not b) e ≡ ok tt → b ≡ false
      passed true e g = cc
      passed false e g = refl

  load-fresh :
      (files : List (String × Result String)) (seen : List ℕ) (ms : List Migration) (m : Migration)
      → load library files seen ≡ ok ms
      → Memᴰ m ms
      → has_version m.version seen ≡ false
  unfolding load
  load-fresh [] seen ms m h k = let e : ms ≡ [] = cc h in elim (subst (λ l. Memᴰ m l) e k) [ ]
  load-fresh ((name, contents) ∷ files) seen ms m h k =
      let (first, loaded, h1) = >>=-eq-ok (load_file library name contents seen) _ h in
      let (rest, others, h2) = >>=-eq-ok (load library files (first.version ∷ seen)) _ h1 in
      let same : first ∷ rest ≡ ms = cc h2 in
      elim (subst (λ l. Memᴰ m l) (sym same) k) [
        | Memᴰ.head e ↦
            subst (λ x. has_version x.version seen ≡ false) (sym e)
              (load_file-fresh name contents seen first loaded)
        | Memᴰ.tail l ↦ later m first seen (load-fresh files (first.version ∷ seen) rest m others l)
      ]
    where
      later :
          (m first : Migration) (seen : List ℕ)
          → has_version m.version (first.version ∷ seen) ≡ false
          → has_version m.version seen ≡ false
      later m first seen h = ground arith

  -- The migrations that `Load` yields have distinct versions, whatever the files are.
  pub load-AreDistinct :
      (files : List (String × Result String)) (seen : List ℕ) (ms : List Migration)
      → load library files seen ≡ ok ms
      → AreDistinct ms
  unfolding load
  load-AreDistinct [] seen ms h =
      let e : ms ≡ [] = cc h in λ m n k l v. elim (subst (λ x. Memᴰ m x) e k) [ ]
  load-AreDistinct ((name, contents) ∷ files) seen ms h =
      let (first, loaded, h1) = >>=-eq-ok (load_file library name contents seen) _ h in
      let (rest, others, h2) = >>=-eq-ok (load library files (first.version ∷ seen)) _ h1 in
      let same : first ∷ rest ≡ ms = cc h2 in
      subst AreDistinct same (
        distinct_cons first rest (load-AreDistinct files (first.version ∷ seen) rest others)
          (λ m k. load-fresh files (first.version ∷ seen) rest m others k))
    where
      apart :
          (m first : Migration)
          → has_version m.version (first.version ∷ seen) ≡ false
          → m.version ≢ first.version
      apart m first h = λ e. ground arith

      distinct_cons :
          (first : Migration) (rest : List Migration)
          → AreDistinct rest
          → ((m : Migration) → Memᴰ m rest → has_version m.version (first.version ∷ seen) ≡ false)
          → AreDistinct (first ∷ rest)
      distinct_cons first rest d fresh m n (Memᴰ.head e) (Memᴰ.head f) v = e ∙ sym f
      distinct_cons first rest d fresh m n (Memᴰ.head e) (Memᴰ.tail l) v =
          elim (apart n first (fresh n l) (sym v ∙ ap (λ x. x.version) e)) [ ]
      distinct_cons first rest d fresh m n (Memᴰ.tail k) (Memᴰ.head f) v =
          elim (apart m first (fresh m k) (v ∙ ap (λ x. x.version) f)) [ ]
      distinct_cons first rest d fresh m n (Memᴰ.tail k) (Memᴰ.tail l) v = d m n k l v
