-- ===== src/Product/Laws.antt =====
-- internal/product/registry.go: what holds of every entry of the registry.
use linka_plays_metric.Prelude.{
  String, List, [], ◌∷◌, Bool, true, false, not, ◌&&◌, ◌||◌, ◌==◌, eq_iff, ◌≡◌, refl, sym, ◌≢◌,
  some, Memᴰ, arith, all, all-mem, one_of, one_of_iff, lookup-mem, &&_split,
}
use linka_plays_metric.Product.Defs.{
  OutcomeRule, Spec, stream_common, stream_technical, stream_plays, stream_product, stream_outcome,
  outcome_result, outcome_source, outcome_mode, outcome_count_bucket, outcome_duration_bucket,
  outcome_failure_code, allows_stream, outcome_rule, requires,
}
use linka_plays_metric.Product.Registry.{registry, lookup}

abbrev pub is_empty {ℓ} : {A : Type ℓ} → List A → Bool
is_empty [] = true
is_empty (_ ∷ _) = false

abbrev pub known_streams : List String
known_streams =
    stream_common ∷ stream_technical ∷ stream_plays ∷ stream_product ∷ stream_outcome ∷ []

-- A field that the rule requires has a value that the rule allows.
has_values : OutcomeRule → String → List String → Bool
has_values rule field values = not (requires rule field) || not (is_empty values)

rule_check : OutcomeRule → Bool
unfolding has_values requires one_of
rule_check rule =
    has_values rule outcome_result rule.results
    && has_values rule outcome_source rule.sources
    && has_values rule outcome_mode rule.modes
    && has_values rule outcome_count_bucket rule.count_buckets
    && has_values rule outcome_duration_bucket rule.duration_buckets
    && has_values rule outcome_failure_code rule.failure_codes

abbrev same : Bool → Bool → Bool
same true b = b
same false b = not b

entry_check : String × Spec → Bool
unfolding rule_check allows_stream one_of
entry_check (id, s) =
    s.id == id
    && all (λ stream. one_of stream known_streams) s.streams
    && same (allows_stream s stream_plays) (not (is_empty s.game_ids))
    && same (allows_stream s stream_product) (not (is_empty s.product_kinds))
    && same (allows_stream s stream_outcome) (not (is_empty s.outcome_rules))
    && all (λ (e : String × OutcomeRule). rule_check e.1) s.outcome_rules

registry_checks : all entry_check registry ≡ true
unfolding registry entry_check
registry_checks = refl

lookup_check : (id : String) (s : Spec) → lookup id ≡ some s → entry_check (id, s) ≡ true
unfolding lookup
lookup_check id s h =
    all-mem entry_check registry (id, s) registry_checks (lookup-mem id registry s h)

same_iff : (a b : Bool) → same a b ≡ true → a ≡ b
same_iff true b h = sym h
same_iff false true h = cc
same_iff false false h = refl

-- What a registered product looks like: the entry stands under its own identifier, its streams are
-- those that the parser knows, and a stream with a closed vocabulary is allowed exactly where the
-- vocabulary is not empty.
pub record IsConsistent (id : String) (s : Spec) : Type 0 where
  pub own_id : s.id ≡ id
  pub streams : (stream : String) → Memᴰ stream s.streams → Memᴰ stream known_streams
  pub plays : allows_stream s stream_plays ≡ not (is_empty s.game_ids)
  pub product : allows_stream s stream_product ≡ not (is_empty s.product_kinds)
  pub outcome : allows_stream s stream_outcome ≡ not (is_empty s.outcome_rules)

-- Every product that `Lookup` finds is consistent: its entry carries the identifier that was looked
-- up, it allows only the five known streams, and it allows plays, product or outcome records
-- exactly if it registers a game, a kind or an outcome rule.
pub lookup-IsConsistent : (id : String) (s : Spec) → lookup id ≡ some s → IsConsistent id s
unfolding entry_check
lookup-IsConsistent id s h =
    let (r5, _) = &&_split _ _ (lookup_check id s h) in
    let (r4, rules) = &&_split _ _ r5 in
    let (r3, kinds) = &&_split _ _ r4 in
    let (r2, games) = &&_split _ _ r3 in
    let (own, known) = &&_split _ _ r2 in
    record {
      own_id = (eq_iff _ _).0 own;
      streams =
          λ stream m. (one_of_iff stream known_streams).0 (all-mem _ s.streams stream known m);
      plays = same_iff _ _ games;
      product = same_iff _ _ kinds;
      outcome = same_iff _ _ rules;
    }

-- A value for each field of an outcome record that a rule can accept.
pub record IsSatisfiable (rule : OutcomeRule) : Type 0 where
  pub result : requires rule outcome_result ≡ true → rule.results ≢ []
  pub source : requires rule outcome_source ≡ true → rule.sources ≢ []
  pub mode : requires rule outcome_mode ≡ true → rule.modes ≢ []
  pub count_bucket : requires rule outcome_count_bucket ≡ true → rule.count_buckets ≢ []
  pub duration_bucket : requires rule outcome_duration_bucket ≡ true → rule.duration_buckets ≢ []
  pub failure_code : requires rule outcome_failure_code ≡ true → rule.failure_codes ≢ []

has_values-ne-nil :
    (rule : OutcomeRule) (field : String) (values : List String)
    → has_values rule field values ≡ true
    → requires rule field ≡ true
    → values ≢ []
unfolding has_values
has_values-ne-nil rule field [] h r = λ e. cc (rw r at h)
has_values-ne-nil rule field (v ∷ values) h r = λ e. cc e

-- Every outcome rule of every registered product can be met: whatever field it requires, it also
-- registers values for.
pub outcome_rule-IsSatisfiable :
    (id : String) (s : Spec) (kind : String) (rule : OutcomeRule)
    → lookup id ≡ some s
    → outcome_rule s kind ≡ some rule
    → IsSatisfiable rule
unfolding entry_check rule_check outcome_rule
outcome_rule-IsSatisfiable id s kind rule h r =
    let (_, rules) = &&_split _ _ (lookup_check id s h) in
    let checked =
      all-mem _ s.outcome_rules (kind, rule) rules (lookup-mem kind s.outcome_rules rule r) in
    let (r5, codes) = &&_split _ _ checked in
    let (r4, durations) = &&_split _ _ r5 in
    let (r3, counts) = &&_split _ _ r4 in
    let (r2, modes) = &&_split _ _ r3 in
    let (results, sources) = &&_split _ _ r2 in
    record {
      result = has_values-ne-nil rule _ _ results;
      source = has_values-ne-nil rule _ _ sources;
      mode = has_values-ne-nil rule _ _ modes;
      count_bucket = has_values-ne-nil rule _ _ counts;
      duration_bucket = has_values-ne-nil rule _ _ durations;
      failure_code = has_values-ne-nil rule _ _ codes;
    }

-- Two entries with one opaque key are under one identifier.
pair_check : String × Spec → String × Spec → Bool
pair_check (a, s) (b, t) = not (s.opaque_key == t.opaque_key) || a == b

pair_checks : all (λ e. all (pair_check e) registry) registry ≡ true
unfolding registry pair_check
pair_checks = refl

pair_check-eq :
    (a b : String) (s t : Spec)
    → pair_check (a, s) (b, t) ≡ true
    → s.opaque_key ≡ t.opaque_key
    → a ≡ b
unfolding pair_check
pair_check-eq a b s t h e = (eq_iff a b).0 (ground (arith, eq_iff s.opaque_key t.opaque_key))

-- The opaque key identifies the product: two products whose entries carry the same opaque key are
-- the same product.
pub opaque_key_injective :
    (a b : String) (s t : Spec)
    → lookup a ≡ some s
    → lookup b ≡ some t
    → s.opaque_key ≡ t.opaque_key
    → a ≡ b
unfolding lookup
opaque_key_injective a b s t h k e =
    let row = all-mem _ registry (a, s) pair_checks (lookup-mem a registry s h) in
    pair_check-eq a b s t (all-mem _ registry (b, t) row (lookup-mem b registry t k)) e
