-- ===== src/Profiles/Taxonomy.antt =====
-- profiles/schema.rs: `DeclarativeProfile::validate`, with its taxonomy and its rules.
use aiknowledge_sort_mit.Prelude.{
  ℕ, ◌+◌, ◌==◌, Bool, true, false, not, ◌&&◌, ◌||◌, Option, none, some, List, [], ◌∷◌, Text, codes,
  ltb, length, is_empty, is_some, any, text_eq, texts_eq, member, distinct_by, Result, ok, err,
  ◌>>=◌, ◌>>◌, fail_if, ok_or, if◌then◌else◌,
}
use aiknowledge_sort_mit.Prelude.Maps.{Map, get, insert, contains_key}
use aiknowledge_sort_mit.Profiles.Schema.{
  max_profile_bytes, max_rules, max_categories, max_destination_depth, max_taxonomy_depth,
  max_requirements_per_rule, max_provenance_evidence, max_aliases_per_category,
  max_metadata_dimensions, max_node_triggers, max_title_bytes, max_term_bytes, ProfileStatus,
  IndependentNodeTrigger, EvidenceRequirement, ClassificationRule, ClassificationCategory,
  ProfileGovernance, DeclarativeProfile, ProfileError, validate_id, validate_text,
  validate_destination_segment, check_segments, validate_unique_ids, candidate, high_value,
  cross_domain, user_requested, schema_unsupported, provenance_count, too_many_rules,
  duplicate_rules, rule_depth, rule_not_in_taxonomy, rule_requirements, taxonomy_in_version_one,
  taxonomy_missing, too_many_categories, governance_depth, triggers_invalid, duplicate_categories,
  category_depth, too_many_aliases, aliases_invalid, parent_invalid, parent_missing, parent_path,
  profile_size, json_invalid, not_candidate,
}

abbrev pub trigger_eq : IndependentNodeTrigger → IndependentNodeTrigger → Bool
trigger_eq high_value high_value = true
trigger_eq cross_domain cross_domain = true
trigger_eq user_requested user_requested = true
trigger_eq _ _ = false

unfoldable pub check_governance : ProfileGovernance → Result ProfileError (Unit {0})
check_governance governance = do
  fail_if (governance.maximum_depth == 0 || ltb max_taxonomy_depth governance.maximum_depth)
      governance_depth
  validate_unique_ids (codes "metadata dimension") max_metadata_dimensions
      governance.metadata_only_dimensions
  fail_if
      (is_empty governance.independent_node_triggers
        || ltb max_node_triggers (length governance.independent_node_triggers)
        || not (distinct_by trigger_eq governance.independent_node_triggers))
      triggers_invalid

-- The loop over the aliases: `met` is the set of the aliases met.
unfoldable pub check_aliases : Text → List Text → List Text → Result ProfileError (Unit {0})
check_aliases label met [] = ok tt
check_aliases label met (alias ∷ aliases) = do
  validate_text (codes "profile category alias") max_title_bytes alias
  fail_if (text_eq alias label || member alias met) aliases_invalid
  check_aliases label (alias ∷ met) aliases

-- `path.last() == Some(&label)`.
unfoldable pub last_is : Text → List Text → Bool
last_is label [] = false
last_is label (t ∷ []) = text_eq t label
last_is label (_ ∷ t ∷ ts) = last_is label (t ∷ ts)

unfoldable pub check_category : ℕ → ClassificationCategory → Result ProfileError (Unit {0})
check_category maximum_depth category = do
  validate_destination_segment category.label
  fail_if
      (category.depth == 0
        || ltb maximum_depth category.depth
        || ltb max_taxonomy_depth category.depth
        || not (length category.path == category.depth)
        || not (last_is category.label category.path))
      category_depth
  check_segments category.path
  fail_if (ltb max_aliases_per_category (length category.aliases)) too_many_aliases
  check_aliases category.label [] category.aliases

-- The first loop over the categories, which builds the map from ids.
unfoldable pub categories_by_id :
    ℕ
    → Map ClassificationCategory
    → List ClassificationCategory
    → Result ProfileError (Map ClassificationCategory)
categories_by_id maximum_depth done [] = ok done
categories_by_id maximum_depth done (category ∷ categories) = do
  validate_id (codes "category") category.category_id
  fail_if (contains_key category.category_id done) duplicate_categories
  check_category maximum_depth category
  categories_by_id maximum_depth (insert category.category_id category done) categories

-- `path[..path.len().saturating_sub(1)]`.
unfoldable pub without_last : List Text → List Text
without_last [] = []
without_last (t ∷ []) = []
without_last (t ∷ u ∷ ts) = t ∷ without_last (u ∷ ts)

unfoldable pub check_parent :
    Map ClassificationCategory → ClassificationCategory → Result ProfileError (Unit {0})
check_parent categories category = elim category.parent_id [
  | none ↦ fail_if (not (category.depth == 1)) parent_invalid
  | some parent_id ↦ do
    fail_if (category.depth == 1) parent_invalid
    parent ← ok_or (get parent_id categories) parent_missing
    fail_if
        (not (parent.depth + 1 == category.depth)
          || not (texts_eq parent.path (without_last category.path)))
        parent_path
]

unfoldable pub check_parents :
    Map ClassificationCategory → List ClassificationCategory → Result ProfileError (Unit {0})
check_parents by_id [] = ok tt
check_parents by_id (category ∷ categories) = do
  check_parent by_id category
  check_parents by_id categories

abbrev check_taxonomy :
    List ClassificationCategory → Option ProfileGovernance → Result ProfileError (Unit {0})
check_taxonomy categories none = err taxonomy_missing
check_taxonomy categories (some governance) = do
  fail_if (is_empty categories) taxonomy_missing
  fail_if (ltb max_categories (length categories)) too_many_categories
  check_governance governance
  by_id ← categories_by_id governance.maximum_depth [] categories
  check_parents by_id categories

unfoldable pub validate_taxonomy : DeclarativeProfile → Result ProfileError (Unit {0})
validate_taxonomy profile =
    if profile.schema_version == 1
    then fail_if (not (is_empty profile.categories) || is_some profile.governance)
        taxonomy_in_version_one
    else if profile.schema_version == 2
    then check_taxonomy profile.categories profile.governance
    else err schema_unsupported

unfoldable pub check_terms : List EvidenceRequirement → Result ProfileError (Unit {0})
check_terms [] = ok tt
check_terms (requirement ∷ requirements) = do
  validate_text (codes "profile evidence term") max_term_bytes requirement.term
  check_terms requirements

abbrev pub has_path : List ClassificationCategory → List Text → Bool
has_path categories destination = any (λ category. texts_eq category.path destination) categories

-- The loop over the rules: `met` is the set of the rule ids met.
unfoldable pub check_rules :
    DeclarativeProfile → List Text → List ClassificationRule → Result ProfileError (Unit {0})
check_rules profile met [] = ok tt
check_rules profile met (rule ∷ rules) = do
  validate_id (codes "rule") rule.rule_id
  fail_if (member rule.rule_id met) duplicate_rules
  fail_if (is_empty rule.destination || ltb max_destination_depth (length rule.destination))
      rule_depth
  check_segments rule.destination
  fail_if (profile.schema_version == 2 && not (has_path profile.categories rule.destination))
      rule_not_in_taxonomy
  fail_if (is_empty rule.all_of || ltb max_requirements_per_rule (length rule.all_of))
      rule_requirements
  check_terms rule.all_of
  check_rules profile (rule.rule_id ∷ met) rules

unfoldable pub check_evidence_texts : List Text → Result ProfileError (Unit {0})
check_evidence_texts [] = ok tt
check_evidence_texts (evidence ∷ rest) = do
  validate_text (codes "profile provenance evidence") max_term_bytes evidence
  check_evidence_texts rest

-- `DeclarativeProfile::validate`.
unfoldable pub validate_profile : DeclarativeProfile → Result ProfileError (Unit {0})
validate_profile profile = do
  fail_if (not (profile.schema_version == 1 || profile.schema_version == 2)) schema_unsupported
  validate_id (codes "profile") profile.profile_id
  validate_id (codes "profile version") profile.profile_version
  validate_text (codes "profile title") max_title_bytes profile.title
  validate_text (codes "profile provenance title") max_title_bytes profile.provenance.source_title
  fail_if
      (is_empty profile.provenance.evidence
        || ltb max_provenance_evidence (length profile.provenance.evidence))
      provenance_count
  check_evidence_texts profile.provenance.evidence
  validate_taxonomy profile
  fail_if (ltb max_rules (length profile.rules)) too_many_rules
  check_rules profile [] profile.rules

abbrev pub is_candidate : ProfileStatus → Bool
is_candidate candidate = true
is_candidate _ = false

-- `parse_candidate_profile`; `from_slice` of serde_json is a parameter.
unfoldable pub parse_candidate_profile :
    (List ℕ → Option DeclarativeProfile) → List ℕ → Result ProfileError DeclarativeProfile
parse_candidate_profile from_slice bytes = do
  fail_if (is_empty bytes || ltb max_profile_bytes (length bytes)) profile_size
  profile ← ok_or (from_slice bytes) json_invalid
  validate_profile profile
  fail_if (not (is_candidate profile.status)) not_candidate
  ok profile
