-- ===== src/Naming/Proposing.antt =====
-- naming/normalize.rs: `propose_name`. The reason of a review is the error of the name.
pub mod Names
use aiknowledge_sort_mit.Prelude.{
  ℕ, Bool, not, ◌||◌, Option, none, some, List, [], ◌∷◌, ◌++◌, map, Text, codes, ltb, is_empty, any,
  take, byte_len, utf8, member, Result, ok, err, ◌>>=◌, ◌>>◌, fail_if, ok_or, if◌then◌else◌,
}
use aiknowledge_sort_mit.AgentAccess.Token.{encode_hex}
use aiknowledge_sort_mit.Naming.Schema.{
  NamingFactKind, project, model, regulation, version, subject, NamingFact, NamingRequest,
  NamingPolicy, NamingProposal, proposed, naming_review, NamingReviewReason, missing_evidence,
  conflicting_evidence, unsafe_name, collision, NamingError, validate_request,
}
use aiknowledge_sort_mit.Naming.Normalize.{
  Tables, applied_rule_name, max_canonical_name_bytes, Values, value_of, collect_values,
  join_values, kinds_in_order, is_missing, is_none_or_empty, original_extension, is_safe_stem,
  is_safe_extension, comparison_key,
}

abbrev pub fact_kind_code : NamingFactKind → Text
fact_kind_code project = codes "project"
fact_kind_code model = codes "model"
fact_kind_code regulation = codes "regulation"
fact_kind_code version = codes "version"
fact_kind_code subject = codes "subject"

abbrev pub review_reason_code : Option NamingReviewReason → Text
review_reason_code none = codes "proposed"
review_reason_code (some missing_evidence) = codes "missing-evidence"
review_reason_code (some conflicting_evidence) = codes "conflicting-evidence"
review_reason_code (some unsafe_name) = codes "unsafe-name"
review_reason_code (some collision) = codes "collision"

abbrev pub or_empty : Option Text → Text
or_empty none = []
or_empty (some t) = t

-- Each value and a zero byte.
unfoldable pub hashed_values : List Text → List ℕ
hashed_values [] = []
hashed_values (value ∷ values) = utf8 value ++ 0 ∷ hashed_values values

unfoldable pub hashed_facts : List NamingFact → List ℕ
hashed_facts [] = []
hashed_facts (fact ∷ facts) =
    hashed_values (fact_kind_code fact.kind ∷ fact.value ∷ fact.evidence_location ∷ [])
    ++ hashed_facts facts

-- `values.contains_key` of every required kind, and then a value that is not empty.
unfoldable pub check_required : NamingPolicy → Values → Result NamingReviewReason (Unit {0})
check_required policy values = do
  fail_if (any (is_missing values) policy.required_facts) missing_evidence
  fail_if (any (λ kind. is_none_or_empty (value_of kind values)) policy.required_facts) unsafe_name

module _ (u : Tables) where
  unfoldable pub naming_proposal_id :
      NamingPolicy → NamingRequest → Option Text → Option NamingReviewReason → Text
  naming_proposal_id policy request canonical_name reason =
      codes "naming-"
      ++ encode_hex (
          u.sha256 (
            hashed_values (
              policy.policy_id
              ∷ policy.policy_version
              ∷ request.item_id
              ∷ request.original_name
              ∷ request.identity.algorithm
              ∷ request.identity.digest
              ∷ or_empty canonical_name
              ∷ review_reason_code reason
              ∷ [])
            ++ hashed_facts request.facts))

  abbrev pub occupied_keys : NamingRequest → List Text
  occupied_keys request = map (comparison_key u) request.occupied_names

  -- The name with a part of the digest, unless it is too long or occupied too.
  unfoldable pub suffixed_name : NamingRequest → Text → Text → Result NamingReviewReason Text
  suffixed_name request stem extension = do
    let collision_name = stem ++ codes "--" ++ take 8 request.identity.digest ++ extension
    fail_if
        (ltb max_canonical_name_bytes (byte_len collision_name)
          || member (comparison_key u collision_name) (occupied_keys request))
        collision
    ok collision_name

  unfoldable pub free_name : NamingRequest → Text → Text → Result NamingReviewReason Text
  free_name request stem extension =
      if member (comparison_key u (stem ++ extension)) (occupied_keys request)
      then suffixed_name request stem extension
      else ok (stem ++ extension)

  -- `propose_name` behind the validation, up to the reason of a review.
  unfoldable pub find_name : NamingPolicy → NamingRequest → Result NamingReviewReason Text
  find_name policy request = do
    values ← ok_or (collect_values u policy.separator [] request.facts) conflicting_evidence
    check_required policy values
    let stem = join_values policy.separator values kinds_in_order
    extension ← ok_or (original_extension request.original_name) unsafe_name
    fail_if (not (is_safe_stem u stem) || not (is_safe_extension u extension)) unsafe_name
    fail_if (ltb max_canonical_name_bytes (byte_len (stem ++ extension))) unsafe_name
    free_name request stem extension

  abbrev pub name_proposal : NamingPolicy → NamingRequest → Text → NamingProposal
  name_proposal policy request canonical_name = record {
    proposal_id = naming_proposal_id policy request (some canonical_name) none;
    item_id = request.item_id;
    original_name = request.original_name;
    canonical_name = some canonical_name;
    identity = request.identity;
    policy_id = policy.policy_id;
    policy_version = policy.policy_version;
    applied_rule = applied_rule_name;
    status = proposed;
    review_reason = none;
    facts = request.facts;
  }

  abbrev pub review_proposal : NamingPolicy → NamingRequest → NamingReviewReason → NamingProposal
  review_proposal policy request reason = record {
    proposal_id = naming_proposal_id policy request none (some reason);
    item_id = request.item_id;
    original_name = request.original_name;
    canonical_name = none;
    identity = request.identity;
    policy_id = policy.policy_id;
    policy_version = policy.policy_version;
    applied_rule = applied_rule_name;
    status = naming_review;
    review_reason = some reason;
    facts = request.facts;
  }

  unfoldable pub propose_name : NamingPolicy → NamingRequest → Result NamingError NamingProposal
  propose_name policy request = do
    validate_request request
    ok (elim (find_name policy request) [
      | ok canonical_name ↦ name_proposal policy request canonical_name
      | err reason ↦ review_proposal policy request reason
    ])
