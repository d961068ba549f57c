-- ===== src/Naming/Proposing/Names.antt =====
-- naming/normalize.rs: the names that `propose_name` proposes.
use aiknowledge_sort_mit.Prelude.{
  ℕ, ◌≡◌, ◌≤◌, true, false, some, List, [], ◌∷◌, ◌++◌, Text, codes, any, take, text_eq→eq, All,
  arith, inl, inr, Result-cases, Option-cases, byte_len, member, ok, if◌then◌else◌,
}
use aiknowledge_sort_mit.Naming.Schema.{
  NamingRequest, NamingPolicy, NamingProposal, kind_eq, NamingFactKind, NamingFact,
}
use aiknowledge_sort_mit.Naming.Normalize.{
  Tables, normalize_token, collect_values, value_of, join_values, kinds_in_order,
  original_extension, is_safe_stem, is_safe_extension, comparison_key, is_none_or_empty, Values,
}
use aiknowledge_sort_mit.Naming.Proposing.{
  occupied_keys, free_name, suffixed_name, find_name, check_required, propose_name,
}

kind_eq→eq : (a b : NamingFactKind) → kind_eq a b ≡ true → a ≡ b
kind_eq→eq a b h = ground arith

kind_eq_refl : (a : NamingFactKind) → kind_eq a a ≡ true
kind_eq_refl a = ground arith

module _ (u : Tables) (separator : ℕ) where
  -- A value that is set stays.
  collect_values-value_of :
      (values : Values) (facts : List NamingFact) (kind : NamingFactKind) {out : Values} {v : Text}
      → collect_values u separator values facts ≡ some out
      → value_of kind values ≡ some v
      → value_of kind out ≡ some v
  unfolding collect_values value_of
  collect_values-value_of values [] kind h e = ground arith
  collect_values-value_of values (fact ∷ facts) kind {out} {v} h e =
      let added = (fact.kind, normalize_token u separator fact.value) ∷ values in
      elim (Option-cases (value_of fact.kind values)) [
        | inl absent ↦
            collect_values-value_of added facts kind (ground arith)
              (ground (arith, kind_eq→eq fact.kind kind))
        | inr (existing, present) ↦ collect_values-value_of values facts kind (ground arith) e
      ]

  -- Each fact has the value of its kind.
  collect_values-All :
      (values : Values) (facts : List NamingFact) {out : Values}
      → collect_values u separator values facts ≡ some out
      → All (λ fact. value_of fact.kind out ≡ some (normalize_token u separator fact.value)) facts
  unfolding collect_values value_of
  collect_values-All values [] h = tt
  collect_values-All values (fact ∷ facts) {out} h =
      let added = (fact.kind, normalize_token u separator fact.value) ∷ values in
      elim (Option-cases (value_of fact.kind values)) [
        | inl absent ↦ (
          collect_values-value_of added facts fact.kind (ground arith)
              (ground (arith, kind_eq_refl fact.kind)),
          collect_values-All added facts (ground arith),
        )
        | inr (existing, present) ↦ (
          collect_values-value_of values facts fact.kind
              {v = normalize_token u separator fact.value} (ground arith)
              (ground
                (arith, present, text_eq→eq existing (normalize_token u separator fact.value))),
          collect_values-All values facts (ground arith),
        )
      ]

-- What a name that was found has: a stem of the values of the facts, an extension, and perhaps
-- eight digits of the digest between them.
pub record Found (u : Tables) (policy : NamingPolicy) (request : NamingRequest) (name : Text)
    : Type 0 where
  pub values : Values
  pub extension : Text
  pub facts_agree :
      All
        (λ fact. value_of fact.kind values ≡ some (normalize_token u policy.separator fact.value))
        request.facts
  pub required : any (λ kind. is_none_or_empty (value_of kind values)) policy.required_facts ≡ false
  pub extended : original_extension request.original_name ≡ some extension
  pub stem_safe : is_safe_stem u (join_values policy.separator values kinds_in_order) ≡ true
  pub extension_safe : is_safe_extension u extension ≡ true
  pub short : byte_len name ≤ 255
  pub free : member (comparison_key u name) (occupied_keys u request) ≡ false
  pub made :
      let stem = join_values policy.separator values kinds_in_order in
      name ≡ (
        if member (comparison_key u (stem ++ extension)) (occupied_keys u request)
        then stem ++ codes "--" ++ take 8 request.identity.digest ++ extension
        else stem ++ extension)

module _ (u : Tables) (policy : NamingPolicy) (request : NamingRequest) where
  find_name-Found :
      (name : Text) → find_name u policy request ≡ ok name → Found u policy request name
  unfolding find_name check_required free_name suffixed_name
  find_name-Found name h =
      elim (Option-cases (collect_values u policy.separator [] request.facts)) [
        | inl conflict ↦ absurd (ground arith)
        | inr (values, agreed) ↦ elim (Option-cases (original_extension request.original_name)) [
          | inl wrong ↦ absurd (ground arith)
          | inr (extension, extended) ↦ record {
            values = values;
            extension = extension;
            facts_agree = collect_values-All u policy.separator [] request.facts agreed;
            required = ground arith;
            extended = extended;
            stem_safe = ground arith;
            extension_safe = ground arith;
            short = ground arith;
            free = ground arith;
            made = ground arith;
          }
        ]
      ]

  -- When a canonical name is proposed: every fact, normalized, is the value of its kind, each
  -- required kind has a value, the stem, which joins the values in the order of their kinds, and the extension of the original name
  -- are safe, the name is at most 255 bytes long, it is the stem and the extension, or with eight
  -- digits of the content's digest between them when that is occupied, and its comparison key is
  -- that of no occupied name.
  pub propose_name-Found :
      (proposal : NamingProposal) (name : Text)
      → propose_name u policy request ≡ ok proposal
      → proposal.canonical_name ≡ some name
      → Found u policy request name
  unfolding propose_name
  propose_name-Found proposal name h named = elim (Result-cases (find_name u policy request)) [
    | inr (reason, reviewed) ↦ absurd (ground arith)
    | inl (found, done) ↦ find_name-Found name (ground arith)
  ]
