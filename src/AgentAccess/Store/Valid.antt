-- ===== src/AgentAccess/Store/Valid.antt =====
-- What `validate_state` ensures of a persisted state.
use aiknowledge_sort_mit.Prelude.{
  ℕ, ◌+◌, ◌≤◌, ◌<◌, ◌≡◌, refl, ◌==◌, true, false, ◌||◌, Option, none, some, List, [], ◌∷◌, Text,
  utf8, byte_len, arith, length, is_empty, all, any, is_control, is_ascii_alphanumeric, All, member,
  distinct, ok, >>=-eq-ok, fail_if, All-imp, text_eq, text_eq→eq, eq→text_eq, all_lower_hex,
}
use aiknowledge_sort_mit.AgentAccess.Errors.{
  Field, agent_id, agent_grant_id, agent_scope_id, persisted_origins, persisted_scope,
}
use aiknowledge_sort_mit.AgentAccess.Schema.{
  Url, AgentScopeSummary, validate_limits, validate_safe_id, safe_bytes, validate_http_origin,
  catalog_ids,
}
use aiknowledge_sort_mit.AgentAccess.Store.{
  AgentGrantRecord, PersistedAgentAccess, bad_tools, check_persisted_origins,
  check_persisted_scopes, revoked_before, validate_record, validate_records, validate_state,
}

-- An id: letters, digits and, behind the first byte, `-`, `_` and `.`.
abbrev pub SafeBytes : List ℕ → Type 0
SafeBytes [] = ⊥
SafeBytes (first ∷ bytes) =
    (is_ascii_alphanumeric first ≡ true)
    × (all (λ b. is_ascii_alphanumeric b || b == b'-' || b == b'_' || b == b'.') bytes ≡ true)

abbrev pub SafeId : Text → Type 0
SafeId id = (byte_len id ≤ 128) × SafeBytes (utf8 id)

-- The origins of a record are valid, with these normal forms.
abbrev pub Normals : (Text → Option Url) → List Text → List Text → Type 0
Normals parse_url [] [] = Unit
Normals parse_url (origin ∷ origins) (normal ∷ normals) =
    (validate_http_origin parse_url origin ≡ ok normal) × Normals parse_url origins normals
Normals parse_url [] (_ ∷ _) = ⊥
Normals parse_url (_ ∷ _) [] = ⊥

abbrev pub ScopeIsSound : AgentScopeSummary → Type 0
ScopeIsSound scope =
    SafeId scope.scope_id
    × (is_empty scope.display_path ≡ false)
    × (any is_control scope.display_path ≡ false)

abbrev pub RevokedAfter : Option ℕ → ℕ → Type 0
RevokedAfter none created = Unit
RevokedAfter (some revoked) created = created ≤ revoked

abbrev pub scope_ids : List AgentScopeSummary → List Text
scope_ids [] = []
scope_ids (scope ∷ scopes) = scope.scope_id ∷ scope_ids scopes

-- What a valid record has whatever the other records are.
pub record IsSound (parse_url : Text → Option Url) (grant : AgentGrantRecord) : Type 0 where
  pub id_safe : SafeId grant.grant_id
  pub agent_safe : SafeId grant.agent_id
  pub label_shown : is_empty grant.label ≡ false
  pub label_bounded : length grant.label ≤ 256
  pub label_visible : any is_control grant.label ≡ false
  pub tools_given : is_empty grant.tool_ids ≡ false
  pub tools_known : All (λ tool. member tool catalog_ids ≡ true) grant.tool_ids
  pub tools_distinct : distinct grant.tool_ids ≡ true
  pub origins_bounded : length grant.allowed_http_origins ≤ 8
  pub origins_normal :
      (normals : List Text) × Normals parse_url grant.allowed_http_origins normals
      × (distinct normals ≡ true)
  pub scopes_given : is_empty grant.scopes ≡ false
  pub scopes_bounded : length grant.scopes ≤ 16
  pub scopes_sound : All ScopeIsSound grant.scopes
  pub scopes_distinct : distinct (scope_ids grant.scopes) ≡ true
  pub revoked_after : RevokedAfter grant.revoked_at_unix_ms grant.created_at_unix_ms
  pub requests_bounded : grant.limits.max_requests_per_session ≤ 100_000
  pub requests_positive : 0 < grant.limits.max_requests_per_session
  pub request_bytes_bounded : grant.limits.max_request_bytes ≤ 1_048_576
  pub response_bytes_bounded : grant.limits.max_response_bytes ≤ 4_194_304
  pub lives_a_minute : grant.created_at_unix_ms + 60_000 ≤ grant.expires_at_unix_ms
  pub lives_thirty_days : grant.expires_at_unix_ms ≤ grant.created_at_unix_ms + 2_592_000_000
  pub digest_length : byte_len grant.grant_token_sha256 ≡ 64
  pub digest_hex : all_lower_hex grant.grant_token_sha256 ≡ true

validate_safe_id-SafeId :
    (field : Field) (id : Text) → validate_safe_id field id ≡ ok tt → SafeId id
unfolding validate_safe_id
validate_safe_id-SafeId field id h = (ground arith, bytes (utf8 id) (ground arith))
  where
    bytes : (bs : List ℕ) → safe_bytes bs ≡ some true → SafeBytes bs
    bytes [] h = absurd (ground arith)
    bytes (b ∷ bs) h = (ground arith, ground arith)

-- None of the texts is among those met, and they are distinct.
abbrev New : List Text → List Text → Type 0
New met xs = All (λ x. member x met ≡ false) xs × (distinct xs ≡ true)

New-cons :
    (met : List Text) (x : Text) (xs : List Text)
    → member x met ≡ false
    → New (x ∷ met) xs
    → New met (x ∷ xs)
unfolding member distinct
New-cons met x xs h (apart, distinct_xs) =
    ((h, All-imp xs (λ y out. ground arith) apart), ground (arith, absent xs apart))
  where
    absent : (ys : List Text) → All (λ y. member y (x ∷ met) ≡ false) ys → member x ys ≡ false
    absent [] h = refl
    absent (y ∷ ys) h =
        ground (
          arith,
          absent ys h.1,
          h.0,
          text_eq→eq y x,
          eq→text_eq x y,
          text_eq→eq x y,
          eq→text_eq y x,
        )

bad_tools-New :
    (met xs : List Text)
    → bad_tools met xs ≡ false
    → All (λ tool. member tool catalog_ids ≡ true) xs × New met xs
unfolding bad_tools distinct
bad_tools-New met [] h = (tt, (tt, refl))
bad_tools-New met (x ∷ xs) h =
    let (known, new) = bad_tools-New (x ∷ met) xs (ground arith) in
    ((ground arith, known), New-cons met x xs (ground arith) new)

check_origins-Normals :
    (parse_url : Text → Option Url) (met origins : List Text)
    → check_persisted_origins parse_url met origins ≡ ok tt
    → (normals : List Text) × Normals parse_url origins normals × New met normals
unfolding check_persisted_origins distinct
check_origins-Normals parse_url met [] h = ([], tt, (tt, refl))
check_origins-Normals parse_url met (origin ∷ origins) h =
    let (normal, valid, h1) = >>=-eq-ok (validate_http_origin parse_url origin) _ h in
    let (u, fresh, h2) = >>=-eq-ok (fail_if (member normal met) persisted_origins) _ h1 in
    let (normals, each, new) = check_origins-Normals parse_url (normal ∷ met) origins h2 in
    (normal ∷ normals, (valid, each), New-cons met normal normals (ground arith) new)

check_scopes_sound :
    (met : List Text) (scopes : List AgentScopeSummary)
    → check_persisted_scopes met scopes ≡ ok tt
    → All ScopeIsSound scopes × New met (scope_ids scopes)
unfolding check_persisted_scopes distinct
check_scopes_sound met [] h = (tt, (tt, refl))
check_scopes_sound met (scope ∷ scopes) h =
    let (u, safe, h1) = >>=-eq-ok (validate_safe_id agent_scope_id scope.scope_id) _ h in
    let (v, shown, h2) =
      >>=-eq-ok
        (fail_if
          (member scope.scope_id met
            || is_empty scope.display_path
            || any is_control scope.display_path)
          persisted_scope)
        _ h1 in
    let (sound, new) = check_scopes_sound (scope.scope_id ∷ met) scopes h2 in
    (
      (
        (validate_safe_id-SafeId agent_scope_id scope.scope_id safe, ground arith, ground arith),
        sound,
      ),
      New-cons met scope.scope_id (scope_ids scopes) (ground arith) new,
    )

not_before-RevokedAfter :
    (revoked : Option ℕ) (created : ℕ)
    → revoked_before revoked created ≡ false
    → RevokedAfter revoked created
not_before-RevokedAfter none created h = tt
not_before-RevokedAfter (some revoked) created h = ground arith

validate_record-IsSound :
    (parse_url : Text → Option Url) (ids : List Text) (grant : AgentGrantRecord)
    → validate_record parse_url ids grant ≡ ok tt
    → IsSound parse_url grant
unfolding validate_record validate_limits
validate_record-IsSound parse_url ids grant h =
    let (known, new_tools) = bad_tools-New [] grant.tool_ids (ground arith) in
    let (normals, each, new_origins) =
      check_origins-Normals parse_url [] grant.allowed_http_origins (ground arith) in
    let (sound, new_scopes) = check_scopes_sound [] grant.scopes (ground arith) in
    record {
      id_safe = validate_safe_id-SafeId agent_grant_id grant.grant_id (ground arith);
      agent_safe = validate_safe_id-SafeId agent_id grant.agent_id (ground arith);
      label_shown = ground arith;
      label_bounded = ground arith;
      label_visible = ground arith;
      tools_given = ground arith;
      tools_known = known;
      tools_distinct = new_tools.1;
      origins_bounded = ground arith;
      origins_normal = (normals, each, new_origins.1);
      scopes_given = ground arith;
      scopes_bounded = ground arith;
      scopes_sound = sound;
      scopes_distinct = new_scopes.1;
      revoked_after =
          not_before-RevokedAfter grant.revoked_at_unix_ms grant.created_at_unix_ms (ground arith);
      requests_bounded = ground arith;
      requests_positive = ground arith;
      request_bytes_bounded = ground arith;
      response_bytes_bounded = ground arith;
      lives_a_minute = ground arith;
      lives_thirty_days = ground arith;
      digest_length = ground arith;
      digest_hex = ground arith;
    }

validate_records-All :
    (parse_url : Text → Option Url) (ids : List Text) (grants : List AgentGrantRecord)
    → validate_records parse_url ids grants ≡ ok tt
    → All (IsSound parse_url) grants
unfolding validate_records
validate_records-All parse_url ids [] h = tt
validate_records-All parse_url ids (grant ∷ grants) h =
    let (u, first, rest) = >>=-eq-ok (validate_record parse_url ids grant) _ h in
    (
      validate_record-IsSound parse_url ids grant first,
      validate_records-All parse_url (grant.grant_id ∷ ids) grants rest,
    )

pub validate_state-All :
    (parse_url : Text → Option Url) (s : PersistedAgentAccess)
    → validate_state parse_url s ≡ ok tt
    → (length s.grants ≤ 32) × All (IsSound parse_url) s.grants
unfolding validate_state
validate_state-All parse_url s h =
    (ground arith, validate_records-All parse_url [] s.grants (ground arith))

-- No id among `ids`.
abbrev NotIn : List Text → AgentGrantRecord → Type 0
NotIn ids grant = member grant.grant_id ids ≡ false

-- Ids all differ.
abbrev pub UniqueIds : List AgentGrantRecord → Type 0
UniqueIds [] = Unit
UniqueIds (grant ∷ grants) =
    All (λ other. text_eq grant.grant_id other.grant_id ≡ false) grants × UniqueIds grants

-- Of a record whose id is not among `g ∷ ids`, the id is not `g` and not among `ids`.
NotIn-parts :
    (id : Text) (ids : List Text) (grant : AgentGrantRecord)
    → NotIn (id ∷ ids) grant
    → (text_eq id grant.grant_id ≡ false) × NotIn ids grant
unfolding member
NotIn-parts id ids grant h = ground arith

validate_record-NotIn :
    (parse_url : Text → Option Url) (ids : List Text) (grant : AgentGrantRecord)
    → validate_record parse_url ids grant ≡ ok tt
    → NotIn ids grant
unfolding validate_record
validate_record-NotIn parse_url ids grant h = ground arith

validate_records-UniqueIds :
    (parse_url : Text → Option Url) (ids : List Text) (grants : List AgentGrantRecord)
    → validate_records parse_url ids grants ≡ ok tt
    → All (NotIn ids) grants × UniqueIds grants
unfolding validate_records
validate_records-UniqueIds parse_url ids [] h = (tt, tt)
validate_records-UniqueIds parse_url ids (grant ∷ grants) h =
    let (u, first, rest) = >>=-eq-ok (validate_record parse_url ids grant) _ h in
    let (fresh, unique) = validate_records-UniqueIds parse_url (grant.grant_id ∷ ids) grants rest in
    let parts = All-imp grants (NotIn-parts grant.grant_id ids) fresh in
    (
      (validate_record-NotIn parse_url ids grant first, All-imp grants (λ g x. x.1) parts),
      (All-imp grants (λ g x. x.0) parts, unique),
    )

-- The ids of a valid state all differ.
pub validate_state-UniqueIds :
    (parse_url : Text → Option Url) (s : PersistedAgentAccess)
    → validate_state parse_url s ≡ ok tt
    → UniqueIds s.grants
unfolding validate_state
validate_state-UniqueIds parse_url s h =
    (validate_records-UniqueIds parse_url [] s.grants (ground arith)).1
