-- ===== src/AgentAccess/Authority/Permits.antt =====
-- When the checks of `authorize_request` let a request pass.
use aiknowledge_sort_mit.Prelude.{
  ℕ, ◌≤◌, ◌<◌, ◌≡◌, refl, sym, subst, ◌∙◌, ap, find, find_sound, text_eq, Option-cases, ◌↔◌, inl,
  inr, Bool, true, false, Option, none, some, Text, arith, member, is_some, ok, Result-cases,
  text_eq→eq, eq→text_eq, is_some-eq,
}
use aiknowledge_sort_mit.Prelude.Maps.{get}
use aiknowledge_sort_mit.AgentAccess.Schema.{AgentToolDescriptor, AuthorizeRequest, tool_catalog}
use aiknowledge_sort_mit.AgentAccess.Token.{verify_token}
use aiknowledge_sort_mit.AgentAccess.Store.{AgentGrantRecord}
use aiknowledge_sort_mit.AgentAccess.State.{
  Dir, SelectedRoot, ActiveGrant, AgentSession, Platform, State, find_grant, ensure_grant_usable,
  next_sequence,
}
use aiknowledge_sort_mit.AgentAccess.Authority.{normalize_origin}
use aiknowledge_sort_mit.AgentAccess.Authority.Checks.{
  Approved, authorize_checks, granted_tool, scope_directory, origin_eq,
}

-- The directory of a request: none without a scope, or the one of the granted scope, which could be
-- cloned.
abbrev pub ScopeDirectory : Bool → ActiveGrant → Option Text → Option Dir → Type 0
ScopeDirectory can_clone active none directory = directory ≡ none
ScopeDirectory can_clone active (some scope_id) directory =
    (root : SelectedRoot) × (get scope_id active.roots ≡ some root)
    × (can_clone ≡ true)
    × (directory ≡ some root.directory)

-- The conditions, of the grant and the session that the request names.
pub record Permits (p : Platform) (can_clone : Bool) (request : AuthorizeRequest) (now_ms : ℕ)
    (s : State) (active : ActiveGrant) (session : AgentSession) (a : Approved) : Type 0 where
  pub loaded : is_some s.config_root ≡ true
  pub grant_known : find_grant request.grant_id s ≡ some a.grant
  pub grant_not_revoked : a.grant.revoked_at_unix_ms ≡ none
  pub grant_not_expired : now_ms < a.grant.expires_at_unix_ms
  pub grant_active : get a.grant.grant_id s.active_grants ≡ some active
  pub session_open : get request.session_id s.sessions ≡ some session
  pub session_of_grant : session.grant_id ≡ request.grant_id
  pub session_of_agent : session.agent_id ≡ request.agent_id
  pub token_verified :
      verify_token p.sha256 request.session_token session.session_token_sha256 ≡ true
  pub origin_bound : normalize_origin p request.transport_origin ≡ ok session.transport_origin
  pub request_id_new : member request.request_id active.used_request_ids ≡ false
  pub session_below_limit : session.request_count < a.grant.limits.max_requests_per_session
  pub tool_in_catalog :
      find (λ tool. text_eq tool.tool_id request.tool_id) tool_catalog ≡ some a.tool
  pub tool_granted : member request.tool_id a.grant.tool_ids ≡ true
  pub request_fits : request.request_bytes ≤ a.grant.limits.max_request_bytes
  pub response_fits : request.response_budget_bytes ≤ a.grant.limits.max_response_bytes
  pub scope_granted : ScopeDirectory can_clone active request.scope_id a.directory
  pub sequence_next : next_sequence s ≡ ok a.sequence

origin_eq→eq : (a b : Option Text) → origin_eq a b ≡ true → a ≡ b
origin_eq→eq none none h = refl
origin_eq→eq (some a) (some b) h = ap some (text_eq→eq a b h)
origin_eq→eq none (some b) h = cc
origin_eq→eq (some a) none h = cc

origin_eq_refl : (a : Option Text) → origin_eq a a ≡ true
origin_eq_refl none = refl
origin_eq_refl (some a) = eq→text_eq a a refl

granted_tool-parts :
    (grant : AgentGrantRecord) (tool_id : Text) {tool : AgentToolDescriptor}
    → granted_tool grant tool_id ≡ some tool
    → (find (λ tool. text_eq tool.tool_id tool_id) tool_catalog ≡ some tool)
      × (member tool_id grant.tool_ids ≡ true)
unfolding granted_tool
granted_tool-parts grant tool_id {tool} h =
    elim (Option-cases (find (λ tool. text_eq tool.tool_id tool_id) tool_catalog)) [
      | inl missing ↦ absurd (ground arith)
      | inr (found, hit) ↦
          let same =
            text_eq→eq found.tool_id tool_id
              (find_sound (λ tool. text_eq tool.tool_id tool_id) tool_catalog hit) in
          (ground arith, subst (λ id. member id grant.tool_ids ≡ true) same (ground arith))
    ]

parts-granted_tool :
    (grant : AgentGrantRecord) (tool_id : Text) (tool : AgentToolDescriptor)
    → find (λ tool. text_eq tool.tool_id tool_id) tool_catalog ≡ some tool
    → member tool_id grant.tool_ids ≡ true
    → granted_tool grant tool_id ≡ some tool
unfolding granted_tool
parts-granted_tool grant tool_id tool hit granted =
    let same =
      text_eq→eq tool.tool_id tool_id
        (find_sound (λ tool. text_eq tool.tool_id tool_id) tool_catalog hit) in
    let member_too : member tool.tool_id grant.tool_ids ≡ true =
      subst (λ id. member id grant.tool_ids ≡ true) (sym same) granted in
    ground arith

scope-directory :
    (can_clone : Bool) (active : ActiveGrant) (scope_id : Option Text) (directory : Option Dir)
    → (scope_directory can_clone (some active) scope_id ≡ ok directory)
      ↔ ScopeDirectory can_clone active scope_id directory
scope-directory can_clone active none directory = ((λ h. ground arith), (λ h. ground arith))
scope-directory can_clone active (some scope_id) directory =
    elim (Option-cases (get scope_id active.roots)) [
      | inl missing ↦ ((λ h. absurd (ground arith)), (λ h. absurd (ground (arith, h.1))))
      | inr (root, present) ↦
          ((λ h. (root, present, ground arith, ground arith)), (λ h. ground (arith, h.1, h.2, h.3)))
    ]

module _ (p : Platform) (can_clone : Bool) (request : AuthorizeRequest) (now_ms : ℕ)
    (s : State) where
  checks-active :
      (a : Approved)
      → authorize_checks p can_clone request now_ms s ≡ ok a
      → (active : ActiveGrant) × (get a.grant.grant_id s.active_grants ≡ some active)
  unfolding authorize_checks ensure_grant_usable
  checks-active a h = is_some-eq _ (ground arith)

  checks-session :
      (a : Approved)
      → authorize_checks p can_clone request now_ms s ≡ ok a
      → (session : AgentSession) × (get request.session_id s.sessions ≡ some session)
  unfolding authorize_checks
  checks-session a h = is_some-eq _ (ground arith)

  checks-Permits :
      (a : Approved) (active : ActiveGrant) (session : AgentSession)
      → authorize_checks p can_clone request now_ms s ≡ ok a
      → get a.grant.grant_id s.active_grants ≡ some active
      → get request.session_id s.sessions ≡ some session
      → Permits p can_clone request now_ms s active session a
  unfolding authorize_checks ensure_grant_usable
  checks-Permits a active session h ha hs = record {
    loaded = ground arith;
    grant_known = ground arith;
    grant_not_revoked = ground arith;
    grant_not_expired = ground arith;
    grant_active = ha;
    session_open = hs;
    session_of_grant = ground (arith, text_eq→eq session.grant_id request.grant_id);
    session_of_agent = ground (arith, text_eq→eq session.agent_id request.agent_id);
    token_verified = ground arith;
    origin_bound = elim (Result-cases (normalize_origin p request.transport_origin)) [
      | inl (origin, e) ↦
          e ∙ ap ok (sym (origin_eq→eq session.transport_origin origin (ground arith)))
      | inr (message, e) ↦ ground arith
    ];
    request_id_new = ground arith;
    session_below_limit = ground arith;
    tool_in_catalog = (granted_tool-parts a.grant request.tool_id {tool = a.tool} (ground arith)).0;
    tool_granted = (granted_tool-parts a.grant request.tool_id {tool = a.tool} (ground arith)).1;
    request_fits = ground arith;
    response_fits = ground arith;
    scope_granted =
        (scope-directory can_clone active request.scope_id a.directory).0 (ground arith);
    sequence_next = ground arith;
  }

  Permits-checks :
      (a : Approved) (active : ActiveGrant) (session : AgentSession)
      → Permits p can_clone request now_ms s active session a
      → authorize_checks p can_clone request now_ms s ≡ ok a
  unfolding authorize_checks ensure_grant_usable
  Permits-checks a active session v = ground (
    arith,
    eq→text_eq session.grant_id request.grant_id,
    eq→text_eq session.agent_id request.agent_id,
    origin_eq_refl session.transport_origin,
    parts-granted_tool a.grant request.tool_id a.tool v.tool_in_catalog v.tool_granted,
    (scope-directory can_clone active request.scope_id a.directory).1 v.scope_granted,
  )

  -- The checks of a request approve it exactly when the configuration is loaded, the grant that it
  -- names is known, not revoked, not expired at the time of the call and active, its session is
  -- open, belongs to that grant and agent and has the token and the origin of the request, the
  -- request id was not used under the grant, the session is below its request limit, the tool is in
  -- the catalog and granted, both byte counts are within the grant's limits, the scope, if one is
  -- named, is granted and can be cloned, and the audit sequence is not exhausted; and then they
  -- return that grant, tool, directory and the next audit sequence.
  pub authorize_checks_iff :
      (a : Approved)
      → (authorize_checks p can_clone request now_ms s ≡ ok a) ↔ (
          (active : ActiveGrant) × (session : AgentSession) × Permits p can_clone request now_ms s
            active session a)
  authorize_checks_iff a = (forth, λ v. Permits-checks a v.0 v.1 v.2)
    where
      forth :
          authorize_checks p can_clone request now_ms s ≡ ok a
          → (active : ActiveGrant) × (session : AgentSession) × Permits p can_clone request now_ms s
              active session a
      forth h =
          let (active, ha) = checks-active a h in
          let (session, hs) = checks-session a h in
          (active, session, checks-Permits a active session h ha hs)
