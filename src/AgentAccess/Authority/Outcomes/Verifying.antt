-- ===== src/AgentAccess/Authority/Outcomes/Verifying.antt =====
-- What a verification of transport credentials that succeeded has checked.
use aiknowledge_sort_mit.Prelude.{
  ℕ, ◌≡◌, inl, inr, true, Option, some, Text, arith, ok, Result-cases, Option-cases,
}
use aiknowledge_sort_mit.Prelude.Execs.{continue}
use aiknowledge_sort_mit.AgentAccess.Schema.{AgentGrantSummary}
use aiknowledge_sort_mit.AgentAccess.Store.{AgentGrantRecord, ReadIo}
use aiknowledge_sort_mit.AgentAccess.State.{
  Platform, World, find_grant, unix_ms, ensure_grant_usable, valid_bearer_shape, summary,
}
use aiknowledge_sort_mit.AgentAccess.Authority.{ensure_loaded, normalize_origin}
use aiknowledge_sort_mit.AgentAccess.Authority.SessionChecks.{authenticated, contains_origin}
use aiknowledge_sort_mit.AgentAccess.Authority.Requests.{verify_transport_credentials}

module _ (p : Platform) (io : ReadIo) (root grant_id caller token : Text) (origin : Option Text)
    (now : ℕ) (w : World) where
  pub record Verified (r : AgentGrantSummary) : Type 0 where
    pub now_ms : ℕ
    pub grant : AgentGrantRecord
    pub normalized : Option Text
    pub clock : unix_ms p now ≡ ok now_ms
    pub bearer : valid_bearer_shape token ≡ true
    pub grant_known : find_grant grant_id (ensure_loaded p io root w).1.state ≡ some grant
    pub grant_usable : ensure_grant_usable (ensure_loaded p io root w).1.state grant now_ms ≡ ok tt
    pub token_verified : authenticated p grant caller token ≡ true
    pub origin_normal : normalize_origin p origin ≡ ok normalized
    pub origin_allowed : contains_origin normalized grant.allowed_http_origins ≡ true
    pub result : r ≡ summary grant true now_ms

  -- Transport credentials that were verified are of a known and usable grant, with a token of the
  -- right shape that agrees with the agent and the digest, and with an origin that the grant allows;
  -- the reply is the summary of the grant.
  pub verify-Verified :
      (r : AgentGrantSummary)
      → (verify_transport_credentials p io root grant_id caller token origin now w).0 ≡ ok r
      → Verified r
  unfolding verify_transport_credentials continue
  verify-Verified r h = elim (Result-cases (unix_ms p now)) [
    | inr (e, clock) ↦ ground arith
    | inl (now_ms, clock) ↦ elim (Result-cases (normalize_origin p origin)) [
      | inr (e, normal) ↦ ground arith
      | inl (normalized, normal) ↦
          elim (Option-cases (find_grant grant_id (ensure_loaded p io root w).1.state)) [
            | inl unknown ↦ ground arith
            | inr (grant, known) ↦ record {
              now_ms = now_ms;
              grant = grant;
              normalized = normalized;
              clock = clock;
              bearer = ground arith;
              grant_known = known;
              grant_usable = ground arith;
              token_verified = ground arith;
              origin_normal = normal;
              origin_allowed = ground arith;
              result = ground arith;
            }
          ]
    ]
  ]
