-- ===== src/Discovery/DropGrants/Consuming.antt =====
-- discovery/grant.rs: when `consume_at` returns a grant, and what it leaves.
use aiknowledge_sort_mit.Prelude.{
  ℕ, ◌<◌, ◌≡◌, ◌↔◌, Bool, true, false, not, ◌&&◌, some, Text, arith, inl, inr, ok, err, leb,
  is_empty, byte_len, text_eq, text_eq_refl, Option-cases,
}
use aiknowledge_sort_mit.Prelude.Maps.{Map, get, get-remove}
use aiknowledge_sort_mit.Prelude.Execs.{continue}
use aiknowledge_sort_mit.Discovery.DropGrants.{DropGrant, unknown_grant, max_grant_id_bytes}
use aiknowledge_sort_mit.Discovery.DropGrants.Registry.{consume_at}

abbrev pub valid_grant_id : Text → Bool
valid_grant_id grant_id = not (is_empty grant_id) && leb (byte_len grant_id) max_grant_id_bytes

-- A grant is consumed exactly when its id has a valid form, it is stored under the id and it has
-- not expired; what is returned is the stored grant.
pub consume_at_iff :
    (grant_id : Text) (now : ℕ) (m : Map DropGrant) (grant : DropGrant)
    → ((consume_at grant_id now m).0 ≡ ok grant) ↔ (
        (valid_grant_id grant_id ≡ true) × (get grant_id m ≡ some grant) × (now < grant.expires_at))
unfolding consume_at continue
consume_at_iff grant_id now m grant = elim (Option-cases (get grant_id m)) [
  | inl absent ↦ (λ h. ground arith, λ h. ground arith)
  | inr (stored, present) ↦ (λ h. ground arith, λ h. ground arith)
]

-- An attempt to consume a grant, whether it returns the grant or finds it expired, leaves nothing
-- under the id for a second attempt at any time, and every other grant as it was.
pub consume_at-once :
    (grant_id : Text) (now : ℕ) (m : Map DropGrant)
    → valid_grant_id grant_id ≡ true
    → ((later : ℕ)
        → (consume_at grant_id later (consume_at grant_id now m).1).0 ≡ err unknown_grant)
      × ((j : Text) → text_eq grant_id j ≡ false → get j (consume_at grant_id now m).1 ≡ get j m)
unfolding consume_at continue
consume_at-once grant_id now m valid = (
  λ later. ground (arith, get-remove grant_id grant_id m, text_eq_refl grant_id),
  λ j other. ground (arith, get-remove grant_id j m),
)
