-- ===== src/Archive/Plans/Layout.antt =====
-- archive/plan.rs and archive/transaction.rs: the destination that a plan makes is one that the
-- transaction takes.
use aiknowledge_sort_mit.Prelude.{
  ℕ, ◌≡◌, refl, sym, subst, All, All-imp, Option, Bool, true, false, ◌&&◌, ◌||◌, List, [], ◌∷◌,
  ◌++◌, Text, codes, all, any, utf8, utf8_char, byte_len, text_eq, text_eq_refl, text_eq→eq, ap,
  is_control, arith, ok, all_lower_hex, is_ascii_digit, in_range, some,
}
use aiknowledge_sort_mit.Prelude.Paths.{
  normal_component, components, has_separator, names_itself, components-three, file_name,
  last_normal, segments, later_components,
}
use aiknowledge_sort_mit.Identity.{ContentIdentity, validate_identity}
use aiknowledge_sort_mit.Vault.Records.{validate_relative_path}
use aiknowledge_sort_mit.Prelude.Maps.{Map}
use aiknowledge_sort_mit.Discovery.Proposals.{ReviewedSource}
use aiknowledge_sort_mit.Naming.Batches.{NamingBatch}
use aiknowledge_sort_mit.Profiles.Batches.{ClassificationBatch}
use aiknowledge_sort_mit.Archive.Plans.{
  destination_of, validate_plan_name, is_one_normal, ArchivePlan, ArchivePlanItem,
  PlanRegistryLimits, StoredPlan, VaultSummary,
}
use aiknowledge_sort_mit.Archive.Plans.Registry.{PlanIo, create_plan_at}
use aiknowledge_sort_mit.Archive.Plans.Items.{PlannedItem}
use aiknowledge_sort_mit.Archive.Plans.Creating.{create_plan_at-CreatedPlan}
use aiknowledge_sort_mit.Profiles.Schema.{is_reserved_character}
use aiknowledge_sort_mit.Archive.Operations.Validation.{validate_destination}

all-append_bytes : (p : ℕ → Bool) (xs ys : List ℕ) → all p (xs ++ ys) ≡ (all p xs && all p ys)
unfolding all
all-append_bytes p [] ys = refl
all-append_bytes p (x ∷ xs) ys = ground (arith, all-append_bytes p xs ys)

-- A text of hexadecimal digits has no separator.
hex-has_separator : (t : Text) → all_lower_hex t ≡ true → has_separator t ≡ false
unfolding all_lower_hex all any utf8 utf8_char
hex-has_separator [] h = refl
hex-has_separator (c ∷ t) h = ground (
  arith,
  hex-has_separator t,
  all-append_bytes (λ byte. is_ascii_digit byte || in_range b'a' b'f' byte) (utf8_char c) (utf8 t),
)

digest-names_itself :
    (identity : ContentIdentity)
    → validate_identity identity ≡ ok tt
    → names_itself identity.digest ≡ true
unfolding validate_identity byte_len utf8 utf8_char
digest-names_itself identity h = ground (
  arith,
  hex-has_separator identity.digest,
  text_eq→eq identity.digest [],
  text_eq→eq identity.digest (codes "."),
  text_eq→eq identity.digest (codes ".."),
  ap byte_len {x = identity.digest} {y = []},
  ap byte_len {x = identity.digest} {y = codes "."},
  ap byte_len {x = identity.digest} {y = codes ".."},
)

reserved-has_separator :
    (t : Text)
    → any (λ c. is_control c || is_reserved_character c) t ≡ false
    → has_separator t ≡ false
unfolding any
reserved-has_separator [] h = refl
reserved-has_separator (c ∷ t) h = ground (arith, reserved-has_separator t)

name-names_itself : (name : Text) → validate_plan_name name ≡ ok tt → names_itself name ≡ true
unfolding validate_plan_name components later_components segments text_eq
name-names_itself name h = ground (
  arith,
  reserved-has_separator name,
  text_eq→eq name [],
  text_eq→eq name (codes "."),
  text_eq→eq name (codes ".."),
  ap (λ t. is_one_normal (components t)) {x = name} {y = codes "."},
  ap (λ t. is_one_normal (components t)) {x = name} {y = codes ".."},
)

destination_of-components :
    (digest name : Text)
    → names_itself digest && names_itself name ≡ true
    → components (destination_of digest name)
      ≡ normal_component (codes "Originals") ∷ normal_component digest ∷ normal_component name ∷ []
unfolding any text_eq
destination_of-components digest name h =
    components-three (codes "Originals") digest name (ground arith)

-- The path is in the layout, and its file name is the canonical one.
abbrev pub InLayout : ArchivePlanItem → Type 0
InLayout item =
    (validate_destination item.destination_path item.identity ≡ ok tt)
    × (file_name item.destination_path ≡ some item.canonical_name)

planned-InLayout :
    (sources : List ReviewedSource) (batch : NamingBatch) (classes : Option ClassificationBatch)
    (item : ArchivePlanItem)
    → PlannedItem sources batch classes item
    → InLayout item
unfolding validate_destination validate_relative_path any last_normal
planned-InLayout sources batch classes item planned =
    let parts = destination_of-components item.identity.digest item.canonical_name (
      ground (
        arith,
        digest-names_itself item.identity planned.identity_valid,
        name-names_itself item.canonical_name planned.name_valid,
      )) in
    subst
      (λ path.
        (validate_destination path item.identity ≡ ok tt)
        × (file_name path ≡ some item.canonical_name))
      (sym planned.destination)
      (
        ground (arith, parts, text_eq_refl item.identity.digest, text_eq_refl (codes "Originals")),
        ap last_normal parts,
      )

-- Whatever is planned can be carried out: each item of a plan that was created has a destination that
-- the transaction's check takes, inside the intake layout for the reviewed content, and the file name
-- of the destination is the canonical name that was approved.
pub create_plan_at-InLayout :
    (limits : PlanRegistryLimits) (io : PlanIo) (proposal_id : Text) (sources : List ReviewedSource)
    (classification_batch : Option ClassificationBatch) (naming_batch : NamingBatch)
    (vault : VaultSummary) (now wall_time : ℕ) (m : Map StoredPlan) {plan : ArchivePlan}
    → (create_plan_at limits io proposal_id sources classification_batch naming_batch vault now
        wall_time m).0
      ≡ ok plan
    → All InLayout plan.items
create_plan_at-InLayout limits io proposal_id sources classification_batch naming_batch vault now
      wall_time m {plan} h =
    let created =
      create_plan_at-CreatedPlan limits io proposal_id sources classification_batch naming_batch
        vault now wall_time m {plan = plan} h in
    All-imp plan.items (planned-InLayout sources naming_batch classification_batch) created.planned
