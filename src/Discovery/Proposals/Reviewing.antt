-- ===== src/Discovery/Proposals/Reviewing.antt =====
-- discovery/proposal.rs: the map that `register_at` builds, looked up.
use aiknowledge_sort_mit.Prelude.{
  ◌≡◌, refl, true, Option, none, some, List, [], ◌∷◌, Text, arith, inl, inr, find, Option-cases,
  member, text_eq, text_eq→eq, eq→text_eq, Result, ok, err, ◌>>=◌,
}
use aiknowledge_sort_mit.Prelude.Maps.{Map, get, insert, get-insert}
use aiknowledge_sort_mit.Discovery.Proposals.{
  DiscoveredItem, ReviewedSource, ProposalError, item_not_reviewed, reviewed_source, review_items,
  select_items,
}

abbrev pub item_named : Text → List DiscoveredItem → Option DiscoveredItem
item_named item_id = find (λ item. text_eq item.item_id item_id)

-- An id met before is no item's id.
met_before :
    (ids : List Text) (reviewed : Map ReviewedSource) (items : List DiscoveredItem) (j : Text)
    {m : Map ReviewedSource}
    → review_items ids reviewed items ≡ ok m
    → member j ids ≡ true
    → item_named j items ≡ none
unfolding review_items find member
met_before ids reviewed [] j h met = refl
met_before ids reviewed (item ∷ items) j {m} h met = ground (
  arith,
  met_before (item.item_id ∷ ids) (insert item.item_id (reviewed_source item) reviewed) items j
      {m = m},
  text_eq→eq item.item_id j,
)

abbrev pub or_else : Option DiscoveredItem → Option ReviewedSource → Option ReviewedSource
or_else none o = o
or_else (some item) o = some (reviewed_source item)

pub get-review_items :
    (ids : List Text) (reviewed : Map ReviewedSource) (items : List DiscoveredItem) (j : Text)
    {m : Map ReviewedSource}
    → review_items ids reviewed items ≡ ok m
    → get j m ≡ or_else (item_named j items) (get j reviewed)
unfolding review_items find member
get-review_items ids reviewed [] j h = ground arith
get-review_items ids reviewed (item ∷ items) j {m} h =
    let next = insert item.item_id (reviewed_source item) reviewed in
    ground (
      arith,
      get-review_items (item.item_id ∷ ids) next items j {m = m},
      met_before (item.item_id ∷ ids) next items j {m = m},
      get-insert item.item_id j (reviewed_source item) reviewed,
      text_eq→eq item.item_id j,
      eq→text_eq item.item_id j,
      eq→text_eq j item.item_id,
    )

-- The selection from the proposal's own list of items.
unfoldable pub reviewed_items :
    List DiscoveredItem → List Text → Result ProposalError (List ReviewedSource)
reviewed_items items [] = ok []
reviewed_items items (item_id ∷ item_ids) =
    let rest = reviewed_items items item_ids in
    elim (item_named item_id items) [
      | none ↦ err item_not_reviewed
      | some item ↦ rest >>= λ sources. ok (reviewed_source item ∷ sources)
    ]

pub select_items-reviewed_items :
    (items : List DiscoveredItem) (item_ids : List Text) {m : Map ReviewedSource}
    → review_items [] [] items ≡ ok m
    → select_items m item_ids ≡ reviewed_items items item_ids
unfolding select_items reviewed_items get
select_items-reviewed_items items [] h = refl
select_items-reviewed_items items (item_id ∷ item_ids) {m} h =
    let looked = get-review_items [] [] items item_id {m = m} h in
    elim (Option-cases (item_named item_id items)) [
      | inl absent ↦ ground (arith, looked)
      | inr (item, present) ↦
          ground (arith, looked, select_items-reviewed_items items item_ids {m = m} h)
    ]
