-- ===== src/Naming/Normalize.antt =====
-- naming/normalize.rs: a canonical name from the facts. The Unicode tables are parameters.
use aiknowledge_sort_mit.Prelude.{
  ℕ, ◌+◌, ◌*◌, ◌-◌, ◌==◌, Bool, true, false, not, ◌&&◌, ◌||◌, Option, none, some, List, [], ◌∷◌,
  ◌++◌, Text, codes, leb, is_empty, is_some, any, all, in_range, text_eq, is_ascii_digit,
  if◌then◌else◌,
}
use aiknowledge_sort_mit.Naming.Schema.{
  NamingFactKind, project, model, regulation, version, subject, NamingFact, kind_eq,
}

-- `nfc` of unicode_normalization, `char::is_alphanumeric`, `char::to_lowercase` and
-- `str::to_uppercase`, and SHA-256.
pub record Tables : Type 0 where
  pub nfc : Text → Text
  pub is_alphanumeric : ℕ → Bool
  pub to_lowercase : ℕ → Text
  pub to_uppercase : Text → Text
  pub sha256 : List ℕ → List ℕ

abbrev pub applied_rule_name : Text
applied_rule_name = codes "ordered-cited-facts-v1"

abbrev pub max_canonical_name_bytes : ℕ
max_canonical_name_bytes = 255

-- The map from kinds to values.
abbrev pub Values : Type 0
Values = List (NamingFactKind × Text)

unfoldable pub value_of : NamingFactKind → Values → Option Text
value_of kind [] = none
value_of kind ((k, value) ∷ values) = if kind_eq k kind then some value else value_of kind values

abbrev pub is_mark : ℕ → Bool
is_mark c = c == b'.' || c == b'_' || c == b'-'

abbrev pub drop_while : (ℕ → Bool) → Text → Text
drop_while p [] = []
drop_while p (c ∷ t) = if p c then drop_while p t else c ∷ t

abbrev pub reversed : Text → Text → Text
reversed done [] = done
reversed done (c ∷ t) = reversed (c ∷ done) t

-- `trim_matches`.
abbrev pub trim_matches : (ℕ → Bool) → Text → Text
trim_matches p t = reversed [] (drop_while p (reversed [] (drop_while p t)))

abbrev pub concat_map : (ℕ → Text) → Text → Text
concat_map f [] = []
concat_map f (c ∷ t) = f c ++ concat_map f t

-- `rsplit_once`: split at the last `c`.
unfoldable pub rsplit_once : ℕ → Text → Option (Text × Text)
rsplit_once c [] = none
rsplit_once c (x ∷ xs) = elim (rsplit_once c xs) [
  | some parts ↦ some (x ∷ parts.0, parts.1)
  | none ↦ if x == c then some ([], xs) else none
]

-- `split(c).next()`.
unfoldable pub before_first : ℕ → Text → Text
before_first c [] = []
before_first c (x ∷ xs) = if x == c then [] else x ∷ before_first c xs

-- `Err(())` is `none`.
unfoldable pub original_extension : Text → Option Text
original_extension original_name = elim (rsplit_once b'.' original_name) [
  | none ↦ some []
  | some parts ↦
      if not (is_empty parts.0) && not (is_empty parts.1)
      then some (b'.' ∷ parts.1)
      else if is_empty parts.1
      then none
      else some []
]

-- `strip_prefix`.
unfoldable pub strip_prefix : Text → Text → Option Text
strip_prefix [] t = some t
strip_prefix (p ∷ ps) [] = none
strip_prefix (p ∷ ps) (c ∷ t) = if p == c then strip_prefix ps t else none

unfoldable pub decimal : ℕ → Text → ℕ
decimal acc [] = acc
decimal acc (c ∷ t) = decimal (acc * 10 + (c - 48)) t

abbrev pub without_plus : Text → Text
without_plus [] = []
without_plus (c ∷ t) = if c == b'+' then t else c ∷ t

-- `parse::<u8>()`: a sign `+` may stand before the digits.
unfoldable pub parse_u8 : Text → Option ℕ
parse_u8 t =
    let digits = without_plus t in
    if not (is_empty digits) && all is_ascii_digit digits && leb (decimal 0 digits) 255
    then some (decimal 0 digits)
    else none

abbrev pub one_to_nine : Option ℕ → Bool
one_to_nine none = false
one_to_nine (some value) = in_range 1 9 value

abbrev pub device_number : Option Text → Bool
device_number none = false
device_number (some rest) = one_to_nine (parse_u8 rest)

unfoldable pub is_windows_reserved : Text → Bool
is_windows_reserved stem =
    text_eq stem (codes "CON")
    || text_eq stem (codes "PRN")
    || text_eq stem (codes "AUX")
    || text_eq stem (codes "NUL")
    || device_number (strip_prefix (codes "COM") stem)
    || device_number (strip_prefix (codes "LPT") stem)

unfoldable pub ends_with_any : List ℕ → Text → Bool
ends_with_any cs [] = false
ends_with_any cs (c ∷ []) = any (λ d. c == d) cs
ends_with_any cs (c ∷ d ∷ t) = ends_with_any cs (d ∷ t)

module _ (u : Tables) where
  -- The loop of `normalize_token`: what was pushed, and whether a separator is pending.
  unfoldable pub normalize_chars : ℕ → Text → Bool → Text → Text
  normalize_chars separator normalized pending [] = normalized
  normalize_chars separator normalized pending (c ∷ t) =
      let push =
        normalize_chars separator
          (normalized
            ++ (if pending && not (is_empty normalized) then separator ∷ c ∷ [] else c ∷ []))
          false t in
      let skip = normalize_chars separator normalized true t in
      if u.is_alphanumeric c || is_mark c then push else skip

  unfoldable pub normalize_token : ℕ → Text → Text
  normalize_token separator value =
      trim_matches (λ c. is_mark c || c == separator)
        (normalize_chars separator [] false (u.nfc value))

  unfoldable pub is_safe_stem : Text → Bool
  is_safe_stem stem =
      not (is_empty stem || ends_with_any (b' ' ∷ b'.' ∷ []) stem)
      && not (is_windows_reserved (u.to_uppercase (before_first b'.' stem)))

  unfoldable pub is_safe_extension : Text → Bool
  is_safe_extension = all (λ c. c == b'.' || u.is_alphanumeric c)

  unfoldable pub comparison_key : Text → Text
  comparison_key value = u.nfc (concat_map u.to_lowercase value)

  -- The loop over the facts; `none` is a conflict.
  unfoldable pub collect_values : ℕ → Values → List NamingFact → Option Values
  collect_values separator values [] = some values
  collect_values separator values (fact ∷ facts) =
      let normalized = normalize_token separator fact.value in
      let same = collect_values separator values facts in
      let added = collect_values separator ((fact.kind, normalized) ∷ values) facts in
      elim (value_of fact.kind values) [
        | none ↦ added
        | some existing ↦ if text_eq existing normalized then same else none
      ]

-- `[..].iter().filter_map(..).filter(..).join(separator)` over the kinds in their order.
unfoldable pub join_values : ℕ → Values → List NamingFactKind → Text
join_values separator values [] = []
join_values separator values (kind ∷ kinds) =
    let rest = join_values separator values kinds in
    elim (value_of kind values) [
      | none ↦ rest
      | some value ↦
          if is_empty value
          then rest
          else if is_empty rest
          then value
          else value ++ separator ∷ rest
    ]

abbrev pub kinds_in_order : List NamingFactKind
kinds_in_order = project ∷ model ∷ regulation ∷ version ∷ subject ∷ []

abbrev pub is_missing : Values → NamingFactKind → Bool
is_missing values kind = not (is_some (value_of kind values))

abbrev pub is_none_or_empty : Option Text → Bool
is_none_or_empty none = true
is_none_or_empty (some value) = is_empty value
