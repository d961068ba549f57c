-- ===== src/Archive/Operations/Audit.antt =====
-- archive/transaction.rs: the check of a stream of records, and what an accepted stream is.
use aiknowledge_sort_mit.Prelude.{
  ℕ, suc, ◌≤◌, ◌==◌, ◌≡◌, refl, ap, sym, ◌∙◌, Bool, true, false, not, ◌&&◌, Option, none, some,
  List, [], ◌∷◌, Text, codes, text_eq, text_eq→eq, texts_eq, arith, inl, inr, Result, Result-cases,
  Option-cases, ok, ◌>>◌, fail_if, Mem,
}
use aiknowledge_sort_mit.Archive.Operations.{
  OperationRecord, ArchiveError, Formats, stream_broken, operation_record_path,
}
use aiknowledge_sort_mit.Archive.Operations.Advancing.{
  is_audited_schema, unsigned, operation_record_digest, verify_record_digest,
}

abbrev pub previous_eq : Option Text → Option Text → Bool
previous_eq none none = true
previous_eq none (some _) = false
previous_eq (some _) none = false
previous_eq (some a) (some b) = text_eq a b

-- An entry of the journal: the file and the record in it.
abbrev pub Entry : Type 0
Entry = Text × OperationRecord

abbrev pub is_linked : Text → ℕ → ℕ → Option Text → Entry → Bool
is_linked operation_id schema index previous entry =
    is_audited_schema entry.1.schema_version
    && entry.1.schema_version == schema
    && text_eq entry.1.operation_id operation_id
    && entry.1.sequence == index
    && text_eq entry.0 (operation_record_path entry.1)
    && previous_eq entry.1.previous_record_sha256 previous
    && text_eq entry.1.actor (codes "desktop-user")
    && text_eq entry.1.action (codes "archive-original-with-canonical-name")
    && text_eq entry.1.decision (codes "desktop-user-confirmed-reviewed-plan")
    && texts_eq entry.1.selected_scope (entry.1.source_path ∷ entry.1.destination_path ∷ [])

module _ (f : Formats) where
  -- The loop of `verify_operation_audit_stream`: the index, and the digest of the record before.
  unfoldable pub check_records :
      Text → ℕ → ℕ → Option Text → List Entry → Result ArchiveError (Unit {0})
  check_records operation_id schema index previous [] = ok tt
  check_records operation_id schema index previous (entry ∷ entries) = do
    fail_if (not (is_linked operation_id schema index previous entry)) stream_broken
    verify_record_digest f entry.1
    check_records operation_id schema (suc index) entry.1.record_sha256 entries

abbrev pub last_digest : List Entry → Option Text
last_digest [] = none
last_digest (entry ∷ []) = entry.1.record_sha256
last_digest (_ ∷ e ∷ es) = last_digest (e ∷ es)

module _ (f : Formats) where
  -- What an accepted entry is.
  pub record Accepted (index : ℕ) (previous : Option Text) (entry : Entry) : Type 0 where
    pub digest : Text
    pub own : entry.1.record_sha256 ≡ some digest
    pub computed : operation_record_digest f entry.1 ≡ ok digest
    pub at_index : entry.1.sequence ≡ index
    pub follows : entry.1.previous_record_sha256 ≡ previous
    pub in_file : entry.0 ≡ operation_record_path entry.1

  previous_eq→eq : (a b : Option Text) → previous_eq a b ≡ true → a ≡ b
  previous_eq→eq none none h = refl
  previous_eq→eq none (some b) h = absurd (ground arith)
  previous_eq→eq (some a) none h = absurd (ground arith)
  previous_eq→eq (some a) (some b) h = ground (arith, text_eq→eq a b)

  pub check-Accepted :
      (id : Text) (schema index : ℕ) (previous : Option Text) (entry : Entry) (entries : List Entry)
      → check_records f id schema index previous (entry ∷ entries) ≡ ok tt
      → Accepted index previous entry
        × (check_records f id schema (suc index) entry.1.record_sha256 entries ≡ ok tt)
  unfolding check_records verify_record_digest
  check-Accepted id schema index previous entry entries h =
      elim (Option-cases entry.1.record_sha256) [
        | inl missing ↦ absurd (ground arith)
        | inr (recorded, present) ↦ elim (Result-cases (operation_record_digest f entry.1)) [
          | inr (e, failed) ↦ absurd (ground arith)
          | inl (digest, made) ↦ (
            record {
              digest = digest;
              own = ground (arith, text_eq→eq digest recorded);
              computed = made;
              at_index = ground arith;
              follows = ground (arith, previous_eq→eq entry.1.previous_record_sha256 previous);
              in_file = ground (arith, text_eq→eq entry.0 (operation_record_path entry.1));
            },
            ground arith,
          )
        ]
      ]

  last-Accepted :
      (id : Text) (schema index : ℕ) (previous : Option Text) (entries : List Entry) {d : Text}
      → check_records f id schema index previous entries ≡ ok tt
      → last_digest entries ≡ some d
      → (e : Entry) × Mem e entries
        × (operation_record_digest f e.1 ≡ ok d)
        × (index ≤ e.1.sequence)
  last-Accepted id schema index previous [] h l = absurd (ground arith)
  last-Accepted id schema index previous (e ∷ []) {d} h l =
      let (a, rest) = check-Accepted id schema index previous e [] h in
      (e, inl refl, ground (arith, a.own, a.computed), omega (arith, a.at_index))
  last-Accepted id schema index previous (e ∷ e' ∷ es) {d} h l =
      let (a, rest) = check-Accepted id schema index previous e (e' ∷ es) h in
      let (found, member_, computed, later) =
        last-Accepted id schema (suc index) e.1.record_sha256 (e' ∷ es) {d = d} rest l in
      (found, inr member_, computed, omega (arith, later))

  -- No two records of the streams have one digest, unless they differ in nothing but it.
  abbrev pub NoCollision : List Entry → List Entry → Type 0
  NoCollision xs ys =
      (x y : Entry)
      → Mem x xs
      → Mem y ys
      → operation_record_digest f x.1 ≡ operation_record_digest f y.1
      → unsigned x.1 ≡ unsigned y.1

  same_entry :
      (x y : Entry)
      → unsigned x.1 ≡ unsigned y.1
      → x.1.record_sha256 ≡ y.1.record_sha256
      → x.0 ≡ operation_record_path x.1
      → y.0 ≡ operation_record_path y.1
      → x ≡ y
  same_entry x y u d p q =
      let same : x.1 ≡ y.1 =
        ap (λ (e : OperationRecord × Option Text). record e.0 { record_sha256 = e.1 })
          {x = (unsigned x.1, x.1.record_sha256)} {y = (unsigned y.1, y.1.record_sha256)} cc in
      cc

  same_head :
      (index : ℕ) (previous previous' : Option Text) (x y : Entry)
      → Accepted index previous x
      → Accepted index previous' y
      → x.1.record_sha256 ≡ y.1.record_sha256
      → (operation_record_digest f x.1 ≡ operation_record_digest f y.1
          → unsigned x.1 ≡ unsigned y.1)
      → (x ≡ y) × (previous ≡ previous')
  same_head index previous previous' x y a b d apart =
      let u = apart (ground (arith, d, a.own, b.own, a.computed, b.computed)) in
      (
        same_entry x y u d a.in_file b.in_file,
        sym a.follows ∙ ap (λ (r : OperationRecord). r.previous_record_sha256) u ∙ b.follows,
      )

  -- A record at an index is not one of the later records of another stream.
  not_later :
      (id : Text) (schema index : ℕ) (previous previous' : Option Text) (x : Entry)
      (ys : List Entry) {d : Text}
      → Accepted index previous x
      → x.1.record_sha256 ≡ some d
      → check_records f id schema (suc index) previous' ys ≡ ok tt
      → last_digest ys ≡ some d
      → ((y : Entry)
          → Mem y ys
          → operation_record_digest f x.1 ≡ operation_record_digest f y.1
          → unsigned x.1 ≡ unsigned y.1)
      → ⊥
  not_later id schema index previous previous' x ys {d} a own k l apart =
      let (e, listed, computed, later) =
        last-Accepted id schema (suc index) previous' ys {d = d} k l in
      let u = apart e listed (ground (arith, a.own, own, a.computed, computed)) in
      omega (arith, later, a.at_index, ap (λ (r : OperationRecord). r.sequence) u)

  same_list : (x y : Entry) (xs ys : List Entry) → x ≡ y → xs ≡ ys → x ∷ xs ≡ y ∷ ys
  same_list x y xs ys e es =
      ap (λ (p : Entry × List Entry). p.0 ∷ p.1) {x = (x, xs)} {y = (y, ys)} (λ i. (e i, es i))

  -- The digest of the last record fixes a stream that is accepted: two streams of one operation that
  -- are both accepted and end with the same digest are equal, from the file names to the last field,
  -- unless two of their records collide.
  pub check_records_unique :
      (id : Text) (schema schema' index : ℕ) (previous previous' : Option Text) (xs ys : List Entry)
      (d : Text)
      → check_records f id schema index previous xs ≡ ok tt
      → check_records f id schema' index previous' ys ≡ ok tt
      → last_digest xs ≡ some d
      → last_digest ys ≡ some d
      → NoCollision xs ys
      → (xs ≡ ys) × (previous ≡ previous')
  check_records_unique id schema schema' index previous previous' [] ys d h k l l' apart =
      absurd (ground arith)
  check_records_unique id schema schema' index previous previous' (x ∷ xs) [] d h k l l' apart =
      absurd (ground arith)
  check_records_unique id schema schema' index previous previous' (x ∷ []) (y ∷ []) d h k l l'
        apart =
      let (e, q) =
        same_head index previous previous' x y (check-Accepted id schema index previous x [] h).0
          (check-Accepted id schema' index previous' y [] k).0 (l ∙ sym l')
          (apart x y (inl refl) (inl refl)) in
      (same_list x y [] [] e refl, q)
  check_records_unique id schema schema' index previous previous' (x ∷ []) (y ∷ y' ∷ ys) d h k l l'
        apart =
      absurd (
        not_later id schema' index previous y.1.record_sha256 x (y' ∷ ys) {d = d}
          (check-Accepted id schema index previous x [] h).0 l
          (check-Accepted id schema' index previous' y (y' ∷ ys) k).1 l'
          (λ z m. apart x z (inl refl) (inr m)))
  check_records_unique id schema schema' index previous previous' (x ∷ x' ∷ xs) (y ∷ []) d h k l l'
        apart =
      absurd (
        not_later id schema index previous' x.1.record_sha256 y (x' ∷ xs) {d = d}
          (check-Accepted id schema' index previous' y [] k).0 l'
          (check-Accepted id schema index previous x (x' ∷ xs) h).1 l
          (λ z m e. sym (apart z y (inr m) (inl refl) (sym e))))
  check_records_unique id schema schema' index previous previous' (x ∷ x' ∷ xs) (y ∷ y' ∷ ys) d h k
        l l' apart =
      let (a, rest) = check-Accepted id schema index previous x (x' ∷ xs) h in
      let (b, rest') = check-Accepted id schema' index previous' y (y' ∷ ys) k in
      let (tails, heads) =
        check_records_unique id schema schema' (suc index) x.1.record_sha256 y.1.record_sha256
          (x' ∷ xs) (y' ∷ ys) d rest rest' l l' (λ u v m n. apart u v (inr m) (inr n)) in
      let (e, q) =
        same_head index previous previous' x y a b heads (apart x y (inl refl) (inl refl)) in
      (same_list x y (x' ∷ xs) (y' ∷ ys) e tails, q)
