-- ===== src/Archive/Recovery/Reading.antt =====
-- archive/transaction.rs: the listing of the journal is read whole, and nothing else is read into the
-- streams.
use aiknowledge_sort_mit.Prelude.{
  ℕ, ◌+◌, ◌≡◌, refl, sym, ap, subst, ◌∙◌, ◌⊎◌, inl, inr, true, false, Bool-cases, Option, none,
  some, List, [], ◌∷◌, ◌++◌, Text, arith, All, All-append, Mem, Result, ok, err, Result-cases,
  text_eq, text_eq→eq, text_eq_refl, if◌then◌else◌,
}
use aiknowledge_sort_mit.Prelude.Maps.{Map, get, get-insert}
use aiknowledge_sort_mit.Prelude.Paths.{extension}
use aiknowledge_sort_mit.Prelude.Execs.{
  Keeps, Keeps->>=, Keeps-if, Keeps-catch, continue-eq-ok, caught, pure,
}
use aiknowledge_sort_mit.Vault.Records.{Platform, Codec, RecordError, read_json}
use aiknowledge_sort_mit.Archive.Operations.{OperationRecord, Formats, vault_record}
use aiknowledge_sort_mit.Archive.Operations.Audit.{Entry}
use aiknowledge_sort_mit.Archive.Recovery.Listing.{
  JournalEntry, is_json, is_supported, path_in_journal, entries_or_empty, push_entry, read_record,
  read_entry, collect_streams,
}

-- An entry is in the stream of its operation.
abbrev pub InStream : Entry → Map (List Entry) → Type 0
InStream e streams = (es : List Entry) × (get e.1.operation_id streams ≡ some es) × Mem e es

Mem-append_left : (e : Entry) (es fs : List Entry) → Mem e es → Mem e (es ++ fs)
Mem-append_left e [] fs h = absurd h.lower
Mem-append_left e (x ∷ es) fs (inl same) = inl same
Mem-append_left e (x ∷ es) fs (inr later) = inr (Mem-append_left e es fs later)

Mem-append_last : (e : Entry) (es : List Entry) → Mem e (es ++ e ∷ [])
Mem-append_last e [] = inl refl
Mem-append_last e (x ∷ es) = inr (Mem-append_last e es)

push-InStream :
    (e : Entry) (kept : Option Entry) (streams : Map (List Entry))
    → InStream e streams
    → InStream e (push_entry kept streams)
push-InStream e none streams h = h
push-InStream e (some k) streams (es, found, here) =
    let pushed = entries_or_empty (get k.1.operation_id streams) ++ (k ∷ []) in
    let step = get-insert k.1.operation_id e.1.operation_id pushed streams in
    elim (Bool-cases (text_eq k.1.operation_id e.1.operation_id)) [
      | inr other ↦ (es, ground (arith, step), here)
      | inl same ↦
          let id = text_eq→eq k.1.operation_id e.1.operation_id same in
          let before : get k.1.operation_id streams ≡ some es =
            ap (λ (i : Text). get i streams) id ∙ found in
          (
            es ++ k ∷ [],
            step
                ∙ rw same
                    (ap (λ (o : Option (List Entry)). some (entries_or_empty o ++ k ∷ [])) before),
            Mem-append_left e es (k ∷ []) here,
          )
    ]

push-new : (e : Entry) (streams : Map (List Entry)) → InStream e (push_entry (some e) streams)
push-new e streams =
    let es = entries_or_empty (get e.1.operation_id streams) in
    (
      es ++ e ∷ [],
      get-insert e.1.operation_id e.1.operation_id (es ++ e ∷ []) streams
          ∙ rw (text_eq_refl e.1.operation_id) refl,
      Mem-append_last e es,
    )

module _ (p : Platform) (f : Formats) where
  pub read_json-Keeps :
      {A : Type 0} (I : p.State → Type 0) (codec : Codec A) (path : Text)
      → Keeps I (read_json p codec path)
  unfolding read_json
  read_json-Keeps I codec path =
      Keeps->>= I _ _ (λ s h. h)
        (λ _.
          Keeps->>= I _ _ (λ s h. h)
            (λ kind. Keeps->>= I _ _ (λ s h. h) (λ _. Keeps->>= I _ _ (λ s h. h) (λ bytes s h. h))))

  read_record-Keeps : (I : p.State → Type 0) (path : Text) → Keeps I (read_record p f path)
  read_record-Keeps I path =
      Keeps->>= I _ _
        (Keeps-catch I vault_record (read_json p f.operation_json path)
          (read_json-Keeps I f.operation_json path))
        (λ r. Keeps->>= I _ _ (λ s h. h) (λ _ s h. h))

  read_entry-Keeps : (I : p.State → Type 0) (entry : JournalEntry) → Keeps I (read_entry p f entry)
  unfolding read_entry
  read_entry-Keeps I entry =
      Keeps->>= I _ _ (λ s h. h)
        (λ link.
          Keeps->>= I _ _ (λ s h. h)
            (λ _.
              Keeps-if I (is_json (extension entry.name)) _ _
                (read_record-Keeps I (path_in_journal entry.name)) (λ s h. h)))

  -- What an entry of the listing holds: a supported record at its path, if it has the extension of one.
  abbrev pub Holds : p.State → JournalEntry → Option Entry → Type 0
  Holds d entry none = is_json (extension entry.name) ≡ false
  Holds d entry (some e) =
      (is_json (extension entry.name) ≡ true)
      × (e.0 ≡ path_in_journal entry.name)
      × ((read_json p f.operation_json e.0 d).0 ≡ ok e.1)
      × (is_supported e.1.schema_version ≡ true)

  -- An entry of the listing could be read, is no link, and what it holds is in its stream.
  abbrev pub EntryRead : p.State → Map (List Entry) → Result Text JournalEntry → Type 0
  EntryRead d streams (err e) = ⊥
  EntryRead d streams (ok entry) =
      (entry.is_symlink ≡ ok false)
      × ((is_json (extension entry.name) ≡ false)
          ⊎ ((e : Entry) × Holds d entry (some e) × InStream e streams))

  read_record-Holds :
      (entry : JournalEntry) (d : p.State) (kept : Option Entry)
      → is_json (extension entry.name) ≡ true
      → (read_record p f (path_in_journal entry.name) d).0 ≡ ok kept
      → Holds d entry kept
  read_record-Holds entry d kept json h =
      let (r, caught, h1) = continue-eq-ok _ _ _ h in
      let (_, supported, h2) = continue-eq-ok _ _ _ h1 in
      subst (Holds d entry) {x = some (path_in_journal entry.name, r)} {y = kept} (ground arith) (
        json,
        refl,
        caught-ok (read_json p f.operation_json (path_in_journal entry.name) d) caught,
        ground arith,
      )
    where
      caught-ok :
          {r : OperationRecord} (m : Result RecordError OperationRecord × p.State)
          → (caught vault_record m.0 m.1).0 ≡ ok r
          → m.0 ≡ ok r
      caught-ok (ok x, s) h = ground arith
      caught-ok (err e, s) h = absurd (ground arith)

  read_entry-Holds :
      (entry : JournalEntry) (d : p.State) (kept : Option Entry)
      → (read_entry p f entry d).0 ≡ ok kept
      → (entry.is_symlink ≡ ok false) × Holds d entry kept
  unfolding read_entry
  read_entry-Holds entry d kept h =
      let (link, typed, h1) = continue-eq-ok _ _ _ h in
      let (_, no_link, h2) = continue-eq-ok _ _ _ h1 in
      (
        elim (Result-cases entry.is_symlink) [
          | inl (b, e) ↦ ground arith
          | inr (m, e) ↦ absurd (ground arith)
        ],
        elim (Bool-cases (is_json (extension entry.name))) [
          | inl json ↦ read_record-Holds entry d kept json (
              subst
                (λ b.
                  ((if b then read_record p f (path_in_journal entry.name) else pure none) d).0
                  ≡ ok kept)
                json h2)
          | inr other ↦
              subst (Holds d entry) {x = none} {y = kept} (ground (arith, h2, other)) other
        ],
      )

  -- An entry of a stream is what an entry of the listing holds.
  abbrev pub Sourced : p.State → List (Result Text JournalEntry) → Entry → Type 0
  Sourced d listing e = (entry : JournalEntry) × Mem (ok entry) listing × Holds d entry (some e)

  collect-InStream :
      (index : ℕ) (streams : Map (List Entry)) (listing : List (Result Text JournalEntry))
      (d : p.State) {end : Map (List Entry)} (e : Entry)
      → (collect_streams p f index streams listing d).0 ≡ ok end
      → InStream e streams
      → InStream e end
  unfolding collect_streams
  collect-InStream index streams [] d {end} e h here =
      subst (InStream e) {x = streams} {y = end} (ground arith) here
  collect-InStream index streams (listed ∷ rest) d {end} e h here =
      let (_, room, h1) = continue-eq-ok _ _ _ h in
      let (entry, readable, h2) = continue-eq-ok _ _ _ h1 in
      let (kept, got, h3) = continue-eq-ok _ _ _ h2 in
      collect-InStream (index + 1) (push_entry kept streams) rest (read_entry p f entry d).1
        {end = end} e h3 (push-InStream e kept streams here)

  entry_read :
      (d : p.State) (entry : JournalEntry) (kept : Option Entry) (end : Map (List Entry))
      → (entry.is_symlink ≡ ok false)
      → Holds d entry kept
      → ((e : Entry) → kept ≡ some e → InStream e end)
      → EntryRead d end (ok entry)
  entry_read d entry none end no_link held pushed = (no_link, inl held)
  entry_read d entry (some e) end no_link held pushed = (no_link, inr (e, held, pushed e refl))

  pub collect-read :
      (index : ℕ) (streams : Map (List Entry)) (listing : List (Result Text JournalEntry))
      (d : p.State) {end : Map (List Entry)}
      → (collect_streams p f index streams listing d).0 ≡ ok end
      → All (EntryRead d end) listing
  unfolding collect_streams
  collect-read index streams [] d h = tt
  collect-read index streams (listed ∷ rest) d {end} h =
      let (_, room, h1) = continue-eq-ok _ _ _ h in
      let (entry, readable, h2) = continue-eq-ok _ _ _ h1 in
      let (kept, got, h3) = continue-eq-ok _ _ _ h2 in
      let (no_link, held) = read_entry-Holds entry d kept got in
      let after = (read_entry p f entry d).1 in
      let same : d ≡ after = read_entry-Keeps (λ t. d ≡ t) entry d refl in
      (
        subst (EntryRead d end) {x = ok entry} {y = listed}
            (elim (Result-cases listed) [
              | inl (x, e) ↦ ground arith
              | inr (m, e) ↦ absurd (ground arith)
            ])
            (entry_read d entry kept end no_link held (λ e is_kept.
              collect-InStream (index + 1) (push_entry kept streams) rest after {end = end} e h3 (
                subst (λ k. InStream e (push_entry k streams)) (sym is_kept)
                  (push-new e streams)))),
        subst (λ t. All (EntryRead t end) rest) (sym same)
            (collect-read (index + 1) (push_entry kept streams) rest after {end = end} h3),
      )

  abbrev pub OnlyRead : p.State → List (Result Text JournalEntry) → Map (List Entry) → Type 0
  OnlyRead d listing streams =
      (id : Text) (es : List Entry) → get id streams ≡ some es → All (Sourced d listing) es

  push-OnlyRead :
      (d : p.State) (listing : List (Result Text JournalEntry)) (kept : Option Entry)
      (streams : Map (List Entry))
      → ((e : Entry) → kept ≡ some e → Sourced d listing e)
      → OnlyRead d listing streams
      → OnlyRead d listing (push_entry kept streams)
  push-OnlyRead d listing none streams from h id es found = h id es found
  push-OnlyRead d listing (some k) streams from h id es found =
      let old = entries_or_empty (get k.1.operation_id streams) in
      let step = get-insert k.1.operation_id id (old ++ (k ∷ [])) streams in
      elim (Bool-cases (text_eq k.1.operation_id id)) [
        | inr other ↦ h id es (ground (arith, step))
        | inl same ↦
            subst (All (Sourced d listing)) {x = old ++ (k ∷ [])} {y = es} (ground (arith, step)) (
              All-append (Sourced d listing) old (k ∷ []) (olds (get k.1.operation_id streams) refl)
                (from k refl, tt))
      ]
    where
      olds :
          (o : Option (List Entry))
          → get k.1.operation_id streams ≡ o
          → All (Sourced d listing) (entries_or_empty o)
      olds none e = tt
      olds (some es) e = h k.1.operation_id es e

  pub collect-OnlyRead :
      (index : ℕ) (whole : List (Result Text JournalEntry)) (streams : Map (List Entry))
      (listing : List (Result Text JournalEntry)) (d : p.State) {end : Map (List Entry)}
      → (collect_streams p f index streams listing d).0 ≡ ok end
      → ((listed : Result Text JournalEntry) → Mem listed listing → Mem listed whole)
      → OnlyRead d whole streams
      → OnlyRead d whole end
  unfolding collect_streams
  collect-OnlyRead index whole streams [] d {end} h sub only =
      subst (OnlyRead d whole) {x = streams} {y = end} (ground arith) only
  collect-OnlyRead index whole streams (listed ∷ rest) d {end} h sub only =
      let (_, room, h1) = continue-eq-ok _ _ _ h in
      let (entry, readable, h2) = continue-eq-ok _ _ _ h1 in
      let (kept, got, h3) = continue-eq-ok _ _ _ h2 in
      let (no_link, held) = read_entry-Holds entry d kept got in
      let after = (read_entry p f entry d).1 in
      let same : d ≡ after = read_entry-Keeps (λ t. d ≡ t) entry d refl in
      let is_listed : listed ≡ ok entry = elim (Result-cases listed) [
        | inl (x, e) ↦ ground arith
        | inr (m, e) ↦ absurd (ground arith)
      ] in
      subst (λ t. OnlyRead t whole end) (sym same)
        (collect-OnlyRead (index + 1) whole (push_entry kept streams) rest after {end = end} h3
          (λ x m. sub x (inr m))
          (subst (λ t. OnlyRead t whole (push_entry kept streams)) same
            (push-OnlyRead d whole kept streams
              (λ e is_kept.
                (entry, sub (ok entry) (inl is_listed), subst (Holds d entry) is_kept held))
              only)))
