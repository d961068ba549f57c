-- ===== src/AgentAccess/Authority/Selections.antt =====
-- agent_access/authority.rs: `select_paths`, by which the desktop user picks the scopes of a grant.
use aiknowledge_sort_mit.Prelude.{
  ℕ, suc, ◌+◌, ◌||◌, List, [], ◌∷◌, Text, ltb, leb, length, is_empty, member, Result, ok, err,
  fail_if, if◌then◌else◌,
}
use aiknowledge_sort_mit.Prelude.Maps.{insert}
use aiknowledge_sort_mit.Prelude.Execs.{Exec, pure, lift, ◌>>=◌, ◌>>◌}
use aiknowledge_sort_mit.Discovery.Roots.{
  FilePath, sorted_paths, CapabilityRoot, directory_root, file_root, diagnostic_root,
}
use aiknowledge_sort_mit.AgentAccess.Errors.{
  Message, select_count, scope_not_directory, root_rejected, no_scopes, too_many_selections,
}
use aiknowledge_sort_mit.AgentAccess.Schema.{NativeScopeSelection, max_scopes}
use aiknowledge_sort_mit.AgentAccess.State.{
  SelectedRoot, World, max_pending_selections, selection_ttl, prune_pending,
}
use aiknowledge_sort_mit.AgentAccess.Authority.Records.{root_summaries}
use aiknowledge_sort_mit.AgentAccess.Authority.{get_state, modify_state}

-- The loop over the paths: `displays` holds the texts met, and `fresh n` is the n-th new UUID.
unfoldable pub select_roots :
    (FilePath → CapabilityRoot)
    → (ℕ → Text)
    → ℕ
    → List Text
    → List FilePath
    → Result Message (List SelectedRoot)
select_roots open_root fresh n displays [] = ok []
select_roots open_root fresh n displays (path ∷ paths) =
    let skip = select_roots open_root fresh n displays paths in
    let rest =
      λ (display : Text). select_roots open_root fresh (suc n) (display ∷ displays) paths in
    elim (open_root path) [
      | file_root display handle ↦ err scope_not_directory
      | diagnostic_root display category message ↦ err (root_rejected message)
      | directory_root display directory ↦
          if member display.display displays then skip else elim (rest display.display) [
            | err e ↦ err e
            | ok roots ↦ ok (
                record {
                  summary = record { scope_id = fresh n; display_path = display.display };
                  directory = directory;
                }
                ∷ roots)
          ]
    ]

unfoldable pub select_paths :
    (FilePath → CapabilityRoot)
    → (ℕ → Text)
    → Text
    → List FilePath
    → ℕ
    → Exec World Message NativeScopeSelection
select_paths open_root fresh selection_id paths now = do
  lift (fail_if (is_empty paths || ltb max_scopes (length paths)) select_count)
  roots ← lift (select_roots open_root fresh 0 [] (sorted_paths paths))
  lift (fail_if (is_empty roots) no_scopes)
  modify_state (prune_pending now)
  s ← get_state
  lift (fail_if (leb max_pending_selections (length s.pending_selections)) too_many_selections)
  modify_state (λ t. record t {
    pending_selections =
        insert selection_id (record { expires_at = now + selection_ttl; roots = roots })
          t.pending_selections;
  })
  pure (record { selection_id = selection_id; scopes = root_summaries roots })
