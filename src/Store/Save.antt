-- ===== src/Store/Save.antt =====
-- Saving and loading the two JSON files of internal/store/store.go. A file is written beside its
-- place and renamed, so an error leaves the old one.
use wireguard_natter_helper.Prelude.{◌≡◌, Error, none, some}
use wireguard_natter_helper.Map.{update_all}
use wireguard_natter_helper.Store.State.{
  Disk, Data, missing, blank, garbled, holds, Store, Env, with_runtime,
}
use wireguard_natter_helper.Store.Clear.{
  clear_node_transient_fields, clear_binding_endpoint, clear_deprecated,
}

-- The value that `saveLocked` encodes.
unfoldable pub saved_data : Data → Data
unfolding clear_deprecated
saved_data d = record (clear_deprecated d) {
  nodes = update_all (λ _ n. clear_node_transient_fields n) d.nodes;
  bindings = update_all (λ _ b. clear_binding_endpoint b) d.bindings;
}

-- The files after `saveLocked`
unfoldable pub write_state : Env → Store → Disk
unfolding saved_data
write_state env s = elim env.state_fault [
  | some _ ↦ s.disk
  | none ↦ record s.disk { state = holds (saved_data s.state) }
]

-- `saveLocked`
unfoldable pub save_locked : Env → Store → Store × Error
save_locked env s = (record s { disk = write_state env s }, env.state_fault)

-- The files after `saveRuntimeLocked`
unfoldable pub write_runtime : Env → Store → Disk
write_runtime env s = elim env.runtime_fault [
  | some _ ↦ s.disk
  | none ↦ record s.disk { runtime = holds s.runtime }
]

-- `saveRuntimeLocked`; `ensureRuntimeMaps` changes nothing where a nil map is an empty one.
unfoldable pub save_runtime_locked : Env → Store → Store × Error
save_runtime_locked env s = (record s { disk = write_runtime env s }, env.runtime_fault)

-- The files after both saves; the second is not tried when the first fails.
unfoldable pub write_both : Env → Store → Disk
unfolding write_state write_runtime
write_both env s =
    let written = record s { disk = write_state env s } in
    elim env.state_fault [ some _ ↦ written.disk | none ↦ write_runtime env written ]

-- `if err := s.saveLocked(); err != nil { return err }; return s.saveRuntimeLocked()`
unfoldable pub save_both : Env → Store → Store × Error
save_both env s = (
  record s { disk = write_both env s },
  elim env.state_fault [ some e ↦ some e | none ↦ env.runtime_fault ],
)

-- `Save`
unfoldable pub save : Env → Store → Store × Error
unfolding save_both
save env s = save_both env s

-- `loadRuntime`: an absent or blank file keeps what is there.
unfoldable pub load_runtime : Env → Store → Store × Error
load_runtime env s = elim s.disk.runtime [
  | missing ↦ (s, none)
  | blank ↦ (s, none)
  | garbled e ↦ (s, some e)
  | holds r ↦ (with_runtime r s, none)
]

-- The two files hold what the store holds.
pub record IsPersisted (s : Store) : Type 0 where
  pub state : s.disk.state ≡ holds (saved_data s.state)
  pub runtime : s.disk.runtime ≡ holds s.runtime
