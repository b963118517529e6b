-- ===== src/Resources/Examples.antt =====
-- The roots of a Notebook that is bound to an Environment.
use fabric_workspace_fs.Prelude.{some, ◌≡◌, refl, none, true, List, [], ◌∷◌, All}
use fabric_workspace_fs.Prelude.Int.{pos}
use fabric_workspace_fs.Errors.{ok, err, handle_closed}
use fabric_workspace_fs.Bytes.{Bytes, ascii, same}
use fabric_workspace_fs.Names.Labels.{valid_id, valid_id_from, is_hex}
use fabric_workspace_fs.Writeback.{os_read}
use fabric_workspace_fs.Resources.{
  Target, Root, notebook, environment, validate_target, same_target, allowed_root, seen,
  validate_roots_loop, validate_roots, new_snapshot, snapshot_read_at, close_snapshot,
}
use fabric_workspace_fs.Resources.Binding.{bound_target, raw_binding, environment_binding}
use fabric_workspace_fs.Resources.Roots.{IsAccepted, AreNew, validate_roots_lem}

abbrev some_id : Bytes
some_id = ascii "0000000a-1111-2222-3333-444444444444"

abbrev owner : Target
owner = record { workspace_id = some_id; item_id = some_id; kind = notebook }

abbrev bound : Target
bound = record { workspace_id = some_id; item_id = some_id; kind = environment }

abbrev roots : List Root
roots =
    record { name = ascii "builtin"; target = owner }
    ∷ record { name = ascii "env"; target = bound }
    ∷ []

accepted : validate_roots owner roots ≡ none
unfolding validate_roots validate_roots_loop validate_target seen allowed_root same_target same
    valid_id valid_id_from is_hex
accepted = refl

validate_roots_example : All (IsAccepted owner) roots × AreNew [] roots
validate_roots_example = validate_roots_lem owner roots accepted

-- a snapshot is read to its end, and refuses once it is closed
snapshot_reads :
    (snapshot_read_at (new_snapshot (1 ∷ 2 ∷ 3 ∷ []) []) 5 (pos 1) ≡ ok (2 ∷ 3 ∷ [], true))
    × (snapshot_read_at (close_snapshot (new_snapshot (1 ∷ []) [])) 1 (pos 0) ≡ err handle_closed)
unfolding snapshot_read_at os_read
snapshot_reads = (refl, refl)

-- a document that binds to an Environment of the Notebook's own workspace, by trident alone
binds_trident :
    environment_binding
      (λ json. some (record { dependency = some (ascii "null"); trident = some json }))
      (λ raw. some (record { environment_id = some_id; workspace_id = []; logical_id = [] }))
      (λ raw. raw)
      (ascii "{}")
      some_id
    ≡ ok (some bound)
unfolding environment_binding raw_binding bound_target validate_target same valid_id valid_id_from
    is_hex
binds_trident = refl
