-- ===== src/Resources/Binding.antt =====
-- internal/resources/binding.go: the Environment that a Notebook is bound to. The JSON decoder and
-- bytes.TrimSpace are parameters; a document is what the decoder finds of the binding.
use fabric_workspace_fs.Prelude.{Bool, true, ◌&&◌, Option, none, some, if◌then◌else◌}
use fabric_workspace_fs.Errors.{Error, Result, ok, err, invalid}
use fabric_workspace_fs.Bytes.{Bytes, ascii, same}
use fabric_workspace_fs.Names.{is_nil}
use fabric_workspace_fs.Resources.{Target, environment, validate_target}

-- the raw values under "environment" of the dependencies and of trident
pub record Document : Type 0 where
  pub dependency : Option Bytes
  pub trident : Option Bytes

pub record Binding : Type 0 where
  pub environment_id : Bytes
  pub workspace_id : Bytes
  pub logical_id : Bytes

abbrev checked_target : Target → Option Error → Result (Option Target)
checked_target t none = ok (some t)
checked_target t (some e) = err e

-- what a decoded binding stands for
unfoldable pub bound_target : Bytes → Binding → Result (Option Target)
unfolding validate_target
bound_target workspace b =
    let target : Target = record {
      workspace_id = if is_nil b.workspace_id then workspace else b.workspace_id;
      item_id = b.environment_id;
      kind = environment;
    } in
    if is_nil b.environment_id && is_nil b.workspace_id && is_nil b.logical_id
    then ok none
    else if is_nil b.environment_id
    then err invalid
    else checked_target target (validate_target target)

module _ (decode_document : Bytes → Option Document) (decode_binding : Bytes → Option Binding)
    (trim_space : Bytes → Bytes) where
  abbrev is_missing : Option Bytes → Bool
  is_missing none = true
  is_missing (some raw) = same (trim_space raw) (ascii "null")

  -- the raw binding: that of the dependencies, else that of trident
  unfoldable pub raw_binding : Document → Option Bytes
  raw_binding d = if is_missing d.dependency then d.trident else d.dependency

  abbrev decoded_binding : Bytes → Option Bytes → Result (Option Target)
  decoded_binding workspace none = ok none
  decoded_binding workspace (some raw) =
      if is_missing (some raw)
      then ok none
      else elim (decode_binding raw) [ none ↦ err invalid | some b ↦ bound_target workspace b ]

  unfoldable pub environment_binding : Bytes → Bytes → Result (Option Target)
  unfolding raw_binding
  environment_binding notebook_json workspace = elim (decode_document notebook_json) [
    | none ↦ err invalid
    | some d ↦ decoded_binding workspace (raw_binding d)
  ]
