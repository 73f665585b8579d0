-- ===== src/Names/Metadata.antt =====
-- `Feature::export_as` of crates/axl-runtime/src/engine/feature.rs, and `Task::export_as` and
-- `resolve_task_metadata` of task.rs.
pub mod Exports
use aspect_cli.Base.{
  ℕ, ◌⊎◌, inl, inr, Option, some, List, [], ◌∷◌, ltb, if◌then◌else◌, length, Text,
}
use aspect_cli.Names.{
  Validity, valid, invalid, NameError, too_many_groups, and_then, validate_type_name,
  to_command_name, camel_to_display_name, validate_command_name, to_display_name,
}

-- the cells of a `Feature` that its export fills
pub record Feature : Type 0 where
  pub export_name : Option Text
  pub name : Text
  pub display_name : Text

-- the cells of a `Task` that its export fills
pub record Task : Type 0 where
  pub kind : Text
  pub friendly_kind : Text

-- the result of an export, and what the cells hold then
pub data Exported {ℓ} (A : Type ℓ) : Type ℓ where
  exported : A → Exported A
  rejected : NameError → A → Exported A

-- a cell that is filled only if it is empty
abbrev pub or_default : Text → Text → Text
or_default [] value = value
or_default (c ∷ s) value = c ∷ s

unfoldable pub export_feature : Text → Feature → Exported Feature
unfolding validate_type_name to_command_name camel_to_display_name
export_feature variable_name f = elim (validate_type_name variable_name) [
  | valid ↦ exported (record {
    export_name = some variable_name;
    name = or_default f.name (to_command_name variable_name);
    display_name = or_default f.display_name (camel_to_display_name variable_name);
  })
  | invalid e ↦ rejected e f
]

unfoldable pub export_task : Text → Task → Exported Task
unfolding validate_command_name to_command_name to_display_name
export_task variable_name t =
    let kebab = to_command_name variable_name in
    let kind = or_default t.kind kebab in
    elim (validate_command_name kebab) [
      | valid ↦ exported (record {
        kind = kind;
        friendly_kind = or_default t.friendly_kind (to_display_name kind);
      })
      | invalid e ↦ rejected e t
    ]

abbrev pub max_task_groups : ℕ
max_task_groups = 5

unfoldable pub validate_groups : List Text → Validity
unfolding validate_command_name
validate_groups [] = valid
validate_groups (g ∷ group) = and_then (validate_command_name g) (validate_groups group)

abbrev pub validate_kind : Text → Validity
validate_kind [] = valid
validate_kind (c ∷ s) = validate_command_name (c ∷ s)

-- the checks of `resolve_task_metadata`
unfoldable pub validate_task : Text → List Text → Validity
unfolding validate_groups
validate_task kind group =
    if ltb max_task_groups (length group)
    then invalid too_many_groups
    else and_then (validate_kind kind) (validate_groups group)

abbrev pub derived : Text → Text
derived [] = []
derived (c ∷ s) = to_display_name (c ∷ s)

unfoldable pub resolve_task_metadata : Text → List Text → Text → NameError ⊎ Text
unfolding validate_task
resolve_task_metadata kind group friendly_kind = elim (validate_task kind group) [
  | valid ↦ inr (or_default friendly_kind (derived kind))
  | invalid e ↦ inl e
]
