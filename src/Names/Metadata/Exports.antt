-- ===== src/Names/Metadata/Exports.antt =====
-- What an export leaves in the cells of a task and of a feature.
use aspect_cli.Base.{
  ◌≡◌, refl, some, List, [], ◌∷◌, All, Text, length, ◌≤◌, arith, ltb, inl, inr, Bool-cases, ltb→lt,
  ◌<◌, ◌↔◌,
}
use aspect_cli.Names.{
  Validity, valid, invalid, validate_type_name, validate_command_name, to_command_name,
  too_many_groups, and_then, to_display_name, camel_to_display_name,
}
use aspect_cli.Names.Conversion.{to_command_name-IsValid}
use aspect_cli.Names.Metadata.{
  Feature, Task, Exported, exported, rejected, or_default, export_feature, export_task,
  validate_task, validate_groups, validate_kind, max_task_groups,
}

-- a name that is given and accepted, or is left to the export
abbrev pub IsOpen : Text → Type 0
IsOpen [] = Unit
IsOpen (c ∷ s) = validate_command_name (c ∷ s) ≡ valid

-- a feature that is exported has a valid name and knows its variable; one that is not is as before
abbrev pub IsNamedFeature : Text → Feature → Exported Feature → Type 0
IsNamedFeature variable_name before (exported after) =
    (validate_command_name after.name ≡ valid) × (after.export_name ≡ some variable_name)
IsNamedFeature variable_name before (rejected e after) = after ≡ before

-- a kind that was given stays as it is
abbrev pub IsKept : Text → Text → Type 0
IsKept [] after = Unit
IsKept (c ∷ s) after = after ≡ c ∷ s

-- a task that is exported has a variable that gives a valid name, and a valid kind, the one it was given
-- if it was given one; one that is not has a variable that gives none, and is as before
abbrev pub IsNamedTask : Text → Task → Exported Task → Type 0
IsNamedTask variable_name before (exported after) =
    (validate_command_name (to_command_name variable_name) ≡ valid)
    × (validate_command_name after.kind ≡ valid)
    × IsKept before.kind after.kind
IsNamedTask variable_name before (rejected e after) =
    (validate_command_name (to_command_name variable_name) ≡ invalid e) × (after ≡ before)

or_default-IsValid :
    (name value : Text)
    → IsOpen name
    → validate_command_name value ≡ valid
    → validate_command_name (or_default name value) ≡ valid
or_default-IsValid [] value free h = h
or_default-IsValid (c ∷ s) value free h = free

-- An export of a feature whose name was left open or accepted gives it the name of a command, and is
-- refused without a change if the variable is no name of a type.
pub export_feature-IsNamedFeature :
    (variable_name : Text) (f : Feature)
    → IsOpen f.name
    → IsNamedFeature variable_name f (export_feature variable_name f)
unfolding export_feature
export_feature-IsNamedFeature variable_name f free =
    by_check (validate_type_name variable_name) refl
  where
    by_check :
        (v : Validity)
        → validate_type_name variable_name ≡ v
        → IsNamedFeature variable_name f (elim v [
          | valid ↦ exported (record {
            export_name = some variable_name;
            name = or_default f.name (to_command_name variable_name);
            display_name = or_default f.display_name (camel_to_display_name variable_name);
          })
          | invalid e ↦ rejected e f
        ])
    by_check valid e = (
      or_default-IsValid f.name (to_command_name variable_name) free
          (to_command_name-IsValid variable_name e),
      refl,
    )
    by_check (invalid x) e = refl

or_default-IsKept : (name value : Text) → IsKept name (or_default name value)
or_default-IsKept [] value = tt
or_default-IsKept (c ∷ s) value = refl

and_then_iff : (v u : Validity) → (and_then v u ≡ valid) ↔ ((v ≡ valid) × (u ≡ valid))
and_then_iff valid u = (λ h. (refl, h), λ h. h.1)
and_then_iff (invalid e) u = (λ h. cc, λ h. cc)

abbrev pub IsCommand : Text → Type 0
IsCommand name = validate_command_name name ≡ valid

validate_groups_iff : (group : List Text) → (validate_groups group ≡ valid) ↔ All IsCommand group
unfolding validate_groups
validate_groups_iff [] = (λ h. tt, λ h. refl)
validate_groups_iff (g ∷ group) =
    let (there, back) = and_then_iff (validate_command_name g) (validate_groups group) in
    let (in_all, of_all) = validate_groups_iff group in
    (λ h. ((there h).0, in_all (there h).1), λ h. back (h.0, of_all h.1))

validate_kind_iff : (kind : Text) → (validate_kind kind ≡ valid) ↔ IsOpen kind
validate_kind_iff [] = (λ h. tt, λ h. refl)
validate_kind_iff (c ∷ s) = (λ h. h, λ h. h)

-- The kind and the groups of a task are accepted exactly if there are five groups at most, each of them
-- the name of a command, and the kind is one or is left open.
pub validate_task_iff :
    (kind : Text) (group : List Text)
    → (validate_task kind group ≡ valid) ↔ ((length group ≤ 5) × IsOpen kind × All IsCommand group)
unfolding validate_task
validate_task_iff kind group = elim (Bool-cases (ltb max_task_groups (length group))) [
  | inl more ↦
      let over : 5 < length group = ltb→lt 5 (length group) more in
      (
        λ h. let bad : invalid too_many_groups ≡ valid = rw more at h in cc,
        λ h. let few = h.0 in absurd (omega (arith, over, few)),
      )
  | inr few ↦
      let within : length group ≤ 5 = ground arith in
      let (there, back) = and_then_iff (validate_kind kind) (validate_groups group) in
      let (free, of_free) = validate_kind_iff kind in
      let (all_named, of_named) = validate_groups_iff group in
      rw few (
        λ h. (within, free (there h).0, all_named (there h).1),
        λ h. back (of_free h.1, of_named h.2),
      )
]

-- An export of a task whose kind and groups were accepted passes only if the variable gives the name of a
-- command, even where the kind was given: then the kind is the name of a command, and one that was given
-- is kept. It is refused only if the variable gives none, with the error of that check, and then the task
-- is as before.
pub export_task-IsNamedTask :
    (variable_name : Text) (t : Task) (group : List Text)
    → validate_task t.kind group ≡ valid
    → IsNamedTask variable_name t (export_task variable_name t)
unfolding export_task
export_task-IsNamedTask variable_name t group accepted =
    by_check (validate_command_name (to_command_name variable_name)) refl
  where
    free : IsOpen t.kind
    free = ((validate_task_iff t.kind group).0 accepted).1

    by_check :
        (v : Validity)
        → validate_command_name (to_command_name variable_name) ≡ v
        → IsNamedTask variable_name t (elim v [
          | valid ↦ exported (record {
            kind = or_default t.kind (to_command_name variable_name);
            friendly_kind =
                or_default t.friendly_kind
                  (to_display_name (or_default t.kind (to_command_name variable_name)));
          })
          | invalid e ↦ rejected e t
        ])
    by_check valid e = (
      e,
      or_default-IsValid t.kind (to_command_name variable_name) free e,
      or_default-IsKept t.kind (to_command_name variable_name),
    )
    by_check (invalid x) e = (e, refl)
