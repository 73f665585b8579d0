-- ===== src/Names/Args.antt =====
-- `Arg` of crates/axl-runtime/src/engine/arg.rs: the definition of an argument of a task or a feature. How
-- a value of Starlark is unpacked, matched against a type and frozen is a parameter.
pub mod Overlay
use aspect_cli.Base.{
  ℕ, ◌≡◌, refl, Bool, true, false, ◌&&◌, ◌||◌, Option, none, some, List, [], ◌∷◌, if◌then◌else◌,
  any, Text, text_eq, split_once, is_lower, is_digit, all, ◌==◌,
}
use aspect_cli.Base.Int.{ℤ, pos}

-- what the flags have in common, with the type of their default
pub record FlagArg (T : Type 0) : Type 0 where
  pub required : Bool
  pub default : T
  pub short : Option Text
  pub long : Option Text
  pub description : Option Text

module _ (V : Type 0) where
  -- `Arg`; `V` is a value of Starlark
  pub data Arg : Type 0 where
    string : FlagArg Text → (values : Option (List Text)) → (bare : Option Text) → Arg
    boolean : FlagArg Bool → Arg
    int : FlagArg ℤ → Arg
    uint : FlagArg ℕ → Arg
    positional : (minimum maximum : ℕ) → Option (List Text) → Option Text → Arg
    trailing_var_args : Option Text → Arg
    string_list : FlagArg (List Text) → Arg
    boolean_list : FlagArg (List Bool) → Arg
    int_list : FlagArg (List ℤ) → Arg
    uint_list : FlagArg (List ℕ) → Arg
    custom : (typ_value default : Option V) → Option Text → Arg

  pub record Values : Type 0 where
    pub to_string : V → Option Text
    pub to_bool : V → Option Bool
    pub to_int : V → Option ℤ
    pub to_uint : V → Option ℕ
    pub to_strings : V → Option (List Text)
    pub to_bools : V → Option (List Bool)
    pub to_ints : V → Option (List ℤ)
    pub to_uints : V → Option (List ℕ)
    -- whether a type compiles, and whether a value matches it
    pub matches : V → V → Option Bool
    pub unpack_frozen : V → Option V

-- the check of the values that are allowed
abbrev pub is_allowed : Option (List Text) → Text → Bool
is_allowed none value = true
is_allowed (some allowed) value = any (λ v. text_eq v value) allowed

module _ {V : Type 0} where
  unfoldable pub is_required : Arg V → Bool
  is_required (string f values bare) = f.required
  is_required (boolean f) = f.required
  is_required (int f) = f.required
  is_required (uint f) = f.required
  is_required (string_list f) = f.required
  is_required (boolean_list f) = f.required
  is_required (int_list f) = f.required
  is_required (uint_list f) = f.required
  is_required (positional minimum maximum default description) = false
  is_required (trailing_var_args description) = false
  is_required (custom typ_value default description) = false

  unfoldable pub is_cli_exposed : Arg V → Bool
  is_cli_exposed (custom typ_value default description) = false
  is_cli_exposed _ = true

  unfoldable pub long_override : Arg V → Option Text
  long_override (string f values bare) = f.long
  long_override (boolean f) = f.long
  long_override (int f) = f.long
  long_override (uint f) = f.long
  long_override (string_list f) = f.long
  long_override (boolean_list f) = f.long
  long_override (int_list f) = f.long
  long_override (uint_list f) = f.long
  long_override (positional minimum maximum default description) = none
  long_override (trailing_var_args description) = none
  long_override (custom typ_value default description) = none

  abbrev pub overlay : {T : Type 0} → (FlagArg T → Arg V) → FlagArg T → Option T → Option (Arg V)
  overlay make f none = none
  overlay make f (some value) = some (make (record f { default = value }))

  abbrev pub overlay_string :
      FlagArg Text → Option (List Text) → Option Text → Option Text → Option (Arg V)
  overlay_string f values bare none = none
  overlay_string f values bare (some value) =
      if is_allowed values value
      then some (string (record f { default = value }) values bare)
      else none

  abbrev pub overlay_items : ℕ → ℕ → Option Text → Option (List Text) → Option (Arg V)
  overlay_items minimum maximum description none = none
  overlay_items minimum maximum description (some items) =
      some (positional minimum maximum (some items) description)

  -- whether a value has the type of a custom argument; nothing if the type does not compile
  abbrev pub type_check : Values V → Option V → V → Option Bool
  type_check u none value = some true
  type_check u (some typ) value = u.matches typ value

  abbrev pub overlay_custom : Values V → Option V → Option Text → V → Option Bool → Option (Arg V)
  overlay_custom u typ_value description value none = none
  overlay_custom u typ_value description value (some false) = none
  overlay_custom u typ_value description value (some true) =
      some (custom typ_value (u.unpack_frozen value) description)

  -- `with_default`; nothing for an error
  unfoldable pub with_default : Values V → Arg V → V → Option (Arg V)
  with_default u (string f values bare) value = overlay_string f values bare (u.to_string value)
  with_default u (boolean f) value = overlay boolean f (u.to_bool value)
  with_default u (int f) value = overlay int f (u.to_int value)
  with_default u (uint f) value = overlay uint f (u.to_uint value)
  with_default u (positional minimum maximum default description) value =
      overlay_items minimum maximum description (u.to_strings value)
  with_default u (string_list f) value = overlay string_list f (u.to_strings value)
  with_default u (boolean_list f) value = overlay boolean_list f (u.to_bools value)
  with_default u (int_list f) value = overlay int_list f (u.to_ints value)
  with_default u (uint_list f) value = overlay uint_list f (u.to_uints value)
  with_default u (custom typ_value default description) value =
      overlay_custom u typ_value description value (type_check u typ_value value)
  with_default u (trailing_var_args description) value = none

-- the segments of `validated_long`
unfoldable pub valid_segment : Text → Bool
valid_segment [] = false
valid_segment (c ∷ s) =
    is_lower c && all (λ d. is_lower d || is_digit d || d == b'-' || d == b'_') s

abbrev pub valid_parts : Text → Option (Text × Text) → Bool
valid_parts s none = valid_segment s
valid_parts s (some (prefix, suffix)) = valid_segment prefix && valid_segment suffix

-- the check of `validated_long`
unfoldable pub validated_long : Option Text → Bool
unfolding split_once valid_segment
validated_long none = true
validated_long (some s) = valid_parts s (split_once b':' s)
