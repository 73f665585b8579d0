-- ===== src/Names/Args/Overlay.antt =====
-- A default that is laid over the one of an argument.
use aspect_cli.Base.{
  ◌≡◌, refl, Bool, true, false, Option, none, some, List, [], if◌then◌else◌, Text,
}
use aspect_cli.Base.Int.{pos}
use aspect_cli.Names.Args.{
  FlagArg, Arg, string, boolean, int, uint, positional, trailing_var_args, string_list,
  boolean_list, int_list, uint_list, custom, Values, overlay, is_allowed, overlay_string,
  overlay_items, type_check, overlay_custom, with_default,
}

module _ {V : Type 0} where
  -- an argument without its default
  abbrev pub without_default : {T : Type 0} → (FlagArg T → Arg V) → T → FlagArg T → Arg V
  without_default make empty f = make (record f { default = empty })

  abbrev pub schema : Arg V → Arg V
  schema (string f values bare) = string (record f { default = [] }) values bare
  schema (boolean f) = without_default boolean false f
  schema (int f) = without_default int (pos 0) f
  schema (uint f) = without_default uint 0 f
  schema (positional minimum maximum default description) =
      positional minimum maximum none description
  schema (string_list f) = without_default string_list [] f
  schema (boolean_list f) = without_default boolean_list [] f
  schema (int_list f) = without_default int_list [] f
  schema (uint_list f) = without_default uint_list [] f
  schema (custom typ_value default description) = custom typ_value none description
  schema (trailing_var_args description) = trailing_var_args description

  -- the value matches the type, where there is one
  abbrev pub HasType : Values V → Option V → V → Type 0
  HasType u none value = Unit
  HasType u (some typ) value = u.matches typ value ≡ some true

  -- the default of the argument is what the value is unpacked to, and obeys the constraint
  abbrev pub Obeys : Values V → V → Arg V → Type 0
  Obeys u value (string f values bare) =
      (u.to_string value ≡ some f.default) × (is_allowed values f.default ≡ true)
  Obeys u value (boolean f) = u.to_bool value ≡ some f.default
  Obeys u value (int f) = u.to_int value ≡ some f.default
  Obeys u value (uint f) = u.to_uint value ≡ some f.default
  Obeys u value (positional minimum maximum default description) =
      (items : List Text) × (u.to_strings value ≡ some items) × (default ≡ some items)
  Obeys u value (trailing_var_args description) = ⊥
  Obeys u value (string_list f) = u.to_strings value ≡ some f.default
  Obeys u value (boolean_list f) = u.to_bools value ≡ some f.default
  Obeys u value (int_list f) = u.to_ints value ≡ some f.default
  Obeys u value (uint_list f) = u.to_uints value ≡ some f.default
  Obeys u value (custom typ_value default description) =
      HasType u typ_value value × (default ≡ u.unpack_frozen value)

  -- why a value is refused for the argument
  abbrev pub IsRefused : Values V → V → Arg V → Type 0
  IsRefused u value (string f values bare) =
      (s : Text) → u.to_string value ≡ some s → is_allowed values s ≡ false
  IsRefused u value (boolean f) = u.to_bool value ≡ none
  IsRefused u value (int f) = u.to_int value ≡ none
  IsRefused u value (uint f) = u.to_uint value ≡ none
  IsRefused u value (positional minimum maximum default description) = u.to_strings value ≡ none
  IsRefused u value (trailing_var_args description) = Unit
  IsRefused u value (string_list f) = u.to_strings value ≡ none
  IsRefused u value (boolean_list f) = u.to_bools value ≡ none
  IsRefused u value (int_list f) = u.to_ints value ≡ none
  IsRefused u value (uint_list f) = u.to_uints value ≡ none
  IsRefused u value (custom typ_value default description) = ¬ HasType u typ_value value

  abbrev pub IsOverlay : Values V → Arg V → V → Option (Arg V) → Type 0
  IsOverlay u a value none = IsRefused u value a
  IsOverlay u a value (some b) = (schema b ≡ schema a) × Obeys u value b

  overlay-IsOverlay :
      {T : Type 0} (u : Values V) (value : V) (make : FlagArg T → Arg V) (f : FlagArg T)
      (o : Option T)
      → (o ≡ none → IsRefused u value (make f))
      → ((x : T) → o ≡ some x → IsOverlay u (make f) value (some (make (record f { default = x }))))
      → IsOverlay u (make f) value (overlay make f o)
  overlay-IsOverlay u value make f none refused h = refused refl
  overlay-IsOverlay u value make f (some x) refused h = h x refl

  -- An override of a default is refused exactly for a reason: the value does not unpack to the kind of the
  -- argument, it is a text that is not allowed, it does not match the type that a custom argument records
  -- (or that type does not compile), or the argument takes all that is left. Otherwise the default is what
  -- the value unpacks to, for a custom argument the value as frozen or nothing if it cannot be frozen, and
  -- all else of the argument stays: kind, names, bounds and allowed values. A custom argument that records
  -- no type takes any value.
  pub with_default-IsOverlay :
      (u : Values V) (a : Arg V) (value : V) → IsOverlay u a value (with_default u a value)
  unfolding with_default
  with_default-IsOverlay u (string f values bare) value = by_value (u.to_string value) refl
    where
      by_value :
          (o : Option Text)
          → u.to_string value ≡ o
          → IsOverlay u (string f values bare) value (overlay_string f values bare o)
      by_value none unpacked = λ s e. cc (unpacked, e)
      by_value (some s) unpacked = allowed (is_allowed values s) refl
        where
          allowed :
              (b : Bool)
              → is_allowed values s ≡ b
              → IsOverlay u
                  (string f values bare)
                  value
                  (if b then some (string (record f { default = s }) values bare) else none)
          allowed true e = (refl, (unpacked, e))
          allowed false e = λ t d. let same : s ≡ t = cc (unpacked, d) in cc (same, e)
  with_default-IsOverlay u (boolean f) value =
      overlay-IsOverlay u value boolean f (u.to_bool value) (λ e. e) (λ x e. (refl, e))
  with_default-IsOverlay u (int f) value =
      overlay-IsOverlay u value int f (u.to_int value) (λ e. e) (λ x e. (refl, e))
  with_default-IsOverlay u (uint f) value =
      overlay-IsOverlay u value uint f (u.to_uint value) (λ e. e) (λ x e. (refl, e))
  with_default-IsOverlay u (positional minimum maximum default description) value =
      by_value (u.to_strings value) refl
    where
      by_value :
          (o : Option (List Text))
          → u.to_strings value ≡ o
          → IsOverlay u
              (positional minimum maximum default description)
              value
              (overlay_items minimum maximum description o)
      by_value none unpacked = unpacked
      by_value (some items) unpacked = (refl, (items, unpacked, refl))
  with_default-IsOverlay u (string_list f) value =
      overlay-IsOverlay u value string_list f (u.to_strings value) (λ e. e) (λ x e. (refl, e))
  with_default-IsOverlay u (boolean_list f) value =
      overlay-IsOverlay u value boolean_list f (u.to_bools value) (λ e. e) (λ x e. (refl, e))
  with_default-IsOverlay u (int_list f) value =
      overlay-IsOverlay u value int_list f (u.to_ints value) (λ e. e) (λ x e. (refl, e))
  with_default-IsOverlay u (uint_list f) value =
      overlay-IsOverlay u value uint_list f (u.to_uints value) (λ e. e) (λ x e. (refl, e))
  with_default-IsOverlay u (custom typ_value default description) value = by_type typ_value
    where
      by_check :
          (typ : V) (o : Option Bool)
          → u.matches typ value ≡ o
          → IsOverlay u
              (custom (some typ) default description)
              value
              (overlay_custom u (some typ) description value o)
      by_check typ none e = λ h. cc
      by_check typ (some false) e = λ h. cc
      by_check typ (some true) e = (refl, (e, refl))

      by_type :
          (t : Option V)
          → IsOverlay u
              (custom t default description)
              value
              (overlay_custom u t description value (type_check u t value))
      by_type none = (refl, (tt, refl))
      by_type (some typ) = by_check typ (u.matches typ value) refl
  with_default-IsOverlay u (trailing_var_args description) value = tt
