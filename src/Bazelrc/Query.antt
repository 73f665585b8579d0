-- ===== src/Bazelrc/Query.antt =====
-- crates/bazelrc/src/lib.rs: what is asked of an expanded option list, the version gates, and the
-- invocation of Bazel.
pub mod Partition
pub mod LastWins
pub mod FlagNames
pub mod Folding
pub mod Overrides
use aspect_cli.Base.{
  Bool, true, false, not, ◌&&◌, Option, none, some, List, [], ◌∷◌, ◌++◌, if◌then◌else◌, any, Text,
  text, text_eq, strip_prefix, starts_with_char, contains_char, before_char,
}
use aspect_cli.Bazelrc.Options.{RcOption, common}

-- equality of the optional conditions
abbrev pub condition_eq : Option Text → Option Text → Bool
condition_eq none none = true
condition_eq none (some d) = false
condition_eq (some c) none = false
condition_eq (some c) (some d) = text_eq c d

-- `is_two_token_pair`
unfoldable pub is_two_token_pair : RcOption → RcOption → Bool
is_two_token_pair flag value =
    starts_with_char b'-' flag.value
    && (not (contains_char b'=' flag.value)
        && (not (starts_with_char b'-' value.value)
            && (text_eq flag.command value.command
                && condition_eq flag.version_condition value.version_condition)))

-- a rendered flag and its version condition
abbrev pub Flag : Type 0
Flag = Text × Option Text

abbrev pub override_prefix : Text
override_prefix = text "--default_override=0:common="

-- `overrides` and `flags` in the order of the options
abbrev pub Partition : Type 0
Partition = List Flag × List Flag

abbrev pub add_override : Text → Option Text → Partition → Partition
add_override value condition p = ((override_prefix ++ value, condition) ∷ p.0, p.1)

abbrev pub add_regular : RcOption → Partition → Partition
add_regular o p = (p.0, (o.value, o.version_condition) ∷ p.1)

-- the base of a section key: `command.split(':').next()`
abbrev pub is_common : RcOption → Bool
is_common o = text_eq (before_char b':' o.command) common

-- The loop of `partition_expand_all`, from one option on; a folded pair takes two.
unfoldable pub partition_expand_all : List RcOption → Partition
unfolding is_two_token_pair
partition_expand_all [] = ([], [])
partition_expand_all (o ∷ []) =
    if is_common o
    then add_override o.value o.version_condition ([], [])
    else add_regular o ([], [])
partition_expand_all (o ∷ n ∷ opts) =
    let next = partition_expand_all (n ∷ opts) in
    let behind = partition_expand_all opts in
    if is_common o
    then (if is_two_token_pair o n
        then add_override (o.value ++ b'=' ∷ n.value) o.version_condition behind
        else add_override o.value o.version_condition next)
    else add_regular o next

-- the value that a bare `--name` takes from the next token
abbrev pub next_value : List RcOption → List Text
next_value [] = []
next_value (n ∷ opts) = if starts_with_char b'-' n.value then [] else n.value ∷ []

abbrev pub value_or_next : Text → RcOption → List RcOption → Option Text → List Text
value_or_next name o opts (some rest) = rest ∷ []
value_or_next name o opts none = if text_eq o.value name then next_value opts else []

-- `flag_value_list`
unfoldable pub flag_value_list : List RcOption → Text → List Text
flag_value_list [] name = []
flag_value_list (o ∷ opts) name =
    value_or_next name o opts (strip_prefix (name ++ b'=' ∷ []) o.value)
    ++ flag_value_list opts name

-- `Vec::pop`: the last item
unfoldable pub last? : List Text → Option Text
last? [] = none
last? (v ∷ []) = some v
last? (v ∷ w ∷ vs) = last? (w ∷ vs)

abbrev pub or_self : Text → Option Text → Text
or_self s none = s
or_self s (some rest) = rest

-- the arms of the match on the text behind `--name=`
abbrev pub read_bool : Option Bool → Option Text → Option Bool
read_bool state none = state
read_bool state (some rest) =
    if any (text_eq rest) (text "true" ∷ text "1" ∷ text "yes" ∷ [])
    then some true
    else if any (text_eq rest) (text "false" ∷ text "0" ∷ text "no" ∷ [])
    then some false
    else state

abbrev pub negated : Text → Text
negated name = text "--no" ++ or_self name (strip_prefix (text "--") name)

-- one round of the loop of `last_bool_flag`
unfoldable pub bool_step : Text → Option Bool → RcOption → Option Bool
bool_step name state o =
    if text_eq o.value name
    then some true
    else if text_eq o.value (negated name)
    then some false
    else read_bool state (strip_prefix (name ++ b'=' ∷ []) o.value)

-- the loop of `last_bool_flag`, from a state on
unfoldable pub bool_loop : Text → Option Bool → List RcOption → Option Bool
unfolding bool_step
bool_loop name state [] = state
bool_loop name state (o ∷ opts) = bool_loop name (bool_step name state o) opts

abbrev pub last_bool_flag : List RcOption → Text → Option Bool
last_bool_flag opts name = bool_loop name none opts
