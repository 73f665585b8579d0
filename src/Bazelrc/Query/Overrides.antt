-- ===== src/Bazelrc/Query/Overrides.antt =====
-- What the overrides that `partition_expand_all` makes say of a flag.
use aspect_cli.Base.{Bool, ◌&&◌, Option, Text, strip_prefix}
use aspect_cli.Bazelrc.Options.{RcOption}
use aspect_cli.Bazelrc.Options.{common}
use aspect_cli.Bazelrc.Query.{or_self, Flag, override_prefix, is_common}

-- what an override says of the `common` options: the text behind its prefix, under its condition
abbrev pub behind_prefix : Flag → RcOption
behind_prefix f = record {
  command = common;
  value = or_self f.0 (strip_prefix override_prefix f.0);
  version_condition = f.1;
  source_index = 0;
}

module _ (holds : Option Text → Bool) where
  abbrev pub applies : RcOption → Bool
  applies o = is_common o && holds o.version_condition
