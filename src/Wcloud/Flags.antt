-- ===== src/Wcloud/Flags.antt =====
-- The package flag, for flags that take a value: how `FlagSet.Parse` reads the arguments of
-- tools/cmd/wcloud.
use scope_network.Prelude.{Bool, ◌||◌, List, [], ◌∷◌, ◌++◌, Option, none, some, ◌==◌, if◌then◌else◌}
use scope_network.Text.{Text}

-- One argument as `FlagSet.parseOne` reads it: the arguments proper begin with it or after it, it is
-- no flag as it must be, or it names a flag, maybe with a value.
pub data Argument : Type 0 where
  proper terminator malformed : Argument
  flag : Text → Option Text → Argument

-- The name and the value around the first `=` that is not at the start.
abbrev cut : Text → Text → Argument
cut [] name = flag name none
cut (c ∷ s) name =
    let rest = cut s (name ++ c ∷ []) in if c == b'=' then flag name (some s) else rest

abbrev named : Text → Argument
named [] = malformed
named (c ∷ s) = if c == b'-' || c == b'=' then malformed else cut s (c ∷ [])

abbrev after_dashes : Text → Argument
after_dashes [] = terminator
after_dashes (c ∷ s) = named (c ∷ s)

abbrev after_dash : Text → Argument
after_dash [] = proper
after_dash (c ∷ s) = if c == b'-' then after_dashes s else named (c ∷ s)

abbrev pub read_argument : Text → Argument
read_argument [] = proper
read_argument (c ∷ s) = if c == b'-' then after_dash s else proper

-- The values that were set, in their order, and the arguments proper.
abbrev pub Parsed : Type 0
Parsed = Option (List (Text × Text) × List Text)

abbrev setting : Text → Text → Parsed → Parsed
setting name value none = none
setting name value (some (set, args)) = some ((name, value) ∷ set, args)

-- `FlagSet.Parse`: `accepts` tells of a name and a value whether there is such a flag and takes it.
unfoldable pub parse_flags : (Text → Text → Bool) → List Text → Parsed
parse_flags accepts [] = some ([], [])
parse_flags accepts (s ∷ []) = elim (read_argument s) [
  | proper ↦ some ([], s ∷ [])
  | terminator ↦ some ([], [])
  | malformed ↦ none
  | flag name none ↦ none
  | flag name (some value) ↦ if accepts name value then some ((name, value) ∷ [], []) else none
]
parse_flags accepts (s ∷ v ∷ rest) =
    let after_one = parse_flags accepts (v ∷ rest) in
    let after_two = parse_flags accepts rest in
    elim (read_argument s) [
      | proper ↦ some ([], s ∷ v ∷ rest)
      | terminator ↦ some ([], v ∷ rest)
      | malformed ↦ none
      | flag name none ↦ if accepts name v then setting name v after_two else none
      | flag name (some value) ↦ if accepts name value then setting name value after_one else none
    ]
