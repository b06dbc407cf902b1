-- ===== src/Kernel/Command.antt =====
-- src/discord_command_utils.cpp and the name test of src/discord_interaction_utils.cpp, on bytes in
-- the C locale.
use routine_linux_edition.Base.{
  ℕ, ◌+◌, Bool, true, false, not, ◌&&◌, ◌||◌, List, [], ◌∷◌, map, ltb, leb, ◌==◌, if◌then◌else◌,
  length, drop, all,
}
use routine_linux_edition.Base.Bytes.{Bytes, bytes, is_empty, starts_with}
pub mod Parse
mod Tests

-- The characters of " \t\r\n".
pub is_separator : ℕ → Bool
is_separator c = c == 0x20 || (c == 0x09 || (c == 0x0d || c == 0x0a))

-- std::tolower
pub tolower : ℕ → ℕ
tolower c = if leb b'A' c && leb c b'Z' then c + 32 else c

-- The part before the first separator: all of it where find_first_of finds none.
pub until_separator : Bytes → Bytes
until_separator [] = []
until_separator (c ∷ s) = let rest = c ∷ until_separator s in if is_separator c then [] else rest

-- The part from the first separator on.
pub from_separator : Bytes → Bytes
from_separator [] = []
from_separator (c ∷ s) = let rest = from_separator s in if is_separator c then c ∷ s else rest

-- The part from find_first_not_of on; empty where every character is a separator.
pub skip_separators : Bytes → Bytes
skip_separators [] = []
skip_separators (c ∷ s) = let rest = skip_separators s in if is_separator c then rest else c ∷ s

-- The returned flag and the two strings that are filled in.
pub record Parsed : Type 0 where
  pub found : Bool
  pub command : Bytes
  pub arguments : Bytes

pub split_command : Bytes → Parsed
split_command without_prefix =
    let command = map tolower (until_separator without_prefix) in
    record {
      found = not (is_empty command);
      command = command;
      arguments = skip_separators (from_separator without_prefix);
    }

pub parse_prefixed_command : Bytes → Bytes → Parsed
parse_prefixed_command content prefix =
    if is_empty prefix || (leb (length content) (length prefix) || not (starts_with prefix content))
    then record { found = false; command = []; arguments = [] }
    else split_command (drop (length prefix) content)

-- std::islower, std::isdigit, '-' and '_'.
pub is_name_byte : ℕ → Bool
is_name_byte c =
    (leb b'a' c && leb c b'z') || ((leb b'0' c && leb c b'9') || (c == b'-' || c == b'_'))

pub valid_chat_input_command_name : Bytes → Bool
valid_chat_input_command_name name =
    not (is_empty name) && (leb (length name) 32 && all is_name_byte name)
