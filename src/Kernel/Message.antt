-- ===== src/Kernel/Message.antt =====
-- src/discord_message_utils.cpp: cutting a long message into chunks that Discord accepts.
use Prim.Native.Nat.{bit_and}
use routine_linux_edition.Base.{
  ℕ, zero, suc, ◌+◌, ◌-◌, ◌/◌, Bool, true, false, ◌&&◌, List, [], ◌∷◌, Option, none, some, ltb, leb,
  ◌==◌, if◌then◌else◌, length, take, drop, get_or,
}
use routine_linux_edition.Base.Bytes.{Bytes, is_empty}
pub mod Boundary
pub mod Chunks
mod Tests

-- content[i]
abbrev pub byte_at : Bytes → ℕ → ℕ
byte_at content i = get_or 0 content i

pub is_utf8_continuation : ℕ → Bool
is_utf8_continuation byte = bit_and byte 0xc0 == 0x80

-- content.rfind(c, position), for a position inside the text.
pub rfind : ℕ → Bytes → ℕ → Option ℕ
rfind c content zero = if byte_at content 0 == c then some 0 else none
rfind c content (suc p) =
    let rest = rfind c content p in if byte_at content (suc p) == c then some (suc p) else rest

-- The inner loop, on the distance of the boundary from the offset.
pub back_up : Bytes → ℕ → ℕ → ℕ
back_up content offset zero = offset
back_up content offset (suc d) =
    let rest = back_up content offset d in
    if is_utf8_continuation (byte_at content (offset + suc d)) then rest else offset + suc d

-- The boundary before a preferred break is looked for.
pub hard_boundary : Bytes → ℕ → ℕ → ℕ
hard_boundary content maximum_size offset =
    let boundary = back_up content offset maximum_size in
    if boundary == offset then offset + maximum_size else boundary

-- Whether a break was found, not before the preferred minimum.
abbrev usable : ℕ → Option ℕ → Bool
usable minimum none = false
usable minimum (some at) = leb minimum at

abbrev after : ℕ → Option ℕ → ℕ
after boundary none = boundary
after boundary (some at) = at + 1

pub choose_break : ℕ → ℕ → Option ℕ → Option ℕ → ℕ
choose_break minimum boundary newline space =
    if usable minimum newline
    then after boundary newline
    else if usable minimum space
    then after boundary space
    else boundary

-- The body of the outer loop: where the chunk that starts at the offset ends.
pub next_split : Bytes → ℕ → ℕ → ℕ
next_split content maximum_size offset =
    let boundary = hard_boundary content maximum_size offset in
    choose_break (offset + (boundary - offset) / 2) boundary (rfind 0x0a content (boundary - 1))
      (rfind 0x20 content (boundary - 1))

-- content.substr(offset, count)
abbrev pub substr : Bytes → ℕ → ℕ → Bytes
substr content offset count = take count (drop offset content)

abbrev prepend : Bytes → Option (List Bytes) → Option (List Bytes)
prepend chunk none = none
prepend chunk (some chunks) = some (chunk ∷ chunks)

abbrev last_chunk : Bytes → ℕ → List Bytes
last_chunk content offset = if ltb offset (length content) then drop offset content ∷ [] else []

-- The outer loop on fuel; `none` means that the fuel ran out.
pub split_loop : ℕ → Bytes → ℕ → ℕ → Option (List Bytes)
split_loop zero content maximum_size offset = none
split_loop (suc fuel) content maximum_size offset =
    let split = next_split content maximum_size offset in
    let rest =
      prepend (substr content offset (split - offset))
        (split_loop fuel content maximum_size split) in
    if ltb maximum_size (length content - offset) then rest else some (last_chunk content offset)

pub split_discord_message : Bytes → ℕ → Option (List Bytes)
split_discord_message content maximum_size =
    let run = split_loop (suc (length content)) content maximum_size 0 in
    if is_empty content then some [] else if maximum_size == 0 then some [] else run
