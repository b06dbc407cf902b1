-- ===== src/Kernel/Message/Tests.antt =====
-- Messages small enough to follow.
use routine_linux_edition.Base.{◌≡◌, refl, some, [], ◌∷◌, List, arith}
use routine_linux_edition.Base.Bytes.{Bytes, bytes}
use routine_linux_edition.Kernel.Message.{
  split_discord_message, split_loop, next_split, hard_boundary, choose_break, rfind, back_up,
  is_utf8_continuation,
}
use routine_linux_edition.Kernel.Message.Chunks.{Cuts, split_discord_message-Cuts}

split_words :
    split_discord_message (bytes "ab cd efgh") 4
    ≡ some (bytes "ab " ∷ bytes "cd " ∷ bytes "efgh" ∷ [])
unfolding split_discord_message split_loop next_split hard_boundary choose_break rfind back_up
    is_utf8_continuation
split_words = refl

split_discord_message-Cuts_example :
    (chunks : List Bytes) × (split_discord_message (bytes "ab cd efgh") 4 ≡ some chunks)
    × Cuts 4 (bytes "ab cd efgh") chunks
split_discord_message-Cuts_example = split_discord_message-Cuts (bytes "ab cd efgh") 4 (omega arith)
