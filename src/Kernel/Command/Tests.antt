-- ===== src/Kernel/Command/Tests.antt =====
-- Commands that a user may type.
use routine_linux_edition.Base.{ℕ, ◌≢◌, ◌≡◌, refl, true, [], ◌∷◌, map, ◌++◌}
use routine_linux_edition.Base.Bytes.{Bytes, bytes, starts_with}
use routine_linux_edition.Kernel.Command.{
  is_separator, tolower, until_separator, from_separator, skip_separators, split_command,
  parse_prefixed_command,
}
use routine_linux_edition.Kernel.Command.Parse.{parse_prefixed_command-append}

parse_work :
    parse_prefixed_command (bytes "~WORK  now please") (bytes "~")
    ≡ record { found = true; command = bytes "work"; arguments = bytes "now please" }
unfolding parse_prefixed_command split_command is_separator tolower until_separator from_separator
    skip_separators starts_with
parse_work = refl

not_empty : {x : ℕ} {t : Bytes} → x ∷ t ≢ []
not_empty e = cc

parse_prefixed_command-append_example :
    parse_prefixed_command (bytes "~" ++ (bytes "Pay" ++ 32 ∷ bytes "5 bob")) (bytes "~")
    ≡ record { found = true; command = map tolower (bytes "Pay"); arguments = bytes "5 bob" }
unfolding is_separator
parse_prefixed_command-append_example =
    parse_prefixed_command-append (bytes "~") (bytes "Pay") 32 (bytes "5 bob") not_empty not_empty
      (refl, (refl, (refl, tt))) refl refl
