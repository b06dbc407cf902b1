-- ===== src/Economy/Accounts/Tests.antt =====
-- Ids and counters at small values.
use routine_linux_edition.Base.{◌≡◌, ◌↔◌, refl, true}
use routine_linux_edition.Base.Bytes.{bytes}
use routine_linux_edition.Economy.Accounts.{valid_id, digits_from}
use routine_linux_edition.Economy.Accounts.Keys.{IsId, valid_id_iff, key_for_injective}

valid_id_iff_example : (valid_id (bytes "123") ≡ true) ↔ IsId (bytes "123")
valid_id_iff_example = valid_id_iff (bytes "123")

key_for_injective_example : (bytes "12" ≡ bytes "12") × (bytes "7" ≡ bytes "7")
unfolding valid_id digits_from
key_for_injective_example =
    key_for_injective (bytes "12") (bytes "7") (bytes "12") (bytes "7") refl refl refl
