-- ===== src/Economy/Tick/Whole/Bounded.antt =====
-- The length of the audit through economy_tick_all_impl of lib/local_economy_extension.cpp.
use routine_linux_edition.Base.{
  ◌-◌, ◌≤◌, ◌≡◌, refl, ◌∙◌, List, [], ◌∷◌, ltb, if_each, length, length-drop, tests,
}
use routine_linux_edition.Base.Int.{ℤ}
use routine_linux_edition.Base.Dict.{Dict}
use routine_linux_edition.Economy.State.{Store, AuditEntry, GuildEconomy}
use routine_linux_edition.Economy.Snapshot.History.{record_snapshot}
use routine_linux_edition.Economy.Snapshot.History.Kept.{record_snapshot-audit}
use routine_linux_edition.Economy.Tick.Whole.{
  Chance, maximum_audit, trimmed_audit, snapshots_from, loops, ticked,
}

length-trimmed_audit : (audit : List AuditEntry) → length (trimmed_audit audit) ≤ maximum_audit
unfolding trimmed_audit
length-trimmed_audit audit =
    if_each (λ (l : List AuditEntry). length l ≤ maximum_audit) (ltb maximum_audit (length audit)) _
      _ (λ h. omega (tests, length-drop (length audit - maximum_audit) audit)) (λ h. omega tests)

snapshots_from-audit :
    (now : ℤ) (guilds : Dict GuildEconomy) (s : Store)
    → (snapshots_from now guilds s).1.audit ≡ s.audit
unfolding snapshots_from
snapshots_from-audit now [] s = refl
snapshots_from-audit now ((guild_id, guild) ∷ guilds) s =
    snapshots_from-audit now guilds (record_snapshot guild_id now s).1
    ∙ record_snapshot-audit guild_id now s

pub ticked-audit :
    (chance : Chance) (now : ℤ) (s : Store) → length (ticked chance now s).1.audit ≤ maximum_audit
unfolding ticked
ticked-audit chance now s =
    let t = record (loops chance now s).1 { audit = trimmed_audit (loops chance now s).1.audit } in
    rw (snapshots_from-audit now t.guilds t) (length-trimmed_audit (loops chance now s).1.audit)
