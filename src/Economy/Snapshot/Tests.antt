-- ===== src/Economy/Snapshot/Tests.antt =====
-- The first snapshot of a server.
use routine_linux_edition.Base.{◌≤◌, length, arith}
use routine_linux_edition.Base.Int.{pos}
use routine_linux_edition.Base.Bytes.{bytes}
use routine_linux_edition.Economy.State.{empty_store}
use routine_linux_edition.Economy.Snapshot.History.{
  count, of_guild, record_snapshot, maximum_history,
}
use routine_linux_edition.Economy.Snapshot.History.Kept.{record_snapshot_bounds}

no_snapshot : count (of_guild (bytes "1")) empty_store.snapshots ≤ 168
unfolding count
no_snapshot = omega arith

record_snapshot_bounds_example :
    (count (of_guild (bytes "1")) (record_snapshot (bytes "1") (pos 1_000) empty_store).1.snapshots
      ≤ 168)
    × (length (record_snapshot (bytes "1") (pos 1_000) empty_store).1.player_history
        ≤ maximum_history)
record_snapshot_bounds_example =
    record_snapshot_bounds (bytes "1") (pos 1_000) empty_store no_snapshot (omega arith)
