-- ===== src/Table/Snapshots/History.antt =====
-- The reported history is in order and complete.
use icebergr.Prelude.Int.{ℤ, ltb_ℤ}
use icebergr.Prelude.Sort.Order.{IsOrdered, count, sort_by-IsOrdered, sort_by-count}
use icebergr.Prelude.Sort.Shuffle.{Shuffle, sort_by-Shuffle}
use icebergr.Prelude.{some, All, ◌≡◌, refl, List, Bool, true, false, arith, if◌then◌else◌}
use icebergr.Table.Snapshots.{Snapshot, Metadata, snapshot_le, rs_table_snapshots}

snapshot_le_total : (a b : Snapshot) → snapshot_le a b ≡ false → snapshot_le b a ≡ true
unfolding snapshot_le
snapshot_le_total a b h = ground arith

-- The history is in the order of time, then sequence number, then id, and has as many snapshots with
-- any property as the metadata has.
pub rs_table_snapshots-IsOrdered :
    (m : Metadata) (p : Snapshot → Bool)
    → IsOrdered snapshot_le (rs_table_snapshots m)
      × (count p (rs_table_snapshots m) ≡ count p m.snapshots)
unfolding rs_table_snapshots
rs_table_snapshots-IsOrdered m p = (
  sort_by-IsOrdered snapshot_le snapshot_le_total m.snapshots,
  sort_by-count snapshot_le p m.snapshots,
)

-- one key of the order, with what the later keys say
abbrev by_key : ℤ → ℤ → Bool → Bool
by_key t u later = if ltb_ℤ t u then true else if ltb_ℤ u t then false else later

by_key_trans :
    (t u v : ℤ) (l m n : Bool)
    → (l ≡ true → m ≡ true → n ≡ true)
    → by_key t u l ≡ true
    → by_key u v m ≡ true
    → by_key t v n ≡ true
by_key_trans t u v true true n next h k = let e = next refl refl in ground arith
by_key_trans t u v false m n next h k = ground arith
by_key_trans t u v true false n next h k = ground arith

snapshot_le_trans :
    (a b c : Snapshot) → snapshot_le a b ≡ true → snapshot_le b c ≡ true → snapshot_le a c ≡ true
unfolding snapshot_le
snapshot_le_trans a b c =
    by_key_trans a.timestamp_ms b.timestamp_ms c.timestamp_ms _ _ _
      (by_key_trans a.sequence_number b.sequence_number c.sequence_number _ _ _ (λ h k. ids h k))
  where
    ids :
        (if ltb_ℤ b.snapshot_id a.snapshot_id then false else true) ≡ true
        → (if ltb_ℤ c.snapshot_id b.snapshot_id then false else true) ≡ true
        → (if ltb_ℤ c.snapshot_id a.snapshot_id then false else true) ≡ true
    ids h k = ground arith

-- The order tells two snapshots apart unless they have one id.
snapshot_le-snapshot_id :
    (a b : Snapshot)
    → snapshot_le a b ≡ true
    → snapshot_le b a ≡ true
    → a.snapshot_id ≡ b.snapshot_id
unfolding snapshot_le
snapshot_le-snapshot_id a b h k = ground arith

-- the snapshot that the metadata keeps under the id
abbrev pub IsKept : Metadata → Snapshot → Type 0
IsKept m s = m.snapshot_by_id s.snapshot_id ≡ some s

-- The history is the same in whatever order the hash map gives the snapshots, each of which it keeps
-- under its id.
pub rs_table_snapshots-Shuffle :
    (m : Metadata) (l : List Snapshot)
    → All (IsKept m) m.snapshots
    → Shuffle m.snapshots l
    → rs_table_snapshots m ≡ rs_table_snapshots (record m { snapshots = l })
unfolding rs_table_snapshots
rs_table_snapshots-Shuffle m l kept s =
    sort_by-Shuffle snapshot_le snapshot_le_total snapshot_le_trans (IsKept m)
      (λ a b ka kb h k. let e = snapshot_le-snapshot_id a b h k in cc) s kept
