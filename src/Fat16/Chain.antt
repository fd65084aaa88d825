-- ===== src/Fat16/Chain.antt =====
-- Where the walk along a chain of clusters ends.
use simple_microkernel.Base.{
  ℕ, zero, suc, ◌^◌, ◌≤◌, ◌<◌, ◌≡◌, ◌⊎◌, refl, ◌∙◌, ap, lt→ltb, true, false, ℤ, pos, minus_one,
  arith,
}
use simple_microkernel.Memory.{Bytes}
use simple_microkernel.Disk.{Disk}
use simple_microkernel.Fat16.{Fat16Header, Fat16Private, ends_chain, get_fat_entry, walk}
use simple_microkernel.Fat16.Table.{IsVolume, table_entry, get_fat_entry-EntryRead}

abbrev pub IsCluster : ℕ → Type 0
IsCluster c = (2 ≤ c) × (c < 2 ^ 16)

-- Two private structs that differ in the positions of their streams at most.
pub record SameVolume (p p' : Fat16Private) : Type 0 where
  pub header : p'.header ≡ p.header
  pub root_directory : p'.root_directory ≡ p.root_directory
  pub fat_stream : p'.fat_read_stream.disk ≡ p.fat_read_stream.disk
  pub cluster_stream : p'.cluster_read_stream.disk ≡ p.cluster_read_stream.disk

pub SameVolume-trans : {p q r : Fat16Private} → SameVolume p q → SameVolume q r → SameVolume p r
SameVolume-trans a b = record {
  header = b.header ∙ a.header;
  root_directory = b.root_directory ∙ a.root_directory;
  fat_stream = b.fat_stream ∙ a.fat_stream;
  cluster_stream = b.cluster_stream ∙ a.cluster_stream;
}

pub SameVolume-IsVolume :
    {disk : Disk} {p p' : Fat16Private} → SameVolume p p' → IsVolume disk p → IsVolume disk p'
SameVolume-IsVolume s v = record {
  sector = v.sector;
  same_sector = ap Fat16Header.bytes_per_sector s.header ∙ v.same_sector;
  cluster = rw s.header v.cluster;
  small_cluster = rw s.header v.small_cluster;
  table = rw s.header v.table;
  files = rw (s.header, s.root_directory) v.files;
  fat_stream = s.fat_stream ∙ v.fat_stream;
  cluster_stream = s.cluster_stream ∙ v.cluster_stream;
}

-- the values for a free, a reserved and a bad cluster and the two ends that the source names
abbrev pub IsEndMark : ℕ → Type 0
IsEndMark e = (e ≡ 0) ⊎ (e ≡ 0xff0) ⊎ (e ≡ 0xff6) ⊎ (e ≡ 0xff7) ⊎ (e ≡ 0xff8) ⊎ (e ≡ 0xfff)

IsEndMark-ends : (e : ℕ) → IsEndMark e → ends_chain e ≡ true
IsEndMark-ends e h = ground arith

not_end : (e : ℕ) → 0xfff8 ≤ e → ends_chain e ≡ false
not_end e h = ground arith

module _ (drive : ℕ → ℕ → ℕ) where
  -- the cluster that lies `k` links behind `c`
  abbrev pub cluster_at : Fat16Header → ℕ → ℕ → ℕ
  cluster_at h c zero = c
  cluster_at h c (suc k) = cluster_at h (table_entry drive h c) k

  -- The chain of `c` has at least `k` links: their entries name clusters, and none of them is a
  -- value by which the code ends the walk.
  abbrev pub Chain : Fat16Header → ℕ → ℕ → Type 0
  Chain h c zero = IsCluster c
  Chain h c (suc k) =
      IsCluster c × (ends_chain (table_entry drive h c) ≡ false) × Chain h (table_entry drive h c) k

  pub Chain-last : (h : Fat16Header) (c k : ℕ) → Chain h c k → IsCluster (cluster_at h c k)
  Chain-last h c zero ch = ch
  Chain-last h c (suc k) ch = Chain-last h (table_entry drive h c) k ch.2

  pub Chain-le : (h : Fat16Header) (c n k : ℕ) → k ≤ n → Chain h c n → Chain h c k
  Chain-le h c zero zero l ch = ch
  Chain-le h c (suc n) zero l ch = ch.0
  Chain-le h c zero (suc k) l ch = absurd (omega arith)
  Chain-le h c (suc n) (suc k) l ch =
      (ch.0, ch.1, Chain-le h (table_entry drive h c) n k (omega arith) ch.2)

  pub record Walked (p : Fat16Private) (expected : ℤ) (r : ℤ × Fat16Private) : Type 0 where
    pub found : r.0 ≡ expected
    pub volume : SameVolume p r.1

  -- the private struct after the entry of `c` has been read
  abbrev moved : Bytes → Fat16Private → ℕ → Fat16Private
  moved stack p c = record p { fat_read_stream = (get_fat_entry drive stack p c).1 }

  module _ (stack : Bytes) (disk : Disk) where
    moved-SameVolume :
        (p : Fat16Private) (c : ℕ) → IsVolume disk p → IsCluster c → SameVolume p (moved stack p c)
    moved-SameVolume p c v h = record {
      header = refl;
      root_directory = refl;
      fat_stream = (get_fat_entry-EntryRead drive stack disk p c v h.1).same_disk;
      cluster_stream = refl;
    }

    entry-read :
        (p : Fat16Private) (c : ℕ)
        → IsVolume disk p
        → IsCluster c
        → (get_fat_entry drive stack p c).0 ≡ table_entry drive p.header c
    entry-read p c v h = (get_fat_entry-EntryRead drive stack disk p c v h.1).entry

    -- If the chain has the links, the walk finds the cluster behind them.
    pub walk-Walked :
        (k : ℕ) (p : Fat16Private) (c : ℕ)
        → IsVolume disk p
        → Chain p.header c k
        → Walked p (pos (cluster_at p.header c k)) (walk drive stack k p c)
    unfolding walk
    walk-Walked zero p c v ch = record {
      found = rw (lt→ltb c (2 ^ 31) (omega arith)) refl;
      volume = record {
        header = refl;
        root_directory = refl;
        fat_stream = refl;
        cluster_stream = refl;
      };
    }
    walk-Walked (suc k) p c v ch =
        let same = moved-SameVolume p c v ch.0 in
        let rest =
          walk-Walked k (moved stack p c) (table_entry drive p.header c)
            (SameVolume-IsVolume same v) ch.2 in
        rw (entry-read p c v ch.0, ch.1)
          (record { found = rest.found; volume = SameVolume-trans same rest.volume })

    -- If the chain ends before, by an entry that is 0, 0xFF0, 0xFF6, 0xFF7, 0xFF8 or 0xFFF, the walk
    -- fails.
    pub walk-ended :
        (rounds k : ℕ) (p : Fat16Private) (c : ℕ)
        → k < rounds
        → IsVolume disk p
        → Chain p.header c k
        → IsEndMark (table_entry drive p.header (cluster_at p.header c k))
        → Walked p minus_one (walk drive stack rounds p c)
    unfolding walk
    walk-ended zero k p c l v ch ends = absurd (omega arith)
    walk-ended (suc rounds) zero p c l v ch ends =
        rw (entry-read p c v ch, IsEndMark-ends (table_entry drive p.header c) ends)
          (record { found = refl; volume = moved-SameVolume p c v ch })
    walk-ended (suc rounds) (suc k) p c l v ch ends =
        let same = moved-SameVolume p c v ch.0 in
        let rest =
          walk-ended rounds k (moved stack p c) (table_entry drive p.header c) (omega arith)
            (SameVolume-IsVolume same v) ch.2 ends in
        rw (entry-read p c v ch.0, ch.1)
          (record { found = rest.found; volume = SameVolume-trans same rest.volume })

    -- The values from 0xFFF8 on, which end a chain of a FAT16 volume, do not end the walk: the value
    -- is taken for a cluster.
    pub walk-end_mark :
        (p : Fat16Private) (c : ℕ)
        → IsVolume disk p
        → IsCluster c
        → 0xfff8 ≤ table_entry drive p.header c
        → table_entry drive p.header c < 2 ^ 16
        → (walk drive stack 1 p c).0 ≡ pos (table_entry drive p.header c)
    walk-end_mark p c v h low high =
        (walk-Walked 1 p c v
          (h, not_end (table_entry drive p.header c) low, (omega arith, high))).found
