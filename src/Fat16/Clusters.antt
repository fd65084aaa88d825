-- ===== src/Fat16/Clusters.antt =====
-- What fat16_read_internal reads of one cluster.
use simple_microkernel.Base.{
  ℕ, ◌+◌, ◌-◌, ◌*◌, ◌/◌, ◌%◌, ◌^◌, ◌≤◌, ◌<◌, ◌≡◌, inl, refl, ◌∙◌, ap, false, add32, sub32, mul32, ℤ,
  pos, is_negative, arith,
}
use simple_microkernel.Memory.{Bytes}
use simple_microkernel.Memory.Fill.{Outside}
use simple_microkernel.Disk.{Disk, DiskStream, disk_streamer_seek}
use simple_microkernel.Disk.Sector.{disk_byte}
use simple_microkernel.Disk.Stream.{disk_streamer_read-StreamRead}
use simple_microkernel.Fat16.{
  Fat16Header, Fat16Private, cluster_to_sector, cluster_bytes, offset_in_cluster,
  get_cluster_for_offset, read_cluster, read_found,
}
use simple_microkernel.Fat16.Ints.{quotient_lem, remainder_lem}
use simple_microkernel.Fat16.Table.{IsVolume}
use simple_microkernel.Fat16.Chain.{
  IsCluster, SameVolume, SameVolume-trans, SameVolume-IsVolume, cluster_at, Chain, Walked,
  walk-Walked,
}
use simple_microkernel.Fat16.Multiples.{div_of_multiple, cluster_le}

-- the size of a cluster in bytes, and the position of its first byte on the disk
abbrev pub size_of : Fat16Private → ℕ
size_of p = p.header.sectors_per_cluster * 512

abbrev pub cluster_position : Fat16Private → ℕ → ℕ
cluster_position p c =
    (p.root_directory.ending_sector_pos + (c - 2) * p.header.sectors_per_cluster) * 512

pub cluster_bytes-size_of :
    {disk : Disk} (p : Fat16Private) → IsVolume disk p → cluster_bytes disk p ≡ size_of p
cluster_bytes-size_of p v = let small = v.small_cluster in rw v.sector (omega arith)

pub size_of-small : {disk : Disk} (p : Fat16Private) → IsVolume disk p → size_of p < 2 ^ 31
size_of-small p v = let small = v.small_cluster in omega arith

module _ (drive : ℕ → ℕ → ℕ) where
  module _ (stack : Bytes) (disk : Disk) where
    -- The cluster `d` is read from its first byte on; only what lies in it is looked at.
    pub record ClusterRead (p : Fat16Private) (d total : ℕ) (m : Bytes) (out : ℕ)
        (r : ℤ × Fat16Private × Bytes) : Type 0 where
      pub success : is_negative r.0 ≡ false
      pub volume : SameVolume p r.1
      pub bytes : (j : ℕ) → j < total → r.2 (out + j) ≡ disk_byte drive (cluster_position p d + j)
      pub others : (a : ℕ) → Outside out total a → r.2 a ≡ m a

    read_cluster-ClusterRead :
        (p : Fat16Private) (d offset total : ℕ) (m : Bytes) (out : ℕ)
        → IsVolume disk p
        → IsCluster d
        → offset % size_of p ≡ 0
        → offset < 2 ^ 31
        → (p.root_directory.ending_sector_pos + 65536 * p.header.sectors_per_cluster) * 512 + total
          < 2 ^ 32
        → out + total ≤ 2 ^ 32
        → ClusterRead p d total m out (read_cluster drive stack disk p d offset total m out)
    unfolding read_cluster cluster_to_sector disk_streamer_seek
    read_cluster-ClusterRead p d offset total m out v k aligned o fits g =
        let files = v.files in
        let small : size_of p < 2 ^ 31 = size_of-small p v in
        let in_area = cluster_le d p.header.sectors_per_cluster k.1 in
        let at = cluster_position p d in
        let sector : add32 p.root_directory.ending_sector_pos
              (mul32 (sub32 d 2) p.header.sectors_per_cluster)
            ≡ p.root_directory.ending_sector_pos + (d - 2) * p.header.sectors_per_cluster =
          (let e : sub32 d 2 ≡ d - 2 = omega arith in rw e (omega arith)) in
        let place : add32
              (mul32 (p.root_directory.ending_sector_pos + (d - 2) * p.header.sectors_per_cluster)
                disk.sector_size)
              (offset_in_cluster disk p offset)
            ≡ at =
          rw
            (cluster_bytes-size_of p v, remainder_lem offset (size_of p) o small, aligned, v.sector)
            (omega arith) in
        let s : DiskStream = record p.cluster_read_stream { pos = at } in
        let read =
          disk_streamer_read-StreamRead drive stack s m out total v.cluster_stream (omega arith) g
            (inl (omega arith)) in
        rw (sector, place)
          (record {
            success = ap is_negative read.blocks.1;
            volume = record {
              header = refl;
              root_directory = refl;
              fat_stream = refl;
              cluster_stream = read.same_disk;
            };
            bytes = read.bytes;
            others = read.others;
          })

    -- the same for a private struct `p'` that differs from `p` in its streams only
    module _ (p : Fat16Private) (c : ℕ) (v : IsVolume disk p) where
      pub found-ClusterRead :
          (w : ℤ × Fat16Private) (d offset total : ℕ) (m : Bytes) (out : ℕ)
          → w.0 ≡ pos d
          → SameVolume p w.1
          → IsCluster d
          → offset % size_of p ≡ 0
          → offset < 2 ^ 31
          → (p.root_directory.ending_sector_pos + 65536 * p.header.sectors_per_cluster) * 512
              + total
            < 2 ^ 32
          → out + total ≤ 2 ^ 32
          → ClusterRead p d total m out (read_found drive stack disk w offset total m out)
      found-ClusterRead (found, w) d offset total m out e same k aligned o fits g =
          let read =
            read_cluster-ClusterRead w d offset total m out (SameVolume-IsVolume same v) k
              (rw same.header aligned) o (rw (same.header, same.root_directory) fits) g in
          let place : cluster_position w d ≡ cluster_position p d =
            rw (same.header, same.root_directory) refl in
          rw e (record {
            success = read.success;
            volume = SameVolume-trans same read.volume;
            bytes = λ j l. read.bytes j l ∙ ap (λ (x : ℕ). disk_byte drive (x + j)) place;
            others = read.others;
          })

      pub walked :
          (p' : Fat16Private) (q : ℕ)
          → SameVolume p p'
          → Chain drive p.header c q
          → q * size_of p < 2 ^ 31
          → Walked drive p
              (pos (cluster_at drive p.header c q))
              (get_cluster_for_offset drive stack disk p' c (q * size_of p))
      unfolding get_cluster_for_offset
      walked p' q same ch o =
          let w = SameVolume-IsVolume same v in
          let size : cluster_bytes disk p' ≡ size_of p =
            cluster_bytes-size_of p' w
            ∙ ap (λ (h : Fat16Header). h.sectors_per_cluster * 512) same.header in
          let links : q * size_of p / size_of p ≡ q =
            div_of_multiple q (size_of p) (omega (arith, v.cluster)) in
          let rounds = quotient_lem (q * size_of p) (size_of p) o (size_of-small p v) in
          let walk' = walk-Walked drive stack disk q p' c w (rw same.header ch) in
          rw (size, rounds, links)
            (record {
              found =
                  walk'.found ∙ ap (λ (h : Fat16Header). pos (cluster_at drive h c q)) same.header;
              volume = SameVolume-trans same walk'.volume;
            })
