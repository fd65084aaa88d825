-- ===== src/Fat16/Files.antt =====
-- What fat16_read_internal reads: the bytes of a file, along the chain of its clusters.
use simple_microkernel.Base.{
  ℕ, zero, suc, ◌+◌, ◌-◌, ◌*◌, ◌/◌, ◌%◌, ◌^◌, ◌≤◌, ◌<◌, ◌≡◌, inl, inr, refl, ◌∙◌, ap, ltb, lt→ltb,
  ltb→lt, Bool-cases, true, add32, sub32, lt_ℤ, int_value, ℤ, pos, arith,
}
use simple_microkernel.Memory.{Bytes}
use simple_microkernel.Memory.Fill.{Outside}
use simple_microkernel.Disk.{Disk}
use simple_microkernel.Disk.Sector.{disk_byte}
use simple_microkernel.Fat16.{
  Fat16Header, Fat16Private, cluster_bytes, get_cluster_for_offset, read_found, read_clusters,
  read_internal,
}
use simple_microkernel.Fat16.Ints.{quotient_lem, less_lem, positive_lem, sub32_lem}
use simple_microkernel.Fat16.Table.{IsVolume}
use simple_microkernel.Fat16.Chain.{
  SameVolume, SameVolume-IsVolume, cluster_at, Chain, Chain-last, Chain-le,
}
use simple_microkernel.Fat16.Clusters.{
  size_of, cluster_position, ClusterRead, cluster_bytes-size_of, size_of-small, found-ClusterRead,
  walked,
}
use simple_microkernel.Fat16.Multiples.{
  div-multiple, mod-multiple, mod_of_multiple, suc_times, lt_suc_div, more_clusters,
}

module _ (drive : ℕ → ℕ → ℕ) where
  -- byte `o` of the file that begins with cluster `c`
  abbrev pub file_byte : Fat16Private → ℕ → ℕ → ℕ
  file_byte p c o =
      disk_byte drive
        (cluster_position p (cluster_at drive p.header c (o / size_of p)) + o % size_of p)

  -- A read of `total` bytes from byte `offset` on delivers the bytes of the file, and changes no other
  -- memory.
  pub record FileRead (p : Fat16Private) (c offset total : ℕ) (m : Bytes) (out : ℕ)
      (r : ℤ × Fat16Private × Bytes) : Type 0 where
    pub done : r.0 ≡ pos 0
    pub volume : SameVolume p r.1
    pub bytes : (j : ℕ) → j < total → r.2 (out + j) ≡ file_byte p c (offset + j)
    pub others : (a : ℕ) → Outside out total a → r.2 a ≡ m a

  module _ (stack : Bytes) (disk : Disk) (p : Fat16Private) (c : ℕ) (v : IsVolume disk p) where
    -- byte `j` behind the first `q` clusters, if it lies in the next one
    in_cluster :
        (q j : ℕ)
        → j < size_of p
        → disk_byte drive (cluster_position p (cluster_at drive p.header c q) + j)
          ≡ file_byte p c (q * size_of p + j)
    in_cluster q j h = rw (div-multiple q (size_of p) j h, mod-multiple q (size_of p) j h) refl

    last-FileRead :
        (q total : ℕ) (m : Bytes) (out : ℕ) (r : ℤ × Fat16Private × Bytes)
        → total ≤ size_of p
        → ClusterRead drive stack disk p (cluster_at drive p.header c q) total m out r
        → FileRead p c (q * size_of p) total m out (pos 0, r.1, r.2)
    last-FileRead q total m out r h a = record {
      done = refl;
      volume = a.volume;
      bytes = λ j l. a.bytes j l ∙ in_cluster q j (omega arith);
      others = a.others;
    }

    joined-FileRead :
        (q total : ℕ) (m : Bytes) (out : ℕ) (a b : ℤ × Fat16Private × Bytes)
        → size_of p < total
        → out + total ≤ 2 ^ 32
        → ClusterRead drive stack disk p (cluster_at drive p.header c q) total m out a
        → FileRead p c (suc q * size_of p) (total - size_of p) a.2 (out + size_of p) b
        → FileRead p c (q * size_of p) total m out b
    joined-FileRead q total m out a b h g x y = record {
      done = y.done;
      volume = y.volume;
      bytes = λ j l. elim (Bool-cases (ltb j (size_of p))) [
        | inl first ↦
            y.others (out + j) (inl (omega (arith, ltb→lt j (size_of p) first)))
            ∙ x.bytes j l
            ∙ in_cluster q j (ltb→lt j (size_of p) first)
        | inr later ↦
            let l' : size_of p ≤ j = ground (arith, later) in
            let place : out + j ≡ out + size_of p + (j - size_of p) = omega arith in
            let source : suc q * size_of p + (j - size_of p) ≡ q * size_of p + j =
              omega (arith, suc_times q (size_of p)) in
            ap b.2 place ∙ y.bytes (j - size_of p) (omega arith) ∙ ap (file_byte p c) source
      ];
      others = λ k o. y.others k (omega arith) ∙ x.others k o;
    }

    read_clusters-FileRead :
        (rounds : ℕ) (p' : Fat16Private) (q n total : ℕ) (m : Bytes) (out : ℕ)
        → SameVolume p p'
        → total < suc rounds * size_of p
        → q ≤ n
        → q * size_of p + total ≤ suc n * size_of p
        → Chain drive p.header c n
        → q * size_of p + total < 2 ^ 31
        → (p.root_directory.ending_sector_pos + 65536 * p.header.sectors_per_cluster) * 512 + total
          < 2 ^ 32
        → out + total ≤ 2 ^ 32
        → FileRead p c
            (q * size_of p)
            total
            m
            out
            (read_clusters drive stack rounds disk p' c (q * size_of p) total m out)
    unfolding read_clusters
    read_clusters-FileRead zero p' q n total m out same few l enough ch b fits g =
        let w =
          walked drive stack disk p c v p' q same (Chain-le drive p.header c n q l ch)
            (omega arith) in
        let d = cluster_at drive p.header c q in
        let a =
          found-ClusterRead drive stack disk p c v
            (get_cluster_for_offset drive stack disk p' c (q * size_of p)) d (q * size_of p) total m
            out w.found w.volume
            (Chain-last drive p.header c q (Chain-le drive p.header c n q l ch))
            (mod_of_multiple q (size_of p) (omega (arith, v.cluster))) (omega arith) fits g in
        rw a.success (last-FileRead q total m out _ (omega (arith, few)) a)
    read_clusters-FileRead (suc rounds) p' q n total m out same few l enough ch b fits g =
        let w =
          walked drive stack disk p c v p' q same (Chain-le drive p.header c n q l ch)
            (omega arith) in
        let d = cluster_at drive p.header c q in
        let f =
          read_found drive stack disk (get_cluster_for_offset drive stack disk p' c (q * size_of p))
            (q * size_of p) total m out in
        let a =
          found-ClusterRead drive stack disk p c v
            (get_cluster_for_offset drive stack disk p' c (q * size_of p)) d (q * size_of p) total m
            out w.found w.volume
            (Chain-last drive p.header c q (Chain-le drive p.header c n q l ch))
            (mod_of_multiple q (size_of p) (omega (arith, v.cluster))) (omega arith) fits g in
        let size : cluster_bytes disk p' ≡ size_of p =
          cluster_bytes-size_of p' (SameVolume-IsVolume same v)
          ∙ ap (λ (h : Fat16Header). h.sectors_per_cluster * 512) same.header in
        let larger = less_lem (size_of p) total (size_of-small p v) (omega arith) in
        elim (Bool-cases (ltb (size_of p) total)) [
          | inl large ↦
              let more : size_of p < total = ltb→lt (size_of p) total large in
              let less = sub32_lem total (size_of p) (omega arith) (omega arith) in
              let rest : lt_ℤ (pos 0) (int_value (total - size_of p)) ≡ true =
                positive_lem (total - size_of p) (omega arith)
                ∙ lt→ltb 0 (total - size_of p) (omega (arith, more)) in
              let times = suc_times q (size_of p) in
              let times' = suc_times (suc rounds) (size_of p) in
              let offset : add32 (q * size_of p) (size_of p) ≡ suc q * size_of p = omega arith in
              let next : add32 out (size_of p) ≡ out + size_of p = omega arith in
              rw (a.success, size, larger, large, less, rest, offset, next)
                (joined-FileRead q total m out f
                  (read_clusters drive stack rounds disk f.1 c (suc q * size_of p)
                    (total - size_of p) f.2 (out + size_of p))
                  more g a
                  (read_clusters-FileRead rounds f.1 (suc q) n (total - size_of p) f.2
                    (out + size_of p) a.volume (omega arith)
                    (more_clusters q n (size_of p) total enough more) (omega arith) ch (omega arith)
                    (omega arith) (omega arith)))
          | inr small ↦
              let whole : sub32 total total ≡ 0 =
                sub32_lem total total (omega arith) (omega arith) ∙ (omega arith) in
              rw (a.success, size, larger, small, whole)
                (last-FileRead q total m out f (ground (arith, small)) a)
        ]

-- fat16_read_internal delivers the bytes of the file from the first byte of its cluster number `q`
-- on, along the chain of its clusters in the table, and changes no other memory. The chain must have
-- a cluster for each byte, the offset and the length together must lie below 2 ^ 31, and every read
-- in the first 4 GB of the disk.
pub read_internal-FileRead :
    (drive : ℕ → ℕ → ℕ) (stack : Bytes) (disk : Disk) (p : Fat16Private) (c q n total : ℕ)
    (m : Bytes) (out : ℕ)
    → IsVolume disk p
    → Chain drive p.header c n
    → q ≤ n
    → q * size_of p + total ≤ suc n * size_of p
    → q * size_of p + total < 2 ^ 31
    → (p.root_directory.ending_sector_pos + 65536 * p.header.sectors_per_cluster) * 512 + total
      < 2 ^ 32
    → out + total ≤ 2 ^ 32
    → FileRead drive p c
        (q * size_of p)
        total
        m
        out
        (read_internal drive stack disk p c (q * size_of p) total m out)
unfolding read_internal
read_internal-FileRead drive stack disk p c q n total m out v ch l enough b fits g =
    let same : SameVolume p p = record {
      header = refl;
      root_directory = refl;
      fat_stream = refl;
      cluster_stream = refl;
    } in
    rw (cluster_bytes-size_of p v, quotient_lem total (size_of p) (omega arith) (size_of-small p v))
      (read_clusters-FileRead drive stack disk p c v (total / size_of p) p q n total m out same
        (lt_suc_div total (size_of p) (omega (arith, v.cluster))) l enough ch b fits g)
