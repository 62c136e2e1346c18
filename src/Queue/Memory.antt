-- ===== src/Queue/Memory.antt =====
-- What the accesses to shared memory do to the bytes of one region.
use memif.Prelude.{
  ℕ, ◌+◌, ◌≤◌, ◌≡◌, ap, sym, ◌∙◌, arith, List, [], ◌∷◌, some, length, get_elem?, set, set-set,
  set_same, lt_length, get_elem?-set_self, length-drop, take, drop, le→leb, lt→ltb,
}
use memif.Bytes.{copy_at, bytes_at, slice_from, read_le, write_le}
use memif.Bytes.Copy.{copy-eq-take}
use memif.Desc.{DescBuf}
use memif.Types.{Interface, MemoryRegion, Queue}
use memif.Queue.{
  region_bytes, region_data, with_bytes, set_region_data, load16, store16, desc_address,
  get_desc_buf, put_desc_buf,
}

region_bytes-with_bytes :
    (r : MemoryRegion) (xs : List ℕ)
    → length xs ≡ length (region_bytes r)
    → region_bytes (with_bytes r xs) ≡ xs
region_bytes-with_bytes r [] e = ground arith
region_bytes-with_bytes r (x ∷ xs) e = ground arith

with_bytes-with_bytes :
    (r : MemoryRegion) (xs ys : List ℕ) → with_bytes (with_bytes r xs) ys ≡ with_bytes r ys
with_bytes-with_bytes r xs ys = ground arith

with_bytes_same : (r : MemoryRegion) → with_bytes r (region_bytes r) ≡ r
with_bytes_same r = ground arith

set_region_data-eq :
    (i : Interface) (k : ℕ) (xs : List ℕ) (r : MemoryRegion)
    → get_elem? i.regions k ≡ some r
    → set_region_data k xs i ≡ record i { regions = set i.regions k (with_bytes r xs) }
unfolding set_region_data
set_region_data-eq i k xs r got = rw (got, set_region_data)

region_data_inv :
    (i : Interface) (k : ℕ) {d : List ℕ}
    → region_data i k ≡ some d
    → (r : MemoryRegion) × (get_elem? i.regions k ≡ some r) × (region_bytes r ≡ d)
unfolding region_data
region_data_inv i k h = ground arith

module _ (i : Interface) (k : ℕ) {d : List ℕ} (h : region_data i k ≡ some d) where
  pub region_data-set :
      (xs : List ℕ) → length xs ≡ length d → region_data (set_region_data k xs i) k ≡ some xs
  unfolding region_data
  region_data-set xs e =
      let (r, got, b) = region_data_inv i k h in
      rw (
        set_region_data-eq i k xs r got,
        get_elem?-set_self i.regions k (with_bytes r xs) (lt_length i.regions k got),
        region_bytes-with_bytes r xs (e ∙ ap length (sym b)),
      )

  pub set_region_data-set :
      (xs ys : List ℕ) → set_region_data k ys (set_region_data k xs i) ≡ set_region_data k ys i
  set_region_data-set xs ys =
      let (r, got, b) = region_data_inv i k h in
      let inside = lt_length i.regions k got in
      rw
        (
          set_region_data-eq i k xs r got,
          set_region_data-eq i k ys r got,
          set_region_data-eq (record i { regions = set i.regions k (with_bytes r xs) }) k ys
              (with_bytes r xs) (get_elem?-set_self i.regions k (with_bytes r xs) inside),
          set-set i.regions k (with_bytes r xs) (with_bytes (with_bytes r xs) ys),
        )
        (ap (λ t. record i { regions = set i.regions k t }) (with_bytes-with_bytes r xs ys))

  pub set_region_data_same : set_region_data k d i ≡ i
  set_region_data_same =
      let (r, got, b) = region_data_inv i k h in
      set_region_data-eq i k d r got
      ∙ ap (λ (rs : List MemoryRegion). record i { regions = rs })
          (ap (λ xs. set i.regions k (with_bytes r xs)) (sym b)
            ∙ ap (set i.regions k) (with_bytes_same r)
            ∙ set_same i.regions k r got)

  pub load16-eq : (addr : ℕ) → addr + 2 ≤ length d → load16 i k addr ≡ some (read_le 2 addr d)
  unfolding load16
  load16-eq addr fit = rw (h, lt→ltb (addr + 1) (length d) (omega arith))

  pub store16-eq :
      (addr val : ℕ)
      → addr + 2 ≤ length d
      → store16 k addr val i ≡ some (set_region_data k (write_le 2 addr val d) i)
  unfolding store16
  store16-eq addr val fit = rw (h, lt→ltb (addr + 1) (length d) (omega arith))

  pub slice_from-eq : (lo : ℕ) → lo ≤ length d → slice_from d lo ≡ some (drop lo d)
  unfolding slice_from
  slice_from-eq lo fit = rw (le→leb lo (length d) fit)

pub args-set_region_data :
    (i : Interface) (k : ℕ) (xs : List ℕ) → (set_region_data k xs i).args ≡ i.args
unfolding set_region_data
args-set_region_data i k xs = ground arith

pub run-set_region_data :
    (i : Interface) (k : ℕ) (xs : List ℕ) → (set_region_data k xs i).run ≡ i.run
unfolding set_region_data
run-set_region_data i k xs = ground arith

-- A descriptor inside the region is read whole.
pub get_desc_buf-eq :
    (q : Queue) (slot : ℕ) (db : DescBuf) (i : Interface) {d : List ℕ}
    → region_data i q.ring.region ≡ some d
    → length db ≡ 16
    → desc_address q slot + 16 ≤ length d
    → get_desc_buf q slot db i ≡ some (bytes_at (desc_address q slot) 16 d)
unfolding get_desc_buf
get_desc_buf-eq q slot db i {d} h e fit =
    rw (h, slice_from-eq i q.ring.region h (desc_address q slot) (omega arith))
      (ap some (
        copy-eq-take db _ (omega (arith, length-drop (desc_address q slot) d))
        ∙ ap (λ n. take n (drop (desc_address q slot) d)) e))

pub put_desc_buf-eq :
    (q : Queue) (slot : ℕ) (db : DescBuf) (i : Interface) {d : List ℕ}
    → region_data i q.ring.region ≡ some d
    → desc_address q slot ≤ length d
    → put_desc_buf q slot db i
      ≡ some (set_region_data q.ring.region (copy_at d (desc_address q slot) db) i)
unfolding put_desc_buf
put_desc_buf-eq q slot db i h fit =
    rw (h, slice_from-eq i q.ring.region h (desc_address q slot) fit)
