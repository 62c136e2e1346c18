-- ===== src/Link/Frame.antt =====
-- What bringing an interface up or down does not touch (connect and disconnect of
-- memif-new/memif/interface.go).
use memif.Prelude.{ℕ, zero, suc, ◌+◌, List, [], ◌∷◌, Option, none, some, get_elem?, set}
use memif.Types.{Interface, MemoryRegion, Queue, RingType}
use memif.Types.Os.{Os, Call, failed}
use memif.Queue.{region_bytes}
use memif.Setup.{mmap}
use memif.Link.{
  map_regions, check_rings, connect, close_queues, munmap, close_regions, disconnect_linked,
  disconnect,
}
use memif.Socket.{Socket, ◌>>=◌, return, wrap, sys_, throw, put_interface}
use memif.Socket.Keeps.{
  Keeps, Keeps-bind, Keeps-deref, Keeps-get_interface, Keeps-option, Keeps-return,
}
use memif.Setup.Frame.{Insensitive, frame_rules, mmap-Keeps}

module _ {P : Socket → Type 0} (free : Insensitive P) where
  pub map_region-Keeps :
      (os : Os) (i rid : ℕ) (x : Interface) (r : MemoryRegion) (bytes : Option (List ℕ))
      → Keeps {0} {A = Unit {0}} P (elim bytes [
        | some _ ↦ return tt
        | none ↦ do
          xs ← wrap "Mmap: %s" (mmap os r.fd r.size)
          put_interface i (record x { regions = set x.regions rid (record r { bytes = some xs }) })
      ])
  map_region-Keeps os i rid x r (some _) = search frame_rules
  map_region-Keeps os i rid x r none = search (frame_rules, mmap-Keeps)

  pub map_regions-Keeps : (os : Os) (i n rid : ℕ) → Keeps P (map_regions os i n rid)
  unfolding map_regions
  map_regions-Keeps os i zero rid = search frame_rules
  map_regions-Keeps os i (suc n) rid =
      let rest : Keeps P (map_regions os i n (rid + 1)) = map_regions-Keeps os i n (rid + 1) in
      Keeps-bind _ _ (Keeps-get_interface i) λ x.
        Keeps-bind _ _ (Keeps-deref (get_elem? x.regions rid))
          λ r. Keeps-bind _ _ (map_region-Keeps os i rid x r r.bytes) λ _. rest

  pub check_rings-Keeps : (i : ℕ) (t : RingType) (n qid : ℕ) → Keeps P (check_rings i t n qid)
  unfolding check_rings
  check_rings-Keeps i t zero qid = search frame_rules
  check_rings-Keeps i t (suc n) qid =
      let rest : Keeps P (check_rings i t n (qid + 1)) = check_rings-Keeps i t n (qid + 1) in
      search frame_rules depth 16 fits 5000

  pub connect-Keeps : (os : Os) (i : ℕ) → Keeps P (connect os i)
  unfolding connect
  connect-Keeps os i = search (frame_rules, map_regions-Keeps, check_rings-Keeps) depth 12 fits 5000

  pub close_queues-Keeps : (os : Os) (qs : List Queue) → Keeps P (close_queues os qs)
  unfolding close_queues
  close_queues-Keeps os [] = search frame_rules
  close_queues-Keeps os (q ∷ qs) =
      let rest : Keeps P (close_queues os qs) = close_queues-Keeps os qs in
      search frame_rules depth 12

  pub munmap-Keeps : (os : Os) (r : MemoryRegion) → Keeps P (munmap os r)
  unfolding munmap
  munmap-Keeps os r =
      elim (region_bytes r)
        as (λ xs. Keeps {0} {A = Unit {0}} P (elim xs [
          | [] ↦ throw (failed (Call.munmap r.fd))
          | x ∷ xs ↦ sys_ os (Call.munmap r.fd)
        ])) [ [] ↦ search frame_rules | x ∷ xs ↦ search frame_rules ]

  pub close_regions-Keeps : (os : Os) (rs : List MemoryRegion) → Keeps P (close_regions os rs)
  unfolding close_regions
  close_regions-Keeps os [] = search frame_rules
  close_regions-Keeps os (r ∷ rs) =
      let rest : Keeps P (close_regions os rs) = close_regions-Keeps os rs in
      search (frame_rules, munmap-Keeps) depth 12

  pub disconnect_linked-Keeps : (os : Os) (i : ℕ) → Keeps P (disconnect_linked os i)
  unfolding disconnect_linked
  disconnect_linked-Keeps os i =
      search (frame_rules, close_queues-Keeps, close_regions-Keeps) depth 40 fits 10000

  pub disconnect-Keeps : (os : Os) (i : ℕ) → Keeps P (disconnect os i)
  unfolding disconnect
  disconnect-Keeps os i = Keeps-bind _ _ (Keeps-get_interface i) λ x.
      Keeps-option x.cc (return tt) (λ _. disconnect_linked os i) (Keeps-return tt)
        λ _. disconnect_linked-Keeps os i
