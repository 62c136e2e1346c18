-- ===== src/Link/Release.antt =====
-- What `disconnect` of memif-new/memif/interface.go releases.
use memif.Prelude.{
  get_elem?, get_elem?-set_self, lt_length, set, set-set, All, ℕ, ◌≡◌, ◌≢◌, refl, arith, List, [],
  ◌∷◌, ◌++◌, none, some,
}
use memif.Types.{Interface, MemoryRegion, Queue}
use memif.Types.Os.{Os, Call, failed}
use memif.Queue.{region_bytes}
use memif.Link.{close_queues, munmap, close_regions, disconnect_linked, disconnect}
use memif.Socket.{throw, M, Socket, done, fail, ◌>>=◌, sys, sys_, get_interface, put_interface}

-- The requests that close queues and regions, after the requests `calls`.
abbrev pub queue_closes : List Call → List Queue → List Call
queue_closes calls [] = calls
queue_closes calls (q ∷ qs) = queue_closes (calls ++ (Call.close q.interrupt_fd ∷ [])) qs

abbrev pub region_closes : List Call → List MemoryRegion → List Call
region_closes calls [] = calls
region_closes calls (r ∷ rs) =
    region_closes ((calls ++ (Call.munmap r.fd ∷ [])) ++ (Call.close r.fd ∷ [])) rs

module _ (os : Os)
    (accepts : (calls : List Call) (c : Call) → ((v : ℕ) × (os.reply calls c ≡ some v))) where
  pub sys_-accepted :
      (c : Call) (s : Socket) → sys_ os c s ≡ done tt (record s { calls = s.calls ++ (c ∷ []) })
  unfolding sys_ sys ◌>>=◌
  sys_-accepted c s = let (v, ok) = accepts s.calls c in ground (arith, ok)

  pub sys-accepted :
      (c : Call) (s : Socket)
      → (v : ℕ) × (sys os c s ≡ done v (record s { calls = s.calls ++ (c ∷ []) }))
  unfolding sys ◌>>=◌
  sys-accepted c s = let (v, ok) = accepts s.calls c in (v, ground (arith, ok))

  close_queues-closes :
      (qs : List Queue) (s : Socket)
      → close_queues os qs s ≡ done tt (record s { calls = queue_closes s.calls qs })
  unfolding close_queues ◌>>=◌
  close_queues-closes [] s = refl
  close_queues-closes (q ∷ qs) s =
      let (v, first) = sys-accepted (Call.close q.interrupt_fd) s in
      ground (
        arith,
        first,
        close_queues-closes qs (record s { calls = s.calls ++ (Call.close q.interrupt_fd ∷ []) }),
      )

  munmap_of :
      (xs : List ℕ) (r : MemoryRegion) (s : Socket)
      → xs ≢ []
      → (elim xs as (λ _. M (Unit {0})) [
        | [] ↦ throw (failed (Call.munmap r.fd))
        | x ∷ ys ↦ sys_ os (Call.munmap r.fd)
      ])
          s
        ≡ done tt (record s { calls = s.calls ++ (Call.munmap r.fd ∷ []) })
  munmap_of [] r s h = absurd (h refl)
  munmap_of (x ∷ xs) r s h = sys_-accepted (Call.munmap r.fd) s

  munmap-mapped :
      (r : MemoryRegion) (s : Socket)
      → region_bytes r ≢ []
      → munmap os r s ≡ done tt (record s { calls = s.calls ++ (Call.munmap r.fd ∷ []) })
  unfolding munmap
  munmap-mapped r s h = munmap_of (region_bytes r) r s h

  close_regions-closes :
      (rs : List MemoryRegion) (s : Socket)
      → All (λ r. region_bytes r ≢ []) rs
      → close_regions os rs s ≡ done tt (record s { calls = region_closes s.calls rs })
  unfolding close_regions ◌>>=◌
  close_regions-closes [] s h = refl
  close_regions-closes (r ∷ rs) s (mapped, rest) =
      let s₁ : Socket = record s { calls = s.calls ++ (Call.munmap r.fd ∷ []) } in
      ground (
        arith,
        munmap-mapped r s mapped,
        sys_-accepted (Call.close r.fd) s₁,
        close_regions-closes rs (record s₁ { calls = s₁.calls ++ (Call.close r.fd ∷ []) }) rest,
      )

  -- On a system and a client that accept every request, `disconnect` of a linked interface whose
  -- regions are mapped succeeds: it calls the client back, closes the interrupt descriptor of every
  -- queue, unmaps every region and closes its file, each once and in this order, and leaves the
  -- interface without queues, regions, control channel and names of the peer.
  pub disconnect-releases :
      (i c : ℕ) (x : Interface) (s : Socket)
      → get_elem? s.interfaces i ≡ some x
      → x.cc ≡ some c
      → All (λ r. region_bytes r ≢ []) x.regions
      → disconnect os i s
        ≡ done tt (record s {
          interfaces = set s.interfaces i (record x {
            cc = none;
            remote_name = [];
            peer_name = [];
            regions = [];
            tx_queues = [];
            rx_queues = [];
          });
          calls =
              region_closes
                (queue_closes
                  (queue_closes (s.calls ++ (Call.disconnected_func i ∷ [])) x.tx_queues)
                  x.rx_queues)
                x.regions;
        })
  unfolding disconnect disconnect_linked get_interface put_interface ◌>>=◌
  disconnect-releases i c x s there linked mapped =
      let inside = lt_length s.interfaces i there in
      let s₁ : Socket = record s { calls = s.calls ++ (Call.disconnected_func i ∷ []) } in
      let s₂ : Socket = record s₁ { calls = queue_closes s₁.calls x.tx_queues } in
      let x₁ : Interface = record x { tx_queues = [] } in
      let s₃ : Socket = record s₂ { interfaces = set s.interfaces i x₁ } in
      let s₄ : Socket = record s₃ { calls = queue_closes s₃.calls x.rx_queues } in
      let x₂ : Interface = record x₁ { rx_queues = [] } in
      let s₅ : Socket = record s₄ { interfaces = set (set s.interfaces i x₁) i x₂ } in
      let s₆ : Socket = record s₅ { calls = region_closes s₅.calls x.regions } in
      ground (
        arith,
        there,
        linked,
        sys_-accepted (Call.disconnected_func i) s,
        close_queues-closes x.tx_queues s₁,
        get_elem?-set_self s.interfaces i x₁ inside,
        close_queues-closes x.rx_queues s₃,
        set-set s.interfaces i x₁ x₂,
        get_elem?-set_self s.interfaces i x₂ inside,
        close_regions-closes x.regions s₅ mapped,
        set-set s.interfaces i x₂
            (record x₂ { regions = []; cc = none; peer_name = []; remote_name = [] }),
      )

  -- On such a system, `disconnect` of a linked interface whose first region is not mapped closes the
  -- queues and fails: the interface keeps its regions, its control channel and the peer's names.
  pub disconnect-unmapped :
      (i c : ℕ) (x : Interface) (r : MemoryRegion) (rs : List MemoryRegion) (s : Socket)
      → get_elem? s.interfaces i ≡ some x
      → x.cc ≡ some c
      → x.regions ≡ r ∷ rs
      → r.bytes ≡ none
      → disconnect os i s
        ≡ fail (failed (Call.munmap r.fd)) (record s {
          interfaces = set s.interfaces i (record x { tx_queues = []; rx_queues = [] });
          calls =
              queue_closes
                (queue_closes (s.calls ++ (Call.disconnected_func i ∷ [])) x.tx_queues)
                x.rx_queues;
        })
  unfolding disconnect disconnect_linked close_regions munmap get_interface put_interface ◌>>=◌
  disconnect-unmapped i c x r rs s there linked first unmapped =
      let inside = lt_length s.interfaces i there in
      let s₁ : Socket = record s { calls = s.calls ++ (Call.disconnected_func i ∷ []) } in
      let s₂ : Socket = record s₁ { calls = queue_closes s₁.calls x.tx_queues } in
      let x₁ : Interface = record x { tx_queues = [] } in
      let s₃ : Socket = record s₂ { interfaces = set s.interfaces i x₁ } in
      let x₂ : Interface = record x₁ { rx_queues = [] } in
      ground (
        arith,
        there,
        linked,
        first,
        unmapped,
        sys_-accepted (Call.disconnected_func i) s,
        close_queues-closes x.tx_queues s₁,
        get_elem?-set_self s.interfaces i x₁ inside,
        close_queues-closes x.rx_queues s₃,
        set-set s.interfaces i x₁ x₂,
        get_elem?-set_self s.interfaces i x₂ inside,
      )
