-- ===== src/Session/Joining.antt =====
-- A peer's interface coming up with one region and one queue of each kind (connect of
-- memif-new/memif/interface.go): it maps the region, and reads and checks the ring headers.
use memif.Prelude.{
  ℕ, ◌+◌, ◌≤◌, ◌≡◌, refl, ap, ◌∙◌, arith, List, [], ◌∷◌, ◌++◌, length, some, none, get_elem?, set,
  length-drop, drop, take,
}
use memif.Bytes.{read_le, copy, of_le}
use memif.Bytes.Copy.{copy-eq-take, bytes_at-bytes_at}
use memif.Types.{Interface, MemoryRegion, Queue, RingType, s2m, m2s}
use memif.Types.Os.{Os, Call}
use memif.Ring.{cookie, get_cookie}
use memif.Queue.{region_data, update_ring}
use memif.Queue.Memory.{slice_from-eq}
use memif.Setup.{mmap}
use memif.Setup.Write.{bind-done, get_interface-eq, interface_put, with_interface}
use memif.Setup.Round.{Beside}
use memif.Link.{map_regions, check_rings, connect, queues_of, set_queues}
use memif.Link.Release.{sys_-accepted, sys-accepted}
use memif.Socket.{Socket, done, ◌>>=◌, return, wrap, get_interface, put_interface}

-- The queue with its ring's header read from the region.
abbrev pub with_header : List ℕ → Queue → Queue
with_header e q = record q { ring = record q.ring { rb = copy q.ring.rb (drop q.ring.offset e) } }

-- The ring of `q` lies in the bytes `e`, in region 0, with its cookie.
pub record Marked (q : Queue) (e : List ℕ) : Type 0 where
  pub first : q.ring.region ≡ 0
  pub header : length q.ring.rb ≡ 128
  pub inside : q.ring.offset + 128 ≤ length e
  pub word : read_le 4 q.ring.offset e ≡ cookie

module _ (os : Os)
    (accepts : (calls : List Call) (c : Call) → ((v : ℕ) × (os.reply calls c ≡ some v)))
    (i : ℕ) where
  map_regions-eq :
      (x : Interface) (s : Socket) (r : MemoryRegion)
      → get_elem? s.interfaces i ≡ some x
      → x.regions ≡ r ∷ []
      → r.bytes ≡ none
      → map_regions os i (length x.regions) 0 s
        ≡ done tt (record s {
          interfaces = set s.interfaces i (record x {
            regions =
                record r {
                  bytes = some (os.mapped (s.calls ++ (Call.mmap r.fd r.size ∷ [])) r.fd r.size);
                }
                ∷ [];
          });
          calls = s.calls ++ (Call.mmap r.fd r.size ∷ []);
        })
  unfolding map_regions mmap get_interface put_interface wrap return ◌>>=◌
  map_regions-eq x s r there only unmapped =
      let (v, ok) = sys-accepted os accepts (Call.mmap r.fd r.size) s in
      ap (λ (rs : List MemoryRegion). map_regions os i (length rs) 0 s) only
      ∙ ground (arith, there, only, unmapped, ok)

  cookie_read : (q : Queue) (e : List ℕ) → Marked q e → get_cookie (with_header e q).ring ≡ cookie
  unfolding get_cookie
  cookie_read q e m =
      ap (read_le 4 0) (
        copy-eq-take q.ring.rb (drop q.ring.offset e)
          (omega (arith, m.header, m.inside, length-drop q.ring.offset e))
        ∙ ap (λ n. take n (drop q.ring.offset e)) m.header)
      ∙ ap of_le (bytes_at-bytes_at e q.ring.offset 128 0 4 (omega arith))
      ∙ ap (λ (o : ℕ). read_le 4 o e) (let z : q.ring.offset + 0 ≡ q.ring.offset = omega arith in z)
      ∙ m.word

  update_ring-eq :
      (q : Queue) (e : List ℕ) (x : Interface)
      → Marked q e
      → region_data x 0 ≡ some e
      → update_ring q x ≡ some (with_header e q).ring
  unfolding update_ring
  update_ring-eq q e x m mapped =
      let here : region_data x q.ring.region ≡ some e = ap (region_data x) m.first ∙ mapped in
      rw (here, slice_from-eq x q.ring.region here q.ring.offset (omega (arith, m.inside))) refl

  -- One queue of this kind.
  check_rings-eq :
      (t : RingType) (q : Queue) (e : List ℕ) (x : Interface) (s : Socket)
      → get_elem? s.interfaces i ≡ some x
      → queues_of t x ≡ q ∷ []
      → Marked q e
      → region_data x 0 ≡ some e
      → check_rings i t (length (queues_of t x)) 0 s
        ≡ done tt (with_interface i (set_queues t (with_header e q ∷ []) x) s)
  unfolding check_rings get_interface put_interface return ◌>>=◌
  check_rings-eq t q e x s there only m mapped =
      ap (λ (qs : List Queue). check_rings i t (length qs) 0 s) only
      ∙ ground (arith, there, only, update_ring-eq q e x m mapped, cookie_read q e m)

  -- The interface when it is up.
  abbrev pub joined : Interface → MemoryRegion → List ℕ → Queue → Queue → Interface
  joined x r e p q = record x {
    regions = record r { bytes = some e } ∷ [];
    tx_queues = with_header e p ∷ [];
    rx_queues = with_header e q ∷ [];
  }

  pub connect-joined :
      (x : Interface) (s : Socket) (r : MemoryRegion) (e : List ℕ) (p q : Queue)
      → get_elem? s.interfaces i ≡ some x
      → x.regions ≡ r ∷ []
      → r.bytes ≡ none
      → ((calls : List Call) → os.mapped calls r.fd r.size ≡ e)
      → x.tx_queues ≡ p ∷ []
      → x.rx_queues ≡ q ∷ []
      → Marked p e
      → Marked q e
      → (s' : Socket) × (connect os i s ≡ done tt s')
        × (get_elem? s'.interfaces i ≡ some (joined x r e p q))
        × Beside s s'
        × (before : List Call) × (s'.calls ≡ before ++ (Call.connected_func i ∷ []))
  unfolding connect region_data
  connect-joined x s r e p q there only unmapped shows one_tx one_rx mp mq =
      let x₁ : Interface = record x { regions = record r { bytes = some e } ∷ [] } in
      let x₂ = set_queues s2m (with_header e p ∷ []) x₁ in
      let x₃ = set_queues m2s (with_header e q ∷ []) x₂ in
      let calls₁ = s.calls ++ (Call.mmap r.fd r.size ∷ []) in
      let s₁ : Socket = record s { interfaces = set s.interfaces i x₁; calls = calls₁ } in
      let s₂ = with_interface i x₂ s₁ in
      let s₃ = with_interface i x₃ s₂ in
      let there₁ : get_elem? s₁.interfaces i ≡ some x₁ = interface_put i x x₁ s there in
      let there₂ = interface_put i x₁ x₂ s₁ there₁ in
      (
        record s₃ { calls = calls₁ ++ (Call.connected_func i ∷ []) },
        get_interface-eq i x s _ there
            ∙ bind-done (map_regions os i (length x.regions) 0) _ tt s s₁ (
                map_regions-eq x s r there only unmapped
                ∙ ap
                    (λ (xs : List ℕ). done tt (record s {
                      interfaces =
                          set s.interfaces i
                            (record x { regions = record r { bytes = some xs } ∷ [] });
                      calls = calls₁;
                    }))
                    (shows calls₁))
            ∙ bind-done (check_rings i s2m (length x.tx_queues) 0) _ tt s₁ s₂
                (check_rings-eq s2m p e x₁ s₁ there₁ one_tx mp refl)
            ∙ bind-done (check_rings i m2s (length x.rx_queues) 0) _ tt s₂ s₃
                (check_rings-eq m2s q e x₂ s₂ there₂ one_rx mq refl)
            ∙ sys_-accepted os accepts (Call.connected_func i) s₃,
        interface_put i x₂ x₃ s₂ there₂,
        record { channels = refl; app_name = refl },
        calls₁,
        refl,
      )
