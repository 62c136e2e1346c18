-- ===== src/Session/Queueing.antt =====
-- What the msgEnq functions of memif-new/memif/control_channel.go put in a channel's queue, one message
-- after the other.
use memif.Prelude.{
  ℕ, ◌≡◌, ap, ◌∙◌, subst, arith, List, [], ◌∷◌, ◌++◌, length, some, none, get_elem?, set, lt_length,
  get_elem?-set_self,
}
use mathlib.Core.List.{append_assoc}
use memif.Bytes.{to_le}
use memif.Types.{Interface, MemoryRegion, Queue, RingType, s2m, m2s}
use memif.Message.{
  msg_type_code, add_region_type, connect_type, text_field, write_add_region, write_connect,
}
use memif.Setup.Write.{bind-done, get_interface-eq}
use memif.Channel.{msg_enq_init, msg_enq_add_region, msg_enq_add_ring, msg_enq_connect, enqueue}
use memif.Channel.Dispatch.{enq_regions, enq_rings}
use memif.Channel.Hello.{Received}
use memif.Channel.Secret.{init_msg, msg_enq_init-queue}
use memif.Channel.Rings.{ring_msg, announced}
use memif.Socket.{
  Socket, ControlChannel, ControlMsg, M, done, ◌>>=◌, ◌>>◌, return, get_interface, get_channel,
  put_channel, channel_interface,
}

abbrev pub region_msg : ℕ → ℕ → ℕ → ControlMsg
region_msg index size fd = record {
  buffer =
      to_le 2 (msg_type_code add_region_type)
      ++ write_add_region (record { index = index; size = size });
  fd = some fd;
}

abbrev pub connect_msg : Interface → ControlMsg
connect_msg x = record {
  buffer =
      to_le 2 (msg_type_code connect_type)
      ++ write_connect (record { name = text_field 32 x.args.name });
  fd = none;
}

-- The channel with these messages behind those in its queue.
abbrev pub add : ControlChannel → List ControlMsg → ControlChannel
add ch ms = record ch { msg_queue = ch.msg_queue ++ ms }

abbrev pub queue_up : ℕ → ControlChannel → ControlMsg → Socket → Socket
queue_up c ch msg s = record s { channels = set s.channels c (add ch (msg ∷ [])) }

add-add : (ch : ControlChannel) (ms ns : List ControlMsg) → add (add ch ms) ns ≡ add ch (ms ++ ns)
add-add ch ms ns =
    ap (λ (q : List ControlMsg). record ch { msg_queue = q }) (append_assoc ch.msg_queue ms ns)

pub Received-queue_up :
    {s : Socket} {c i : ℕ} {ch : ControlChannel} {y : Interface} (msg : ControlMsg)
    → Received s c i ch y
    → Received (queue_up c ch msg s) c i (add ch (msg ∷ [])) y
Received-queue_up {s} {c} {i} {ch} msg r = record {
  channel = get_elem?-set_self s.channels c (add ch (msg ∷ [])) (lt_length s.channels c r.channel);
  owner = r.owner;
  interface = r.interface;
}

pub channel_interface-eq :
    {s : Socket} {c i : ℕ} {ch : ControlChannel} {x : Interface}
    → Received s c i ch x
    → channel_interface c s ≡ done i s
unfolding channel_interface get_channel ◌>>=◌
channel_interface-eq r = ground (arith, r.channel, r.owner)

-- A slave with one region and one queue of each kind.
pub record Announces (y : Interface) (size fd : ℕ) (tx rx : Queue) : Type 0 where
  pub region : MemoryRegion
  pub only : y.regions ≡ region ∷ []
  pub sized : region.size ≡ size
  pub opened : region.fd ≡ fd
  pub one_pair : y.run.num_queue_pairs ≡ 1
  pub sends : y.tx_queues ≡ tx ∷ []
  pub receives : y.rx_queues ≡ rx ∷ []

-- Its messages after a hello, in order.
abbrev pub answer : Socket → Interface → ℕ → ℕ → Queue → Queue → List ControlMsg
answer s y size fd tx rx =
    init_msg s y ∷ region_msg 0 size fd ∷ ring_msg s2m 0 tx ∷ ring_msg m2s 0 rx ∷ connect_msg y ∷ []

module _ {s : Socket} {c i : ℕ} {ch : ControlChannel} {y : Interface}
    (r : Received s c i ch y) where
  msg_enq_add_region-queue :
      (v : MemoryRegion) (k : ℕ)
      → get_elem? y.regions k ≡ some v
      → msg_enq_add_region c k s ≡ done tt (queue_up c ch (region_msg k v.size v.fd) s)
  unfolding msg_enq_add_region enqueue get_channel put_channel get_interface channel_interface ◌>>=◌
  msg_enq_add_region-queue v k there = ground (arith, r.channel, r.owner, r.interface, there)

  msg_enq_connect-queue : msg_enq_connect c s ≡ done tt (queue_up c ch (connect_msg y) s)
  unfolding msg_enq_connect enqueue get_channel put_channel get_interface channel_interface ◌>>=◌
  msg_enq_connect-queue = ground (arith, r.channel, r.owner, r.interface)

  enq_regions-queue :
      (v : MemoryRegion)
      → y.regions ≡ v ∷ []
      → enq_regions c (length y.regions) 0 s ≡ done tt (queue_up c ch (region_msg 0 v.size v.fd) s)
  unfolding enq_regions return
  enq_regions-queue v only =
      ap (λ (vs : List MemoryRegion). enq_regions c (length vs) 0 s) only
      ∙ bind-done (msg_enq_add_region c 0) _ tt s _
          (msg_enq_add_region-queue v 0 (ap (λ (vs : List MemoryRegion). get_elem? vs 0) only))

  enq_rings-queue :
      (t : RingType) (q : Queue) (pairs : ℕ)
      → pairs ≡ 1
      → get_elem? (elim t [ s2m ↦ y.tx_queues | m2s ↦ y.rx_queues ]) 0 ≡ some q
      → enq_rings c t pairs 0 s ≡ done tt (queue_up c ch (ring_msg t 0 q) s)
  unfolding enq_rings return
  enq_rings-queue s2m q pairs one there =
      ap (λ (n : ℕ). enq_rings c s2m n 0 s) one
      ∙ bind-done (msg_enq_add_ring c s2m 0) _ tt s _ (announced s2m 0 q r there)
  enq_rings-queue m2s q pairs one there =
      ap (λ (n : ℕ). enq_rings c m2s n 0 s) one
      ∙ bind-done (msg_enq_add_ring c m2s 0) _ tt s _ (announced m2s 0 q r there)

-- What the answer to a hello does after the setup.
abbrev pub announce : ℕ → ℕ → M (Unit {0})
announce c i =
    msg_enq_init c
    >> (get_interface i >>= λ x.
        enq_regions c (length x.regions) 0
        >> (enq_rings c s2m x.run.num_queue_pairs 0
            >> (enq_rings c m2s x.run.num_queue_pairs 0 >> msg_enq_connect c)))

-- The whole setup of a slave is queued, in order, behind what was in the queue.
pub announce-queue :
    {s : Socket} {c i : ℕ} {ch : ControlChannel} {y : Interface} {size fd : ℕ} {tx rx : Queue}
    → Received s c i ch y
    → Announces y size fd tx rx
    → (s' : Socket) × (announce c i s ≡ done tt s')
      × Received s' c i (add ch (answer s y size fd tx rx)) y
announce-queue {s} {c} {i} {ch} {y} {size} {fd} {tx} {rx} r a =
    let m₁ = init_msg s y in
    let m₂ = region_msg 0 a.region.size a.region.fd in
    let m₃ = ring_msg s2m 0 tx in
    let m₄ = ring_msg m2s 0 rx in
    let m₅ = connect_msg y in
    let ch₁ = add ch (m₁ ∷ []) in
    let ch₂ = add ch₁ (m₂ ∷ []) in
    let ch₃ = add ch₂ (m₃ ∷ []) in
    let ch₄ = add ch₃ (m₄ ∷ []) in
    let s₁ = queue_up c ch m₁ s in
    let s₂ = queue_up c ch₁ m₂ s₁ in
    let s₃ = queue_up c ch₂ m₃ s₂ in
    let s₄ = queue_up c ch₃ m₄ s₃ in
    let r₁ = Received-queue_up m₁ r in
    let r₂ = Received-queue_up m₂ r₁ in
    let r₃ = Received-queue_up m₃ r₂ in
    let r₄ = Received-queue_up m₄ r₃ in
    (
      queue_up c ch₄ m₅ s₄,
      bind-done (msg_enq_init c) _ tt s s₁ (msg_enq_init-queue r)
          ∙ get_interface-eq i y s₁ _ r₁.interface
          ∙ bind-done (enq_regions c (length y.regions) 0) _ tt s₁ s₂
              (enq_regions-queue r₁ a.region a.only)
          ∙ bind-done (enq_rings c s2m y.run.num_queue_pairs 0) _ tt s₂ s₃ (
              enq_rings-queue r₂ s2m tx y.run.num_queue_pairs a.one_pair
                (ap (λ (qs : List Queue). get_elem? qs 0) a.sends))
          ∙ bind-done (enq_rings c m2s y.run.num_queue_pairs 0) _ tt s₃ s₄ (
              enq_rings-queue r₃ m2s rx y.run.num_queue_pairs a.one_pair
                (ap (λ (qs : List Queue). get_elem? qs 0) a.receives))
          ∙ msg_enq_connect-queue r₄,
      subst (λ (k : ControlChannel). Received (queue_up c ch₄ m₅ s₄) c i k y)
          (ap (λ (k : ControlChannel). add (add (add k (m₃ ∷ [])) (m₄ ∷ [])) (m₅ ∷ []))
              (add-add ch (m₁ ∷ []) (m₂ ∷ []))
            ∙ ap (λ (k : ControlChannel). add (add k (m₄ ∷ [])) (m₅ ∷ []))
                (add-add ch (m₁ ∷ m₂ ∷ []) (m₃ ∷ []))
            ∙ ap (λ (k : ControlChannel). add k (m₅ ∷ []))
                (add-add ch (m₁ ∷ m₂ ∷ m₃ ∷ []) (m₄ ∷ []))
            ∙ add-add ch (m₁ ∷ m₂ ∷ m₃ ∷ m₄ ∷ []) (m₅ ∷ [])
            ∙ ap (λ (m : ControlMsg). add ch (m₁ ∷ m ∷ m₃ ∷ m₄ ∷ m₅ ∷ []))
                (ap (λ (z : ℕ). region_msg 0 z a.region.fd) a.sized
                  ∙ ap (region_msg 0 size) a.opened))
          (Received-queue_up m₅ r₄),
    )
