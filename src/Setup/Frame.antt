-- ===== src/Setup/Frame.antt =====
-- What setting up an interface does not touch: an invariant of the socket that reads neither the
-- requests to the system nor the two stores is kept (memif-new/memif/interface.go).
use memif.Prelude.{◌≡◌, length, ℕ, zero, suc, ◌+◌, Bool, List, Option}
use memif.Types.{Interface, Queue, RingType}
use memif.Types.Os.{Os, Call, Error}
use memif.Desc.{DescBuf}
use memif.Setup.{
  memfd_create, or_close, mmap, add_region, initialize_regions, on_memory, write_descs,
  initialize_queue, initialize_queues_of, initialize_queues,
}
use memif.Socket.{
  Socket, ControlChannel, Outcome, done, fail, panic, M, ignore, sys, sys_, channel_interface,
  del_event, put_channel, put_interface,
}
use memif.Socket.Keeps.{
  Leaves, Keeps, keeps_rules, Keeps-sys_, Keeps-sys, Keeps-del_event, Keeps-add_event, Keeps-ignore,
  Keeps-wrap, Keeps-bind, Keeps-get_channel, Keeps-deref, Keeps-get_interface, Keeps-option,
  Keeps-return, Keeps-put_interface, Keeps-put_channel,
}

-- `P` reads neither the requests nor the interfaces, and of the channels only how many there are.
pub record Insensitive (P : Socket → Type 0) : Type 0 where
  pub calls : (s : Socket) (cs : List Call) → P s → P (record s { calls = cs })
  pub interfaces : (s : Socket) (xs : List Interface) → P s → P (record s { interfaces = xs })
  pub channels :
      (s : Socket) (xs : List ControlChannel)
      → length xs ≡ length s.channels
      → P s
      → P (record s { channels = xs })

module _ {P : Socket → Type 0} (free : Insensitive P) where
  pub sys-Keeps : (os : Os) (c : Call) → Keeps P (sys os c)
  sys-Keeps = Keeps-sys free.calls

  pub sys_-Keeps : (os : Os) (c : Call) → Keeps P (sys_ os c)
  sys_-Keeps = Keeps-sys_ free.calls

  pub del_event-Keeps : (os : Os) (fd : ℕ) → Keeps P (del_event os fd)
  del_event-Keeps = Keeps-del_event free.calls

  pub channel_interface-Keeps : (c : ℕ) → Keeps P (channel_interface c)
  unfolding channel_interface
  channel_interface-Keeps c = search keeps_rules

  pub put_interface-Keeps : (i : ℕ) (x : Interface) → Keeps P (put_interface i x)
  put_interface-Keeps = Keeps-put_interface free.interfaces

  pub put_channel-Keeps : (c : ℕ) (x : ControlChannel) → Keeps P (put_channel c x)
  put_channel-Keeps = Keeps-put_channel free.channels

  pub ruleset frame_rules = (
    keeps_rules, sys-Keeps, sys_-Keeps, del_event-Keeps, channel_interface-Keeps,
    put_interface-Keeps, put_channel-Keeps,
  )

  pub mmap-Keeps : (os : Os) (fd size : ℕ) → Keeps P (mmap os fd size)
  unfolding mmap
  mmap-Keeps os fd size =
      Keeps-bind _ _ (sys-Keeps os (Call.mmap fd size)) λ _. record { at = λ s h. h }

  still_fails :
      (o : Outcome (Unit {0})) (e : Error)
      → Leaves P o
      → Leaves {0} {A = Unit {0}} P
          (elim o [ done _ s'' ↦ fail e s'' | fail _ s'' ↦ fail e s'' | panic ↦ panic ])
  still_fails (done a s) e h = h
  still_fails (fail e' s) e h = h
  still_fails panic e h = tt

  or_close-Leaves :
      (os : Os) (fd : ℕ) (o : Outcome (Unit {0})) (s : Socket)
      → Leaves P o
      → Leaves P (or_close os fd (λ _. o) s)
  unfolding or_close
  or_close-Leaves os fd (done a s') s h = h
  or_close-Leaves os fd (fail e s') s h =
      let k : Keeps P (ignore (sys os (Call.close fd))) =
        Keeps-ignore (sys os (Call.close fd)) (sys-Keeps os (Call.close fd)) in
      still_fails (ignore (sys os (Call.close fd)) s') e (k.at s' h)
  or_close-Leaves os fd panic s h = tt

  pub or_close-Keeps :
      (os : Os) (fd : ℕ) (m : M (Unit {0})) → Keeps P m → Keeps P (or_close os fd m)
  unfolding or_close
  or_close-Keeps os fd m k = record { at = λ s h. or_close-Leaves os fd (m s) s (k.at s h) }

  pub add_region-Keeps : (os : Os) (i : ℕ) (b r : Bool) → Keeps P (add_region os i b r)
  unfolding add_region memfd_create
  add_region-Keeps os i b r = search (frame_rules, or_close-Keeps, mmap-Keeps) depth 30 fits 10000

  pub initialize_regions-Keeps : (os : Os) (i : ℕ) → Keeps P (initialize_regions os i)
  unfolding initialize_regions
  initialize_regions-Keeps os i = search (frame_rules, add_region-Keeps)

  pub on_memory-Keeps : (i : ℕ) (f : Interface → Option Interface) → Keeps P (on_memory i f)
  unfolding on_memory
  on_memory-Keeps i f = search frame_rules depth 10

  pub write_descs-Keeps :
      (i n : ℕ) (q : Queue) (slot : ℕ) (d : DescBuf) → Keeps P (write_descs i n q slot d)
  unfolding write_descs
  write_descs-Keeps i zero q slot d = search frame_rules
  write_descs-Keeps i (suc n) q slot d =
      let rest : (e : DescBuf) → Keeps P (write_descs i n q (slot + 1) e) =
        λ e. write_descs-Keeps i n q (slot + 1) e in
      search (frame_rules, on_memory-Keeps) depth 16 fits 5000

  pub initialize_queue-Keeps :
      (os : Os) (i : ℕ) (t : RingType) (qid : ℕ) (d : DescBuf)
      → Keeps P (initialize_queue os i t qid d)
  unfolding initialize_queue
  initialize_queue-Keeps os i t qid d =
      search (frame_rules, on_memory-Keeps, write_descs-Keeps) depth 20 fits 10000

  pub initialize_queues_of-Keeps :
      (os : Os) (i : ℕ) (t : RingType) (n qid : ℕ) (d : DescBuf)
      → Keeps P (initialize_queues_of os i t n qid d)
  unfolding initialize_queues_of
  initialize_queues_of-Keeps os i t zero qid d = search frame_rules
  initialize_queues_of-Keeps os i t (suc n) qid d =
      Keeps-bind _ _ (initialize_queue-Keeps os i t qid d)
        λ e. initialize_queues_of-Keeps os i t n (qid + 1) e

  pub initialize_queues-Keeps : (os : Os) (i : ℕ) → Keeps P (initialize_queues os i)
  unfolding initialize_queues
  initialize_queues-Keeps os i = search (frame_rules, initialize_queues_of-Keeps) depth 12 fits 5000
