-- ===== src/Channel/Secret.antt =====
-- The secret in the init message that a slave sends (msgEnqInit of
-- memif-new/memif/control_channel.go), and what a master makes of it.
use memif.Prelude.{
  ℕ, ◌^◌, ◌<◌, ◌≡◌, refl, ap, subst, ◌∙◌, arith, List, [], ◌∷◌, ◌++◌, some, none, get_elem?, set,
  drop, length, replicate, get_elem?-set_self, lt_length,
}
use memif.Bytes.{to_le}
use memif.Bytes.Copy.{length-copy_at}
use memif.Types.{Interface}
use memif.Message.{
  MsgInit, msg_type_code, init_type, interface_mode_ethernet, version, text_field, write_init,
  read_init, msg_type_size,
}
use memif.Message.RoundTrip.{IsInit, read_init-sent}
use memif.Channel.{msg_enq_init, enqueue, app_name}
use memif.Channel.Parse.{parse_init}
use memif.Channel.Hello.{Received}
use memif.Channel.Init.{Assigned, parse_init-Assigned}
use memif.Socket.{
  Socket, ControlChannel, ControlMsg, done, ◌>>=◌, get_interface, get_channel, put_channel,
  channel_interface,
}

-- The init message of an interface.
abbrev pub init_of : Socket → Interface → MsgInit
init_of s x = record {
  version_number = version;
  id = x.args.id;
  mode = interface_mode_ethernet;
  secret = replicate 24 0;
  name = text_field 32 s.app_name;
}

abbrev pub init_msg : Socket → Interface → ControlMsg
init_msg s x = record {
  buffer = to_le 2 (msg_type_code init_type) ++ write_init (init_of s x);
  fd = none;
}

pub length-text_field : (text : List ℕ) → length (text_field 32 text) ≡ 32
unfolding text_field
length-text_field text = length-copy_at (replicate 32 0) 0 text

pub init_of-IsInit : (s : Socket) (x : Interface) → x.args.id < 256 ^ 4 → IsInit (init_of s x)
init_of-IsInit s x h = record {
  version_fits = omega arith;
  id_fits = h;
  mode_fits = omega arith;
  secret_len = refl;
  name_len = length-text_field s.app_name;
}

pub msg_enq_init-queue :
    {s : Socket} {c i : ℕ} {cc : ControlChannel} {x : Interface}
    → Received s c i cc x
    → msg_enq_init c s
      ≡ done tt (record s {
        channels = set s.channels c (record cc { msg_queue = cc.msg_queue ++ (init_msg s x ∷ []) });
      })
unfolding msg_enq_init enqueue app_name get_channel put_channel get_interface channel_interface
    ◌>>=◌
msg_enq_init-queue r = ground (arith, r.channel, r.owner, r.interface)

last-eq : {A : Type 0} (xs : List A) (a b : A) → xs ++ (a ∷ []) ≡ xs ++ (b ∷ []) → a ≡ b
last-eq [] a b h = ground arith
last-eq (x ∷ xs) a b h = last-eq xs a b (ground arith)

queued-init :
    (s s' : Socket) (c i : ℕ) (cc cc' : ControlChannel) (x : Interface) (msg : ControlMsg)
    → Received s c i cc x
    → msg_enq_init c s ≡ done tt s'
    → get_elem? s'.channels c ≡ some cc'
    → cc'.msg_queue ≡ cc.msg_queue ++ (msg ∷ [])
    → msg ≡ init_msg s x
queued-init s s' c i cc cc' x msg r enq there queue =
    let cc₁ : ControlChannel = record cc { msg_queue = cc.msg_queue ++ (init_msg s x ∷ []) } in
    let e : set s.channels c cc₁ ≡ s'.channels = ground (arith, msg_enq_init-queue r) in
    let self = get_elem?-set_self s.channels c cc₁ (lt_length s.channels c r.channel) in
    let same : cc₁ ≡ cc' = ground (arith, self) in
    last-eq cc.msg_queue msg (init_msg s x) (ground arith)

-- The init message that a slave puts in its channel's queue never carries the slave's secret: a
-- master that accepts it, in any later state of its own, has the slave's id and a secret of
-- zeros, whatever the slave's secret is. Hence no master with another secret accepts a slave.
pub parse_init-secret :
    (s s' : Socket) (c i : ℕ) (cc cc' : ControlChannel) (x : Interface) (msg : ControlMsg)
    (t t' : Socket) (d : ℕ) (peer : ControlChannel) (rest : List ℕ)
    → Received s c i cc x
    → x.args.id < 256 ^ 4
    → msg_enq_init c s ≡ done tt s'
    → get_elem? s'.channels c ≡ some cc'
    → cc'.msg_queue ≡ cc.msg_queue ++ (msg ∷ [])
    → get_elem? t.channels d ≡ some peer
    → peer.payload ≡ msg.buffer ++ rest
    → parse_init d t ≡ done tt t'
    → (a : Assigned t t' d (init_of s x) t.interface_list) × (a.x.args.id ≡ x.args.id)
      × (a.x.args.secret ≡ replicate 24 0)
parse_init-secret s s' c i cc cc' x msg t t' d peer rest r fits enq there queue received payload h =
    let same : msg ≡ init_msg s x = queued-init s s' c i cc cc' x msg r enq there queue in
    let read : read_init (drop msg_type_size peer.payload) ≡ init_of s x =
      ap (λ xs. read_init (drop msg_type_size xs)) (payload ∙ ap (λ m. m.buffer ++ rest) same)
      ∙ read_init-sent (to_le 2 (msg_type_code init_type)) (init_of s x) rest refl
          (init_of-IsInit s x fits) in
    let a : Assigned t t' d (init_of s x) t.interface_list =
      subst (λ m. Assigned t t' d m t.interface_list) read
        (parse_init-Assigned d peer t t' received h).1 in
    (a, a.same_id, a.same_secret)
