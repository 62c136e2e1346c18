-- ===== src/Channel/Init.antt =====
-- What a master makes of an init message.
use memif.Prelude.{
  In, ℕ, ◌≡◌, inl, inr, refl, arith, List, [], ◌∷◌, some, none, get_elem?, set, drop, true, ◌==◌,
  Bool-cases, Option-cases,
}
use memif.Types.{Interface}
use memif.Message.{MsgInit, read_init, version, msg_type_size}
use memif.Channel.Parse.{body, parse_init, find_peer, wanted, assign, bytes_eq}
use memif.Socket.{
  Socket, ControlChannel, done, ◌>>=◌, get_interface, put_interface, get_channel, put_channel,
  interface_refs,
}

pub bytes_eq→eq : (xs ys : List ℕ) → bytes_eq xs ys ≡ true → xs ≡ ys
unfolding bytes_eq
bytes_eq→eq [] [] h = refl
bytes_eq→eq [] (y ∷ ys) h = cc
bytes_eq→eq (x ∷ xs) [] h = cc
bytes_eq→eq (x ∷ xs) (y ∷ ys) h = ground (arith, bytes_eq→eq xs ys)

-- What the channel `c` is assigned in the state `s`: a free master that the socket lists, with the
-- id and the secret of the message.
pub record Assigned (s s' : Socket) (c : ℕ) (init : MsgInit) (refs : List ℕ) : Type 0 where
  pub i : ℕ
  pub x : Interface
  pub listed : In i refs
  pub there : get_elem? s.interfaces i ≡ some x
  pub same_id : x.args.id ≡ init.id
  pub master : x.args.is_master ≡ true
  pub free : x.cc ≡ none
  pub same_secret : x.args.secret ≡ init.secret
  pub linked :
      s'.interfaces
      ≡ set s.interfaces i
          (record x { cc = some c; run = x.args.memory_config; remote_name = init.name })

wanted-inv :
    (id : ℕ) (x : Interface)
    → wanted id x ≡ true
    → (x.args.id ≡ id) × (x.args.is_master ≡ true) × (x.cc ≡ none)
wanted-inv id x h = ground arith

assign-interfaces :
    (c i : ℕ) (x : Interface) (name : List ℕ) (s s' : Socket)
    → assign c i x name s ≡ done tt s'
    → s'.interfaces
      ≡ set s.interfaces i
          (record x { cc = some c; run = x.args.memory_config; remote_name = name })
unfolding assign put_interface get_channel put_channel ◌>>=◌
assign-interfaces c i x name s s' h = ground arith

find_peer-Assigned :
    (c : ℕ) (init : MsgInit) (refs : List ℕ) (s s' : Socket)
    → find_peer c init refs s ≡ done tt s'
    → Assigned s s' c init refs
unfolding find_peer get_interface ◌>>=◌
find_peer-Assigned c init [] s s' h = ground arith
find_peer-Assigned c init (k ∷ ks) s s' h = elim (Option-cases (get_elem? s.interfaces k)) [
  | inl gone ↦ ground arith
  | inr (x, found) ↦ elim (Bool-cases (wanted init.id x)) [
    | inl yes_wanted ↦ elim (Bool-cases (bytes_eq x.args.secret init.secret)) [
      | inl same ↦
          let (id, m, f) = wanted-inv init.id x yes_wanted in
          record {
            i = k;
            x = x;
            listed = inl refl;
            there = found;
            same_id = id;
            master = m;
            free = f;
            same_secret = bytes_eq→eq x.args.secret init.secret same;
            linked = assign-interfaces c k x init.name s s' (ground arith);
          }
      | inr other_secret ↦ ground arith
    ]
    | inr not_wanted ↦
        let a : Assigned s s' c init ks = find_peer-Assigned c init ks s s' (ground arith) in
        record {
          i = a.i;
          x = a.x;
          listed = inr a.listed;
          there = a.there;
          same_id = a.same_id;
          master = a.master;
          free = a.free;
          same_secret = a.same_secret;
          linked = a.linked;
        }
  ]
]

-- An init message that a channel accepts has version 2.0, and the channel is then given an interface
-- that the socket lists: a master that was free, with the id and the secret of the message. Nothing
-- else of the interfaces changes: that one takes its asked configuration and the peer's name.
pub parse_init-Assigned :
    (c : ℕ) (cc : ControlChannel) (s s' : Socket)
    → get_elem? s.channels c ≡ some cc
    → parse_init c s ≡ done tt s'
    → ((read_init (drop msg_type_size cc.payload)).version_number ≡ version)
      × Assigned s s' c (read_init (drop msg_type_size cc.payload)) s.interface_list
unfolding parse_init body get_channel interface_refs ◌>>=◌
parse_init-Assigned c cc s s' there h =
    let init = read_init (drop msg_type_size cc.payload) in
    elim (Bool-cases (init.version_number == version)) [
      | inl same ↦ (ground arith, find_peer-Assigned c init s.interface_list s s' (ground arith))
      | inr other_version ↦ ground arith
    ]
