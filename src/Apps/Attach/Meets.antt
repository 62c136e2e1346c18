-- ===== src/Apps/Attach/Meets.antt =====
-- memif-attach (memif-attach/main.go) against the messages of the library (memif-new/memif).
use memif.Prelude.{
  ℕ, ◌+◌, ◌*◌, ◌/◌, ◌%◌, ◌≤◌, ◌≡◌, refl, ap, ◌∙◌, arith, List, ◌∷◌, ◌++◌, Option, none, some,
  length, length-append, get_elem?, take, drop, le→ltb, true,
}
use memif.Bytes.{to_le, read_le}
use mathlib.Core.List.{append_assoc}
use memif.Types.Os.{Os, Error, unknown_message, close_failed}
use memif.Channel.{close}
use memif.Message.{MsgHello, write_hello, msg_type_code, hello_type}
use memif.Message.RoundTrip.{drop-past, take-first, hello_numbers}
use memif.Socket.{
  Socket, ControlChannel, Outcome, done, fail, panic, ◌>>=◌, throw, deref, M, get_channel,
}
use memif.Channel.Dispatch.{parse_msg, or_close_channel, msg_type_of, on_message}
use memif.Apps.Attach.{HelloMsg, handle_hello_msg, init_msg, write_init_msg, encode_init_msg, of_be}

-- A 16-bit number with its bytes swapped.
abbrev pub swapped : ℕ → ℕ
swapped v = v % 256 * 256 + v / 256 % 256

of_be-to_le2 : (v : ℕ) → of_be 0 (to_le 2 v) ≡ swapped v
of_be-to_le2 v = omega arith

of_be-to_le1 : (v : ℕ) → of_be 0 (to_le 1 v) ≡ v % 256
of_be-to_le1 v = omega arith

-- memif-attach reads the hello message of a library master, with an application name of 32 bytes, with
-- the bytes of every 16-bit number swapped, the message's type included; the name and the ring size
-- are as they were.
pub handle_hello_msg-swaps :
    (m : MsgHello) (rest : List ℕ)
    → length m.name ≡ 32
    → handle_hello_msg (to_le 2 (msg_type_code hello_type) ++ (write_hello m ++ rest))
      ≡ some (record {
        ack = swapped (msg_type_code hello_type);
        name = m.name;
        min_version = swapped m.version_min;
        max_version = swapped m.version_max;
        max_region = swapped m.max_region;
        max_m2s_ring = swapped m.max_ring_m2s;
        max_s2m_ring = swapped m.max_ring_s2m;
        max_log2_ring_size = m.max_log2_ring_size % 256;
      })
unfolding handle_hello_msg write_hello msg_type_code
handle_hello_msg-swaps m rest h =
    ap (λ xs. handle_hello_msg (2 ∷ 0 ∷ xs)) (append_assoc m.name (hello_numbers m) rest)
    ∙ rw (le→ltb (length (2 ∷ 0 ∷ (m.name ++ (hello_numbers m ++ rest)))) 45 long) (λ i.
      some (record {
        ack = 512;
        name = take-first 32 m.name (hello_numbers m ++ rest) h i;
        min_version = (ap (λ t. of_be 0 (take 2 t)) (past 0) ∙ of_be-to_le2 m.version_min) i;
        max_version = (ap (λ t. of_be 0 (take 2 t)) (past 2) ∙ of_be-to_le2 m.version_max) i;
        max_region = (ap (λ t. of_be 0 (take 2 t)) (past 4) ∙ of_be-to_le2 m.max_region) i;
        max_m2s_ring = (ap (λ t. of_be 0 (take 2 t)) (past 6) ∙ of_be-to_le2 m.max_ring_m2s) i;
        max_s2m_ring = (ap (λ t. of_be 0 (take 2 t)) (past 8) ∙ of_be-to_le2 m.max_ring_s2m) i;
        max_log2_ring_size =
            (ap (λ t. of_be 0 (take 1 t)) (past 10) ∙ of_be-to_le1 m.max_log2_ring_size) i;
      }))
  where
    past :
        (k : ℕ)
        → drop (32 + k) (m.name ++ (hello_numbers m ++ rest)) ≡ drop k (hello_numbers m ++ rest)
    past k = drop-past 32 k m.name (hello_numbers m ++ rest) h

    long : 45 ≤ length (2 ∷ 0 ∷ (m.name ++ (hello_numbers m ++ rest)))
    long = omega (arith, length-append {0} m.name (hello_numbers m ++ rest))

still_fails :
    (os : Os) (c : ℕ) (e : Error) (s : Socket) (o : Outcome (Unit {0}))
    → ((s' : Socket) × (elim o as (λ _. Outcome (Unit {0})) [
      | done _ s'' ↦ fail e s''
      | fail e₁ s'' ↦ fail (close_failed e e₁) s''
      | panic ↦ panic
    ]
          ≡ done tt s'))
    → ⊥
still_fails os c e s (done a s'') (s', h) = ground arith
still_fails os c e s (fail a s'') (s', h) = ground arith
still_fails os c e s panic (s', h) = ground arith

thrown_fails :
    (os : Os) (c : ℕ) (e : Error) (s : Socket)
    → ¬ ((s' : Socket) × (or_close_channel os c (throw e) s ≡ done tt s'))
unfolding or_close_channel throw
thrown_fails os c e s h = still_fails os c e s (close os c true (os.text e) s) h

type_zero : (hello : HelloMsg) (rest : List ℕ) → read_le 2 0 (encode_init_msg hello ++ rest) ≡ 0
unfolding encode_init_msg init_msg write_init_msg
type_zero hello rest = refl

-- The handling of a message with this type.
abbrev on_code : Os → ℕ → ℕ → M (Unit {0})
on_code os c code =
    or_close_channel os c
      (elim (msg_type_of code) [ none ↦ throw (unknown_message code) | some t ↦ on_message os c t ])

parse_msg-unknown :
    (os : Os) (c : ℕ) (ch : ControlChannel) (s : Socket)
    → get_elem? s.channels c ≡ some ch
    → read_le 2 0 ch.payload ≡ 0
    → parse_msg os c s ≡ or_close_channel os c (throw (unknown_message 0)) s
unfolding parse_msg get_channel ◌>>=◌ msg_type_of
parse_msg-unknown os c ch s there code =
    ap
      (λ (o : Option ControlChannel).
        ((λ (t : Socket). deref o t) >>= λ x. on_code os c (read_le 2 0 x.payload)) s)
      there
    ∙ ap (λ (k : ℕ). on_code os c k s) code

-- A channel of the library that has received the bytes that memif-attach encodes for its init message
-- does not take them for one: whatever hello message they answer, and whatever follows them in the
-- datagram, the handling of the message never succeeds, as its type is 0, which no message has.
pub parse_msg-refuses :
    (os : Os) (c : ℕ) (ch : ControlChannel) (hello : HelloMsg) (rest : List ℕ) (s : Socket)
    → get_elem? s.channels c ≡ some ch
    → ch.payload ≡ encode_init_msg hello ++ rest
    → ¬ ((s' : Socket) × (parse_msg os c s ≡ done tt s'))
parse_msg-refuses os c ch hello rest s there sent =
    rw (parse_msg-unknown os c ch s there (rw sent (type_zero hello rest)))
      (thrown_fails os c (unknown_message 0) s)
