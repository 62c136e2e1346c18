-- ===== src/Lifecycle/Registry.antt =====
-- The interfaces that a socket lists (Interface.NewInterface of memif-new/memif/interface.go).
use memif.Prelude.{
  In, In-append, ℕ, ◌<◌, ◌≡◌, refl, sym, ap, ◌∙◌, arith, Bool, true, false, List, [], ◌∷◌, ◌++◌,
  some, none, get_elem?, length, length-append, inl, inr, Bool-cases, Option-cases, ◌==◌, ◌&&◌,
  get_elem?-append_old, get_elem?-append_new, if◌then◌else◌, subst,
}
use memif.Types.{Interface, Arguments}
use memif.Types.Os.{Os, Call}
use memif.Lifecycle.{
  new_interface, check_unique, push_interface, ensure_listener, add_listener, add_listener_fd,
  set_listener, socket_filename, bool_eq, with_defaults,
}
use memif.Socket.{
  Socket, Outcome, done, fail, panic, M, ◌>>=◌, ◌>>◌, return, wrap, get_interface, interface_refs,
}
use memif.Socket.Keeps.{Leaves, Keeps, keeps_rules, Keeps-sys_, Keeps-wrap, Keeps-add_event}

-- The listed references are references to interfaces, and no two of the listed interfaces have
-- both the same id and the same role.
pub record Registry (s : Socket) : Type 0 where
  pub inside : (i : ℕ) → In i s.interface_list → i < length s.interfaces
  pub unique :
      (i j : ℕ) (x y : Interface)
      → In i s.interface_list
      → In j s.interface_list
      → get_elem? s.interfaces i ≡ some x
      → get_elem? s.interfaces j ≡ some y
      → x.args.id ≡ y.args.id
      → x.args.is_master ≡ y.args.is_master
      → i ≡ j

bool_eq-same : (a b : Bool) → a ≡ b → bool_eq a b ≡ true
bool_eq-same true b h = sym h
bool_eq-same false true h = ground arith
bool_eq-same false false h = refl

check_unique-ok :
    (id : ℕ) (m : Bool) (is : List ℕ) (s s' : Socket) (j : ℕ) (y : Interface)
    → check_unique id m is s ≡ done tt s'
    → In j is
    → get_elem? s.interfaces j ≡ some y
    → y.args.id ≡ id
    → y.args.is_master ≡ m
    → ⊥
unfolding check_unique get_interface ◌>>=◌
check_unique-ok id m [] s s' j y h at there same_id same_role = at
check_unique-ok id m (i ∷ is) s s' j y h (inl e) there same_id same_role =
    let same : get_elem? s.interfaces i ≡ some y = ap (get_elem? s.interfaces) (sym e) ∙ there in
    ground (arith, same, bool_eq-same y.args.is_master m same_role)
check_unique-ok id m (i ∷ is) s s' j y h (inr at) there same_id same_role =
    elim (Option-cases (get_elem? s.interfaces i)) [
      | inl gone ↦ ground arith
      | inr (x, found) ↦ elim (Bool-cases (x.args.id == id && bool_eq x.args.is_master m)) [
        | inl clash ↦ ground arith
        | inr no_clash ↦
            check_unique-ok id m is s s' j y (ground (arith, found, no_clash)) at there same_id
              same_role
      ]
    ]

Keeps-check_unique :
    {P : Socket → Type 0} (id : ℕ) (m : Bool) (is : List ℕ) → Keeps P (check_unique id m is)
unfolding check_unique
Keeps-check_unique id m [] = search keeps_rules
Keeps-check_unique {P} id m (i ∷ is) =
    let rest : Keeps P (check_unique id m is) = Keeps-check_unique {P = P} id m is in
    search keeps_rules

module _ (s : Socket) (x : Interface) (r : Registry s) where
  -- The state after the interface is listed.
  abbrev pushed : Socket
  pushed = record s {
    interfaces = s.interfaces ++ (x ∷ []);
    interface_list = s.interface_list ++ (length s.interfaces ∷ []);
  }

  old_there :
      (i : ℕ) (y : Interface)
      → In i s.interface_list
      → get_elem? pushed.interfaces i ≡ some y
      → get_elem? s.interfaces i ≡ some y
  old_there i y at there = sym (get_elem?-append_old s.interfaces x i (r.inside i at)) ∙ there

  new_there :
      (i : ℕ) (y : Interface)
      → i ≡ length s.interfaces
      → get_elem? pushed.interfaces i ≡ some y
      → y ≡ x
  new_there i y e there =
      let new = get_elem?-append_new s.interfaces x in
      let there' : get_elem? pushed.interfaces (length s.interfaces) ≡ some y =
        ap (get_elem? pushed.interfaces) (sym e) ∙ there in
      ground (arith, new, there')

  Registry-pushed :
      ((j : ℕ) (y : Interface)
        → In j s.interface_list
        → get_elem? s.interfaces j ≡ some y
        → y.args.id ≡ x.args.id
        → y.args.is_master ≡ x.args.is_master
        → ⊥)
      → Registry pushed
  Registry-pushed fresh = record {
    inside = λ i at.
        let len = length-append s.interfaces (x ∷ []) in
        elim (In-append i (length s.interfaces) s.interface_list at) [
          | inl old ↦ omega (arith, len, r.inside i old)
          | inr new ↦ omega (arith, len, new)
        ];
    unique = λ i j y z at_i at_j y_there z_there ids roles.
        elim (In-append i (length s.interfaces) s.interface_list at_i) [
          | inl old_i ↦ elim (In-append j (length s.interfaces) s.interface_list at_j) [
            | inl old_j ↦
                r.unique i j y z old_i old_j (old_there i y old_i y_there)
                  (old_there j z old_j z_there) ids roles
            | inr new_j ↦
                let e = new_there j z new_j z_there in
                absurd (
                  fresh i y old_i (old_there i y old_i y_there) (ids ∙ ap (λ z. z.args.id) e)
                    (roles ∙ ap (λ z. z.args.is_master) e))
          ]
          | inr new_i ↦ elim (In-append j (length s.interfaces) s.interface_list at_j) [
            | inl old_j ↦
                let e = new_there i y new_i y_there in
                absurd (
                  fresh j z old_j (old_there j z old_j z_there) (sym ids ∙ ap (λ z. z.args.id) e)
                    (sym roles ∙ ap (λ z. z.args.is_master) e))
            | inr new_j ↦ new_i ∙ sym new_j
          ]
        ];
  }

Keeps-socket_filename : Keeps Registry socket_filename
unfolding socket_filename
Keeps-socket_filename = record { at = λ s r. r }

Keeps-set_listener : (fd : ℕ) → Keeps Registry (set_listener fd)
unfolding set_listener
Keeps-set_listener fd = record { at = λ s r. record { inside = r.inside; unique = r.unique } }

free_calls : (s : Socket) (cs : List Call) → Registry s → Registry (record s { calls = cs })
free_calls s cs r = record { inside = r.inside; unique = r.unique }

ruleset registry_rules = (
  keeps_rules, Keeps-sys_, Keeps-wrap, Keeps-add_event, Keeps-socket_filename, Keeps-set_listener,
  free_calls,
)

Keeps-add_listener : (os : Os) → Keeps Registry (add_listener os)
unfolding add_listener add_listener_fd
Keeps-add_listener os = search registry_rules depth 30 fits 5000

Keeps-ensure_listener : (os : Os) → Keeps Registry (ensure_listener os)
unfolding ensure_listener
Keeps-ensure_listener os = record {
  at = λ s r.
      elim s.listener
        as (λ l. Leaves Registry (elim l [
          | none ↦ wrap "Failed to create listener channel: %s" (add_listener os) s
          | some _ ↦ done tt s
        ])) [
          | none ↦
              (Keeps-wrap "Failed to create listener channel: %s" (add_listener os)
                  (Keeps-add_listener os)).at
                s r
          | some _ ↦ r
        ];
}

abbrev added : Arguments → Interface
added args = record {
  args = record args { memory_config = with_defaults args.memory_config };
  run = record { num_queue_pairs = 0; log2_ring_size = 0; packet_buffer_size = 0 };
  cc = none;
  remote_name = [];
  peer_name = [];
  regions = [];
  tx_queues = [];
  rx_queues = [];
}

abbrev add_it : Os → Arguments → M ℕ
add_it os args = do
  i ← push_interface (added args)
  if args.is_master then ensure_listener os else return tt
  return i

Keeps-listener_of :
    (os : Os) (is_master : Bool) (i : ℕ)
    → Keeps Registry (do if is_master then ensure_listener os else return tt; return i)
Keeps-listener_of os is_master i = search (keeps_rules, Keeps-ensure_listener)

add_it-Registry :
    (os : Os) (args : Arguments) (s : Socket)
    → Registry s
    → check_unique args.id args.is_master s.interface_list s ≡ done tt s
    → Leaves Registry (add_it os args s)
unfolding push_interface ◌>>=◌
add_it-Registry os args s r h =
    (Keeps-listener_of os args.is_master (length s.interfaces)).at (pushed s (added args) r) (
      Registry-pushed s (added args) r λ j y at there same_id same_role.
        check_unique-ok args.id args.is_master s.interface_list s s j y h at there same_id
          same_role)

new_interface-by_check :
    (os : Os) (args : Arguments) (s : Socket) (o : Outcome (Unit {0}))
    → Registry s
    → check_unique args.id args.is_master s.interface_list s ≡ o
    → Leaves (λ s'. s' ≡ s) o
    → Leaves Registry (new_interface os args s)
unfolding new_interface interface_refs ◌>>=◌
new_interface-by_check os args s (done tt s') r h same =
    let e : new_interface os args s ≡ add_it os args s = ground (arith, h, same) in
    subst (Leaves Registry) (sym e) (add_it-Registry os args s r (ground (arith, h, same)))
new_interface-by_check os args s (fail e s') r h same =
    let e₁ : new_interface os args s ≡ fail e s = ground (arith, h, same) in
    subst (Leaves Registry) (sym e₁) r
new_interface-by_check os args s panic r h same =
    let e : new_interface os args s ≡ panic = ground (arith, h) in
    subst (Leaves Registry) (sym e) tt

-- NewInterface keeps it true that the socket's references are references to interfaces and that no
-- two interfaces of a socket have both the same id and the same role, whether it succeeds or fails
-- and whatever the system answers.
pub new_interface-Registry :
    (os : Os) (args : Arguments) (s : Socket)
    → Registry s
    → Leaves Registry (new_interface os args s)
new_interface-Registry os args s r =
    let is = s.interface_list in
    let o = check_unique args.id args.is_master is s in
    new_interface-by_check os args s o r refl
      ((Keeps-check_unique {P = λ s'. s' ≡ s} args.id args.is_master is).at s refl)
