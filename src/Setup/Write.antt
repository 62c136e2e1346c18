-- ===== src/Setup/Write.antt =====
-- The loop of initializeQueues of memif-new/memif/interface.go that writes a ring's descriptors, on a
-- slave's region.
use memif.Prelude.{
  Option-cases, inl, inr, ℕ, zero, suc, ◌+◌, ◌*◌, ◌^◌, ◌≤◌, ◌<◌, ◌≡◌, refl, ap, sym, ◌∙◌, arith,
  List, [], ◌∷◌, length, some, Option, none, get_elem?, set, set-set, set_same, lt_length,
  get_elem?-set_self,
}
use memif.Bytes.{copy_at}
use memif.Bytes.Copy.{length-copy_at}
use memif.Desc.{DescBuf, set_offset}
use memif.Types.{Interface, Queue, MemoryConfig, MemoryRegion}
use memif.Region.{buffer_offset}
use memif.Queue.{region_data, set_region_data, put_desc_buf, with_bytes, desc_address}
use memif.Queue.Memory.{
  region_data-set, set_region_data-set, set_region_data_same, put_desc_buf-eq, run-set_region_data,
}
use memif.Socket.{
  Socket, Outcome, done, M, ◌>>=◌, ◌>>◌, return, deref, get_interface, put_interface,
}
use memif.Setup.{on_memory, write_descs}
use memif.Setup.Descs.{described}

module _ {ℓ} {A : Type ℓ} where
  -- A step that dereferences what is there.
  pub get_interface-eq :
      (i : ℕ) (x : Interface) (s : Socket) (f : Interface → M A)
      → get_elem? s.interfaces i ≡ some x
      → (get_interface i >>= f) s ≡ f x s
  unfolding get_interface ◌>>=◌
  get_interface-eq i x s f there =
      ap (λ (o : Option Interface). ((λ (t : Socket). deref o t) >>= f) s) there

  pub deref-eq :
      {B : Type 0} (o : Option B) (b : B) (s : Socket) (f : B → M A)
      → o ≡ some b
      → (deref o >>= f) s ≡ f b s
  unfolding ◌>>=◌
  deref-eq {B} o b s f e = ap (λ (p : Option B). (deref p >>= f) s) e

module _ {ℓ κ} {A : Type ℓ} {B : Type κ} where
  pub bind-done :
      (m : M A) (f : A → M B) (a : A) (s s' : Socket) → m s ≡ done a s' → (m >>= f) s ≡ f a s'
  unfolding ◌>>=◌
  bind-done m f a s s' e = ap (λ (o : Outcome A). ((λ (t : Socket). o) >>= f) s) e

-- The socket with this interface in the place of another.
abbrev pub with_interface : ℕ → Interface → Socket → Socket
with_interface i x s = record s { interfaces = set s.interfaces i x }

pub on_memory-eq :
    (i : ℕ) (f : Interface → Option Interface) (x y : Interface) (s : Socket)
    → get_elem? s.interfaces i ≡ some x
    → f x ≡ some y
    → on_memory i f s ≡ done tt (with_interface i y s)
unfolding on_memory put_interface
on_memory-eq i f x y s there e =
    get_interface-eq i x s (λ z. deref (f z) >>= put_interface i) there
    ∙ deref-eq (f x) y s (put_interface i) e

-- The first region begins its packet buffers here.
abbrev pub FirstBuffers : Interface → ℕ → Type 0
FirstBuffers x first =
    (r : MemoryRegion) × (get_elem? x.regions 0 ≡ some r) × (r.packet_buffer_offset ≡ first)

first-set :
    (rs : List MemoryRegion) (k : ℕ) (r v : MemoryRegion) (xs : List ℕ) (first : ℕ)
    → get_elem? rs k ≡ some v
    → get_elem? rs 0 ≡ some r
    → r.packet_buffer_offset ≡ first
    → (r' : MemoryRegion) × (get_elem? (set rs k (with_bytes v xs)) 0 ≡ some r')
      × (r'.packet_buffer_offset ≡ first)
first-set [] k r v xs first there got same = absurd (ground arith)
first-set (y ∷ rs) zero r v xs first there got same = (with_bytes v xs, refl, ground arith)
first-set (y ∷ rs) (suc k) r v xs first there got same = (y, refl, ground arith)

first_split :
    (x : Interface) (k : ℕ) (xs : List ℕ) (first : ℕ) (o : Option MemoryRegion)
    → get_elem? x.regions k ≡ o
    → FirstBuffers x first
    → FirstBuffers (set_region_data k xs x) first
unfolding set_region_data
first_split x k xs first none e h = rw (e, set_region_data) h
first_split x k xs first (some v) e (r, got, same) =
    rw (e, set_region_data) (first-set x.regions k r v xs first e got same)

pub FirstBuffers-set :
    (x : Interface) (k : ℕ) (xs : List ℕ) (first : ℕ)
    → FirstBuffers x first
    → FirstBuffers (set_region_data k xs x) first
FirstBuffers-set x k xs first h = first_split x k xs first (get_elem? x.regions k) refl h

-- The size and the descriptor of each region.
abbrev pub shapes : List MemoryRegion → List (ℕ × ℕ)
shapes [] = []
shapes (r ∷ rs) = (r.size, r.fd) ∷ shapes rs

shapes-set :
    (rs : List MemoryRegion) (k : ℕ) (r r' : MemoryRegion)
    → get_elem? rs k ≡ some r
    → r'.size ≡ r.size
    → r'.fd ≡ r.fd
    → shapes (set rs k r') ≡ shapes rs
shapes-set [] k r r' there size fd = absurd (ground (arith, there))
shapes-set (v ∷ rs) zero r r' there size fd =
    let same : v ≡ r = ground (arith, there) in rw (size, fd, same) refl
shapes-set (v ∷ rs) (suc k) r r' there size fd =
    ap (λ ss. (v.size, v.fd) ∷ ss) (shapes-set rs k r r' there size fd)

pub shapes-set_region_data :
    (x : Interface) (k : ℕ) (xs : List ℕ)
    → shapes (set_region_data k xs x).regions ≡ shapes x.regions
unfolding set_region_data
shapes-set_region_data x k xs = elim (Option-cases (get_elem? x.regions k)) [
  | inl gone ↦ rw (gone, set_region_data) refl
  | inr (r, there) ↦
      rw (there, set_region_data) (shapes-set x.regions k r (with_bytes r xs) there refl refl)
]

-- The descriptor that the next ring begins with.
abbrev pub last_desc : MemoryConfig → ℕ → ℕ → ℕ → DescBuf → DescBuf
last_desc run first zero slot desc = desc
last_desc run first (suc n) slot desc =
    last_desc run first n (slot + 1) (set_offset (buffer_offset run first slot) desc)

pub interface_put :
    (i : ℕ) (x y : Interface) (s : Socket)
    → get_elem? s.interfaces i ≡ some x
    → get_elem? (with_interface i y s).interfaces i ≡ some y
interface_put i x y s there = get_elem?-set_self s.interfaces i y (lt_length s.interfaces i there)

with_interface-with_interface :
    (i : ℕ) (x y : Interface) (s : Socket)
    → with_interface i y (with_interface i x s) ≡ with_interface i y s
with_interface-with_interface i x y s =
    ap (λ (xs : List Interface). record s { interfaces = xs }) (set-set s.interfaces i x y)

-- The loop returns, with the descriptors in the region's bytes, and nothing else of the socket changed.
pub write_descs-eq :
    (i n : ℕ) (q : Queue) (slot first : ℕ) (desc : DescBuf) (x : Interface) (d : List ℕ)
    (s : Socket)
    → get_elem? s.interfaces i ≡ some x
    → FirstBuffers x first
    → region_data x q.ring.region ≡ some d
    → q.ring.offset + 128 + (slot + n) * 16 ≤ length d
    → length d < 2 ^ 63
    → write_descs i n q slot desc s
      ≡ done (last_desc x.run first n slot desc) (
          with_interface i
            (set_region_data q.ring.region (described q x.run first n slot desc d) x)
            s)
unfolding write_descs return set_offset set_region_data
write_descs-eq i zero q slot first desc x d s there (r, got, same) mapped room small =
    ap (λ (xs : List Interface). done desc (record s { interfaces = xs }))
      (sym (
        ap (set s.interfaces i) (set_region_data_same x q.ring.region mapped)
        ∙ set_same s.interfaces i x there))
write_descs-eq i (suc n) q slot first desc x d s there (r, got, same) mapped room small =
    get_interface-eq i x s _ there
    ∙ deref-eq (get_elem? x.regions 0) r s _ got
    ∙ ap
        (λ (p : ℕ).
          (on_memory i (put_desc_buf q slot (set_offset (buffer_offset x.run p slot) desc))
              >> write_descs i n q (slot + 1) (set_offset (buffer_offset x.run p slot) desc))
            s)
        same
    ∙ bind-done _ _ tt s s₁ (on_memory-eq i _ x x₁ s there put)
    ∙ (rw
        (
          run-set_region_data x q.ring.region d₁,
          set_region_data-set x q.ring.region mapped d₁
              (described q x.run first n (slot + 1) desc₁ d₁),
          with_interface-with_interface i x₁
              (set_region_data q.ring.region (described q x.run first n (slot + 1) desc₁ d₁) x) s,
        )
        at
        (write_descs-eq i n q (slot + 1) first desc₁ x₁ d₁ s₁ (interface_put i x x₁ s there)
          (FirstBuffers-set x q.ring.region d₁ first (r, got, same))
          (region_data-set x q.ring.region mapped d₁ whole) (omega (arith, whole))
          (omega (arith, whole))))
  where
    desc₁ : DescBuf
    desc₁ = set_offset (buffer_offset x.run first slot) desc

    d₁ : List ℕ
    d₁ = copy_at d (q.ring.offset + 128 + slot * 16) desc₁

    whole : length d₁ ≡ length d
    whole = length-copy_at d (q.ring.offset + 128 + slot * 16) desc₁

    x₁ : Interface
    x₁ = set_region_data q.ring.region d₁ x

    s₁ : Socket
    s₁ = with_interface i x₁ s

    address : desc_address q slot ≡ q.ring.offset + 128 + slot * 16
    address = omega arith

    put : put_desc_buf q slot desc₁ x ≡ some x₁
    put =
        put_desc_buf-eq q slot desc₁ x mapped (omega (arith, address))
        ∙ ap (λ (a : ℕ). some (set_region_data q.ring.region (copy_at d a desc₁) x)) address
