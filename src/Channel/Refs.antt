-- ===== src/Channel/Refs.antt =====
-- Removing a reference from a list without duplicates, as `list.Remove` does in
-- memif-new/memif/control_channel.go.
use memif.Prelude.{
  In, ℕ, ◌≡◌, inl, inr, sym, ap, subst, arith, true, false, List, [], ◌∷◌, ◌==◌, if◌then◌else◌,
  Bool-cases,
}
use memif.Channel.{remove_ref}

-- No reference is listed twice.
abbrev pub Distinct : List ℕ → Type 0
Distinct [] = Unit
Distinct (k ∷ ks) = (In k ks → ⊥) × Distinct ks

remove_ref-same : (c k : ℕ) (ks : List ℕ) → (k == c) ≡ true → remove_ref c (k ∷ ks) ≡ ks
unfolding remove_ref
remove_ref-same c k ks h = ap (λ b. if b then ks else k ∷ remove_ref c ks) h

remove_ref-other :
    (c k : ℕ) (ks : List ℕ) → (k == c) ≡ false → remove_ref c (k ∷ ks) ≡ k ∷ remove_ref c ks
unfolding remove_ref
remove_ref-other c k ks h = ap (λ b. if b then ks else k ∷ remove_ref c ks) h

pub In-remove_ref : (j c : ℕ) (ks : List ℕ) → In j (remove_ref c ks) → In j ks
unfolding remove_ref
In-remove_ref j c [] h = h
In-remove_ref j c (k ∷ ks) h = elim (Bool-cases (k == c)) [
  | inl same ↦ inr (subst (In j) (remove_ref-same c k ks same) h)
  | inr other ↦ elim (subst (In j) (remove_ref-other c k ks other) h) [
    | inl e ↦ inl e
    | inr at ↦ inr (In-remove_ref j c ks at)
  ]
]

pub Distinct-remove_ref : (c : ℕ) (ks : List ℕ) → Distinct ks → Distinct (remove_ref c ks)
unfolding remove_ref
Distinct-remove_ref c [] h = h
Distinct-remove_ref c (k ∷ ks) (fresh, rest) = elim (Bool-cases (k == c)) [
  | inl same ↦ subst Distinct (sym (remove_ref-same c k ks same)) rest
  | inr other ↦
      subst Distinct (sym (remove_ref-other c k ks other))
        (λ at. fresh (In-remove_ref k c ks at), Distinct-remove_ref c ks rest)
]

pub remove_ref-out : (c : ℕ) (ks : List ℕ) → Distinct ks → In c (remove_ref c ks) → ⊥
unfolding remove_ref
remove_ref-out c [] h at = at
remove_ref-out c (k ∷ ks) (fresh, rest) at = elim (Bool-cases (k == c)) [
  | inl same ↦
      let e : k ≡ c = ground (arith, same) in
      fresh (subst (λ j. In j ks) (sym e) (subst (In c) (remove_ref-same c k ks same) at))
  | inr other ↦ elim (subst (In c) (remove_ref-other c k ks other) at) [
    | inl e ↦ ground (arith, other, e)
    | inr rest_at ↦ remove_ref-out c ks rest rest_at
  ]
]
