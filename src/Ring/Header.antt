-- ===== src/Ring/Header.antt =====
-- The setters and getters of a ring header.
use memif.Prelude.{ℕ, ◌%◌, ◌^◌, ◌≡◌, arith, length, inl, inr}
use memif.Bytes.Endian.{read_le-write_le_16, read_le-write_le_32, read_le-write_le_apart}
use memif.Types.{Ring}
use memif.Ring.{
  ring_size, get_cookie, get_flags, get_head, get_tail, set_cookie, set_flags, set_head, set_tail,
}

-- What the four getters read.
pub record Header : Type 0 where
  pub cookie_word : ℕ
  pub flags : ℕ
  pub head : ℕ
  pub tail : ℕ

unfoldable pub header : Ring → Header
header r = record {
  cookie_word = get_cookie r;
  flags = get_flags r;
  head = get_head r;
  tail = get_tail r;
}

-- Each setter, followed by the four getters of a full header: the field that is set reads as the
-- value cut to its width (32 bits for the cookie, 16 for the others), the others as before.
pub set-header :
    (val : ℕ) (r : Ring)
    → length r.rb ≡ ring_size
    → (header (set_cookie val r) ≡ record (header r) { cookie_word = val % 2 ^ 32 })
      × (header (set_flags val r) ≡ record (header r) { flags = val % 2 ^ 16 })
      × (header (set_head val r) ≡ record (header r) { head = val % 2 ^ 16 })
      × (header (set_tail val r) ≡ record (header r) { tail = val % 2 ^ 16 })
unfolding header get_cookie get_flags get_head get_tail set_cookie set_flags set_head set_tail
set-header val r h = (
  λ i. record {
    cookie_word = read_le-write_le_32 0 val r.rb (omega arith) i;
    flags = read_le-write_le_apart 4 0 val r.rb 2 4 (inr (omega arith)) i;
    head = read_le-write_le_apart 4 0 val r.rb 2 6 (inr (omega arith)) i;
    tail = read_le-write_le_apart 4 0 val r.rb 2 64 (inr (omega arith)) i;
  },
  λ i. record {
    cookie_word = read_le-write_le_apart 2 4 val r.rb 4 0 (inl (omega arith)) i;
    flags = read_le-write_le_16 4 val r.rb (omega arith) i;
    head = read_le-write_le_apart 2 4 val r.rb 2 6 (inr (omega arith)) i;
    tail = read_le-write_le_apart 2 4 val r.rb 2 64 (inr (omega arith)) i;
  },
  λ i. record {
    cookie_word = read_le-write_le_apart 2 6 val r.rb 4 0 (inl (omega arith)) i;
    flags = read_le-write_le_apart 2 6 val r.rb 2 4 (inl (omega arith)) i;
    head = read_le-write_le_16 6 val r.rb (omega arith) i;
    tail = read_le-write_le_apart 2 6 val r.rb 2 64 (inr (omega arith)) i;
  },
  λ i. record {
    cookie_word = read_le-write_le_apart 2 64 val r.rb 4 0 (inl (omega arith)) i;
    flags = read_le-write_le_apart 2 64 val r.rb 2 4 (inl (omega arith)) i;
    head = read_le-write_le_apart 2 64 val r.rb 2 6 (inl (omega arith)) i;
    tail = read_le-write_le_16 64 val r.rb (omega arith) i;
  },
)
