-- ===== src/ThreadInvariance/Kind/Lattice.antt =====
-- The laws of `meet` and `join`.
use Prim.Native.Nat.{min, max}
use vari_ocl.Base.{ℕ, ◌≡◌, ◌≢◌, arith, ◌↔◌, true}
use vari_ocl.ThreadInvariance.Kind.{
  InvarianceKind, unknown, maybe_non_invariant, non_invariant, invariant, meet, join, is_kind,
}

-- How much is known to be invariant: the order of the table above `meet`.
abbrev pub rank : InvarianceKind → ℕ
rank non_invariant = 0
rank maybe_non_invariant = 1
rank invariant = 2
rank unknown = 3

-- The order that the code of `join` follows. The table above it has kNonInvariant, and the code
-- kMaybeNonInvariant, for the two of them.
abbrev pub join_rank : InvarianceKind → ℕ
join_rank unknown = 0
join_rank non_invariant = 1
join_rank maybe_non_invariant = 2
join_rank invariant = 3

pub is_kind_iff : (a b : InvarianceKind) → (is_kind a b ≡ true) ↔ (a ≡ b)
is_kind_iff a b = ground arith

-- `meet` takes the lower kind in the order non-invariant, maybe non-invariant, invariant, unknown,
-- and `join` the higher in the order unknown, non-invariant, maybe non-invariant, invariant. So the
-- `join` of non-invariant and maybe non-invariant is maybe non-invariant, where the table above the
-- code of `join` has non-invariant; at the other kinds of the table the two agree.
pub meet-join_rank :
    (a b : InvarianceKind)
    → (rank (meet a b) ≡ min (rank a) (rank b))
      × (join_rank (join a b) ≡ max (join_rank a) (join_rank b))
unfolding meet join
meet-join_rank a b = (ground arith, ground arith)

pub meet_comm : (a b : InvarianceKind) → meet a b ≡ meet b a
unfolding meet
meet_comm a b = ground arith

pub meet_assoc : (a b c : InvarianceKind) → meet (meet a b) c ≡ meet a (meet b c)
unfolding meet
meet_assoc a b c = ground arith

pub meet_self : (a : InvarianceKind) → meet a a ≡ a
unfolding meet
meet_self a = ground arith

pub meet-unknown : (a : InvarianceKind) → meet unknown a ≡ a
unfolding meet
meet-unknown a = ground arith

-- The two absorb one another exactly where the absorbed kind is known.
pub absorption :
    (a b : InvarianceKind) → a ≢ unknown → (meet a (join a b) ≡ a) × (join a (meet a b) ≡ a)
unfolding meet join
absorption a b h = (ground arith, ground arith)

pub no_absorption : meet unknown (join unknown invariant) ≢ unknown
unfolding meet join
no_absorption e = cc
