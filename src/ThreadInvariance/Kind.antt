-- ===== src/ThreadInvariance/Kind.antt =====
-- InvarianceInfo::InvarianceKind, and `meet` and `join` of ThreadInvariance.cpp.
pub mod Lattice
use vari_ocl.Base.{Bool, true, false, ◌||◌, if◌then◌else◌}

pub data InvarianceKind : Type 0 where
  unknown maybe_non_invariant non_invariant invariant : InvarianceKind

-- `==` on the enumeration.
abbrev pub is_kind : InvarianceKind → InvarianceKind → Bool
is_kind unknown unknown = true
is_kind maybe_non_invariant maybe_non_invariant = true
is_kind non_invariant non_invariant = true
is_kind invariant invariant = true
is_kind _ _ = false

unfoldable pub meet : InvarianceKind → InvarianceKind → InvarianceKind
meet lhs rhs =
    if is_kind lhs non_invariant || is_kind rhs non_invariant
    then non_invariant
    else if is_kind lhs maybe_non_invariant || is_kind rhs maybe_non_invariant
    then maybe_non_invariant
    else if is_kind lhs invariant || is_kind rhs invariant
    then invariant
    else unknown

unfoldable pub join : InvarianceKind → InvarianceKind → InvarianceKind
join lhs rhs =
    if is_kind lhs invariant || is_kind rhs invariant
    then invariant
    else if is_kind lhs maybe_non_invariant || is_kind rhs maybe_non_invariant
    then maybe_non_invariant
    else if is_kind lhs non_invariant || is_kind rhs non_invariant
    then non_invariant
    else unknown
