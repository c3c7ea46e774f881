-- ===== src/Core/Finality.antt =====
-- crates/core/src/finality.rs.
use datalens.Prelude.{ℕ, ◌≡◌, refl, Option, none, some, arith, ◌==◌, if◌then◌else◌, leb, Bool}

-- From weakest to strongest.
pub data Finality : Type 0 where
  unsafe safe finalized : Finality

abbrev pub as_i16 : Finality → ℕ
as_i16 unsafe = 1
as_i16 safe = 2
as_i16 finalized = 3

pub from_i16 : ℕ → Option Finality
from_i16 value =
    if value == 1
    then some unsafe
    else if value == 2
    then some safe
    else if value == 3
    then some finalized
    else none

-- The derived order: a variant's place.
abbrev pub at_least : Finality → Finality → Bool
at_least a b = leb (as_i16 b) (as_i16 a)

-- `Ord::max`, which returns its second argument on equal ones.
abbrev pub stronger : Finality → Finality → Finality
stronger a b = if leb (as_i16 a) (as_i16 b) then b else a

pub data QueryFinality : Type 0 where
  durable_only safe_to_latest latest_only : QueryFinality

-- The stored number is read back as the finality it was written for, and no other number is read.
pub from_i16-eq-some : (n : ℕ) (f : Finality) → from_i16 n ≡ some f → n ≡ as_i16 f
unfolding from_i16
from_i16-eq-some n unsafe h = ground arith
from_i16-eq-some n safe h = ground arith
from_i16-eq-some n finalized h = ground arith

pub as_i16_inj : (f g : Finality) → as_i16 f ≡ as_i16 g → f ≡ g
as_i16_inj f g h = ground arith

pub from_i16-as_i16 : (f : Finality) → from_i16 (as_i16 f) ≡ some f
unfolding from_i16
from_i16-as_i16 unsafe = refl
from_i16-as_i16 safe = refl
from_i16-as_i16 finalized = refl
