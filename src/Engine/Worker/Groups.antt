-- ===== src/Engine/Worker/Groups.antt =====
-- The gaps and groups of crates/engine/src/worker.rs lose no member.
use datalens.Prelude.{
  ℕ, ◌≡◌, ◌∙◌, refl, Bool, true, ◌&&◌, ◌||◌, some, List, [], ◌∷◌, ◌++◌, any, any-append, ◌==◌,
  arith,
}
use datalens.Core.Range.{BlockRange, contains}
use datalens.Core.Range.Lists.{holds}
use datalens.Engine.Plan.{uncovered}
use datalens.Engine.Worker.{
  Member, Gaps, Task, ranges_eq, add_gaps, gaps_from, groups_from, batch_groups, tasks_of_group,
  tasks_of_groups, tasks_of,
}

abbrev pub has_member : ℕ → List Member → Bool
has_member id members = any (λ m. m.id == id) members

-- Whether the gaps say that the member lacks the block.
abbrev pub lacks : ℕ → ℕ → List Gaps → Bool
lacks id b gaps = any (λ g. has_member id g.members && holds g.missing b) gaps

-- Whether some call asks for the block for the member.
abbrev pub asks : ℕ → ℕ → List Task → Bool
asks id b tasks = any (λ t. has_member id t.group && contains t.gap b) tasks

ranges_eq-holds :
    (rs ss : List BlockRange) (b : ℕ) → ranges_eq rs ss ≡ true → holds rs b ≡ holds ss b
unfolding contains
ranges_eq-holds [] [] b e = refl
ranges_eq-holds [] (s ∷ ss) b e = cc
ranges_eq-holds (r ∷ rs) [] b e = cc
ranges_eq-holds (r ∷ rs) (s ∷ ss) b e = ground (arith, ranges_eq-holds rs ss b, e)

lacks-add_gaps :
    (id b : ℕ) (missing : List BlockRange) (m : Member) (gaps : List Gaps)
    → lacks id b (add_gaps missing m gaps) ≡ (lacks id b gaps || (m.id == id && holds missing b))
unfolding add_gaps
lacks-add_gaps id b missing m [] = ground arith
lacks-add_gaps id b missing m (g ∷ gaps) = ground (
  arith,
  lacks-add_gaps id b missing m gaps,
  ranges_eq-holds g.missing missing b,
  any-append (λ m. m.id == id) g.members (m ∷ []),
)

-- Whether a member of the list lacks the block.
abbrev pub lacking : BlockRange → ℕ → ℕ → List Member → Bool
lacking blocks id b members = any (λ m. m.id == id && holds (uncovered blocks m.covered) b) members

pub lacks-gaps_from :
    (blocks : BlockRange) (id b : ℕ) (gaps : List Gaps) (members : List Member)
    → lacks id b (gaps_from blocks gaps members) ≡ (lacks id b gaps || lacking blocks id b members)
unfolding gaps_from
lacks-gaps_from blocks id b gaps [] = ground arith
lacks-gaps_from blocks id b gaps (m ∷ members) =
    go (uncovered blocks m.covered) refl (lacks-gaps_from blocks id b gaps members)
      (lacks-gaps_from blocks id b (add_gaps (uncovered blocks m.covered) m gaps) members)
  where
    go :
        (missing : List BlockRange)
        → uncovered blocks m.covered ≡ missing
        → lacks id b (gaps_from blocks gaps members)
          ≡ (lacks id b gaps || lacking blocks id b members)
        → lacks id b (gaps_from blocks (add_gaps (uncovered blocks m.covered) m gaps) members) ≡ (
            lacks id b (add_gaps (uncovered blocks m.covered) m gaps)
            || lacking blocks id b members)
        → lacks id b (elim missing as (λ x. List Gaps) [
          | [] ↦ gaps_from blocks gaps members
          | r ∷ rs ↦ gaps_from blocks (add_gaps (uncovered blocks m.covered) m gaps) members
        ])
          ≡ (lacks id b gaps || (m.id == id && holds missing b || lacking blocks id b members))
    go [] e h g = ground (arith, h)
    go (r ∷ rs) e h g = g ∙ (rw (e, lacks-add_gaps id b (r ∷ rs) m gaps) ground arith)

has_member-groups_from :
    (max_addresses id : ℕ) (group : List Member) (members : List Member)
    → any (has_member id) (groups_from max_addresses (some group) members)
      ≡ (has_member id group || has_member id members)
unfolding groups_from
has_member-groups_from max_addresses id group [] = ground arith
has_member-groups_from max_addresses id group (m ∷ members) = ground (
  arith,
  has_member-groups_from max_addresses id (group ++ m ∷ []) members,
  has_member-groups_from max_addresses id (m ∷ []) members,
  any-append (λ m. m.id == id) group (m ∷ []),
)

has_member-batch_groups :
    (max_addresses id : ℕ) (members : List Member)
    → any (has_member id) (batch_groups members max_addresses) ≡ has_member id members
unfolding batch_groups groups_from
has_member-batch_groups max_addresses id [] = refl
has_member-batch_groups max_addresses id (m ∷ members) =
    ground (arith, has_member-groups_from max_addresses id (m ∷ []) members)

asks-tasks_of_group :
    (id b : ℕ) (group : List Member) (missing : List BlockRange)
    → asks id b (tasks_of_group group missing) ≡ (has_member id group && holds missing b)
asks-tasks_of_group id b group [] = ground arith
asks-tasks_of_group id b group (r ∷ missing) =
    ground (arith, asks-tasks_of_group id b group missing)

asks-tasks_of_groups :
    (id b : ℕ) (groups : List (List Member)) (missing : List BlockRange)
    → asks id b (tasks_of_groups groups missing) ≡ (any (has_member id) groups && holds missing b)
asks-tasks_of_groups id b [] missing = refl
asks-tasks_of_groups id b (group ∷ groups) missing = ground (
  arith,
  asks-tasks_of_groups id b groups missing,
  asks-tasks_of_group id b group missing,
  any-append (λ t. has_member id t.group && contains t.gap b) (tasks_of_group group missing)
      (tasks_of_groups groups missing),
)

-- The calls ask for exactly what the members lack.
pub asks-tasks_of :
    (max_addresses id b : ℕ) (gaps : List Gaps)
    → asks id b (tasks_of max_addresses gaps) ≡ lacks id b gaps
unfolding tasks_of
asks-tasks_of max_addresses id b [] = refl
asks-tasks_of max_addresses id b (g ∷ gaps) = ground (
  arith,
  asks-tasks_of max_addresses id b gaps,
  asks-tasks_of_groups id b (batch_groups g.members max_addresses) g.missing,
  has_member-batch_groups max_addresses id g.members,
  any-append (λ t. has_member id t.group && contains t.gap b)
      (tasks_of_groups (batch_groups g.members max_addresses) g.missing)
      (tasks_of max_addresses gaps),
)
