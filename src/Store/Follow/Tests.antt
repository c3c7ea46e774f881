-- ===== src/Store/Follow/Tests.antt =====
-- Follow progress at concrete inputs.
use datalens.Prelude.{ℕ, ◌≡◌, refl, none, some, List, [], ◌∷◌, ◌==◌}
use datalens.Core.Wire.{evm_logs}
use datalens.Store.Codec.{ok, err, invalid, ℤ, pos, negsuc, u64_to_i64}
use datalens.Store.Follow.{
  FollowKey, FollowProgress, follow_get_or_init, advance_follow_head, advance_follow_promoted,
  rewind_follow, delete_unwatched_follow, halt_follow, resume_follow,
}
use datalens.Store.Follow.Rows.{IsValid}
use datalens.Store.Follow.Marks.{rows_after}
use datalens.Store.Follow.Rewind.{
  Reach, OnwardFor, SparedAll, here, next, head_advanced, rewound_to, unwatched_deleted,
  rewound_rows, Reach-Onward, LandedRows, rewind_follow-LandedRows,
}

abbrev key : FollowKey
key = record { chain_id = 46; dataset = evm_logs; selector_id = 7 }

abbrev at_marks_from : ℕ → ℤ → ℕ → ℤ → ℤ → FollowProgress
at_marks_from from_block head hash promoted finalized = record {
  chain_id = 46;
  dataset = evm_logs;
  selector_id = 7;
  from_block = from_block;
  head_block = head;
  head_hash = hash;
  promoted_to = promoted;
  finalized_to = finalized;
}

abbrev at_marks : ℤ → ℕ → ℤ → ℤ → FollowProgress
at_marks = at_marks_from 0

abbrev rows : List FollowProgress
rows = at_marks (pos 20) 9 (pos 10) (pos 5) ∷ []

init_at_zero :
    rows_after [] (follow_get_or_init key 0 0 []) ≡ at_marks (negsuc 0) 0 (negsuc 0) (negsuc 0) ∷ []
unfolding follow_get_or_init u64_to_i64
init_at_zero = refl

promote_past_head : advance_follow_promoted key 21 rows ≡ err invalid
unfolding advance_follow_promoted u64_to_i64
promote_past_head = refl

head_back : advance_follow_head key 19 3 rows ≡ err invalid
unfolding advance_follow_head u64_to_i64
head_back = refl

-- A fork above the promoted block, and one below it.
rewind_hot : rewind_follow 46 15 3 rows ≡ ok (at_marks (pos 14) 3 (pos 10) (pos 5) ∷ [])
unfolding rewind_follow u64_to_i64
rewind_hot = refl

rewind_durable : rewind_follow 46 8 3 rows ≡ ok (at_marks (pos 10) 0 (pos 10) (pos 5) ∷ [])
unfolding rewind_follow u64_to_i64
rewind_durable = refl

-- The first reason of a halt is the one that the resumption returns.
halt_twice :
    (resume_follow
      (halt_follow 2 60 (halt_follow 1 50 (record { halted_at = none; reason = none })))).1
    ≡ some 1
unfolding resume_follow halt_follow
halt_twice = refl

abbrev forked : List FollowProgress
forked = rewound_rows rows (rewind_follow 46 8 3 rows)

rows-IsValid : IsValid rows
rows-IsValid = (record { starts = refl; finalized = refl; promoted = refl }, (tt, tt))

abbrev moved : List FollowProgress
moved = rows_after forked (advance_follow_head key 12 4 forked)

-- A rewind, a new head, and a deletion while the row's selector is watched.
abbrev reorged : Reach rows (delete_unwatched_follow 46 (λ row. row.selector_id == 7) moved)
reorged =
    next (next (next here (rewound_to rows 46 8 3)) (head_advanced forked key 12 4))
      (unwatched_deleted moved 46 (λ row. row.selector_id == 7))

-- A row that is not watched is gone, and its key starts again below its marks.
restarted :
    rows_after []
      (follow_get_or_init key 4 0 (delete_unwatched_follow 46 (λ row. row.selector_id == 8) rows))
    ≡ at_marks_from 4 (pos 3) 0 (pos 3) (pos 3) ∷ []
unfolding delete_unwatched_follow follow_get_or_init u64_to_i64
restarted = refl

Reach-Onward_example :
    OnwardFor rows
      (delete_unwatched_follow 46 (λ row. row.selector_id == 7) moved)
      (λ key'. SparedAll key' reorged)
Reach-Onward_example = Reach-Onward rows-IsValid reorged

rewind_follow-LandedRows_example : LandedRows 46 8 (rewind_follow 46 8 3 rows)
rewind_follow-LandedRows_example = rewind_follow-LandedRows rows 46 8 3
