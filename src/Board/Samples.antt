-- ===== src/Board/Samples.antt =====
-- The board on small inputs.
use dc_ness.Base.{String, string_eq, true, false, none, some, [], ◌∷◌, ◌≡◌, refl}
use dc_ness.Base.Dict.{lookup, put, delete}
use dc_ness.Board.Records.{
  Platform, Board, empty_board, ok, canonical_path, key_for_path, key_from_key_or_path, conflict,
  is_stale, identity_mismatch,
}
use dc_ness.Board.Operations.{
  Claimant, read_claim, register, is_registered, claim_if_registered, complete, release, reclaim,
  heartbeat, get_record, refusal, write_claim, archive_record, unlink_claim, is_completed,
  new_claim,
}
use dc_ness.Board.Machine.{IsHexDigest, Change, Step-Change, claim_step, reclaim_step, here, next}
use dc_ness.Board.Claims.{IsDone, Reach-IsDone, holder, IsKept, Step-IsKept}
use dc_ness.Board.Calls.{claim_key, IsRefused, claim_if_registered_once, perform, heartbeat_call}

-- One key for every path.
abbrev one_key : Platform
one_key = record {
  resolve = λ s. s;
  digest = λ s. "0123456789abcdef01234567";
  name = λ s. s;
  stem = λ s. s;
  pid = 7;
}

one_key-IsHexDigest : IsHexDigest one_key
one_key-IsHexDigest s = refl

abbrev alice : Claimant
alice = record { session_id = "a"; run_id = "1"; worktree = "wa"; branch = "ba" }

abbrev bob : Claimant
bob = record { session_id = "b"; run_id = "2"; worktree = "wb"; branch = "bb" }

abbrev path : String
path = "/repo/impl/01-core.md"

abbrev board : Board
board = (register one_key (path ∷ []) none 0 empty_board).0

abbrev held : Board
held = (claim_if_registered one_key path alice 1 7200 board).0

abbrev done : Board
done = (complete one_key path (some 12) none 2 held).0

program : Unit {0}
unfolding register is_registered claim_if_registered complete release reclaim heartbeat get_record
    refusal write_claim archive_record unlink_claim is_completed read_claim canonical_path
    key_for_path key_from_key_or_path is_stale lookup put delete perform
program = tt

registered_path : is_registered one_key path board ≡ true
unfolding program
registered_path = refl

free_path : lookup (claim_key one_key path) board.claims ≡ none
unfolding program
free_path = refl

alice_holds : holder "0123456789abcdef01234567" held ≡ some ("a", "1")
unfolding program
alice_holds = refl

done-IsDone : IsDone "0123456789abcdef01234567" done
unfolding program
done-IsDone = refl

Step-Change_example : Change (some ("a", "1")) board held
Step-Change_example =
    Step-Change one_key board held (some ("a", "1")) one_key-IsHexDigest
      (claim_step path alice 1 7200)

Reach-IsDone_example : IsDone "0123456789abcdef01234567" (reclaim one_key path "stuck" 9 done).0
Reach-IsDone_example =
    Reach-IsDone one_key "0123456789abcdef01234567" done (reclaim one_key path "stuck" 9 done).0
      one_key-IsHexDigest (next none here (reclaim_step path "stuck" 9)) done-IsDone

Step-IsKept_example :
    IsKept "0123456789abcdef01234567" "a" "1" held (reclaim one_key path "stuck" 9 held).0
Step-IsKept_example =
    Step-IsKept one_key "0123456789abcdef01234567" "a" "1" held
      (reclaim one_key path "stuck" 9 held).0 none one_key-IsHexDigest (reclaim_step path "stuck" 9)
      alice_holds

claim_if_registered_once_example :
    IsRefused one_key path bob 5 7200
      (new_claim one_key path alice 1)
      (claim_if_registered one_key path alice 1 7200 board).0
unfolding canonical_path
claim_if_registered_once_example =
    claim_if_registered_once one_key path alice bob 1 7200 5 7200 board registered_path free_path

still_registered : is_registered one_key (canonical_path one_key path) done ≡ true
unfolding program
still_registered = refl

bob_mismatch :
    (perform one_key (heartbeat_call path "b" "2" 5) held).1
    ≡ some (conflict identity_mismatch false (new_claim one_key path alice 1))
unfolding program
bob_mismatch = refl

plain_path : key_from_key_or_path one_key path ≡ key_for_path one_key path
unfolding program
plain_path = refl

readable : read_claim held (key_for_path one_key path) ≡ ok (new_claim one_key path alice 1)
unfolding program
readable = refl
