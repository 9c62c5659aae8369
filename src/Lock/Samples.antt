-- ===== src/Lock/Samples.antt =====
-- The merge lock on small inputs.
use dc_ness.Base.{
  ◌-◌, String, string_eq, Text, text_beq, codes, true, false, none, some, List, [], ◌∷◌,
  if◌then◌else◌, ◌&&◌, leb, mem, ◌==◌, ◌≡◌, ◌↔◌, refl,
}
use dc_ness.Base.Dict.{lookup, put}
use dc_ness.Board.Records.{Platform, Claim, Board, empty_board, canonical_path, key_for_path}
use dc_ness.Board.Operations.{new_claim, read_claim, is_completed}
use dc_ness.Board.Status.{find_claim_by_branch}
use dc_ness.Lock.Records.{Lock, no_lock, LockRecord, ok, gone}
use dc_ness.Lock.Mutex.{new_record, holder, acquire, release, break_stale}
use dc_ness.Lock.History.{
  acquire_call, release_call, break_call, Call, took, gave, broke, perform, run, Mutual, run-Mutual,
}
use dc_ness.Lock.Handover.{released, release-acquire}
use dc_ness.Lock.Frontmatter.{Digits, extract_frontmatter, get_text, task_index_i, story_is_numeric}
use dc_ness.Lock.Order.{Tree, allow, order_context, all_completed, check_merge_order}
use dc_ness.Lock.Order.Siblings.{story_in, index_in, IsPrior}
use dc_ness.Lock.Order.Gate.{IsProven, check_merge_order-allowed}
use dc_ness.Lock.Guard.{
  Attempt, IsSound, acquire_peer_merge_guard, acquire_peer_merge_guard-IsSound, peer, granted,
}

program : Unit {0}
unfolding acquire release break_stale holder perform run put lookup mem extract_frontmatter get_text
    task_index_i story_is_numeric check_merge_order is_completed read_claim key_for_path
    canonical_path find_claim_by_branch acquire_peer_merge_guard text_beq
program = tt

abbrev calls : List Call
calls =
    acquire_call 1 "t1" "a" "ba" none 10
    ∷ acquire_call 2 "t2" "b" "bb" (some 7) 11
    ∷ release_call "t2" "released" "" 12
    ∷ release_call "t1" "released" "merged" 13
    ∷ acquire_call 2 "t3" "b" "bb" (some 7) 14
    ∷ break_call "c" 100 "" 15
    ∷ break_call "c" 100 "lost" 200
    ∷ []

-- The second session waits for the first, and its lock is broken only once it is old.
events :
    (run calls no_lock).1
    ≡ took (new_record 1 "t1" "a" "ba" none 10)
      ∷ gave "t1"
      ∷ took (new_record 2 "t3" "b" "bb" (some 7) 14)
      ∷ broke 100 200
      ∷ []
unfolding program
events = refl

run-Mutual_example : Mutual none (run calls no_lock).1 (run calls no_lock).0.lock_file
run-Mutual_example = run-Mutual calls no_lock

abbrev first_record : LockRecord
first_record = new_record 1 "t1" "a" "ba" none 10

abbrev held : Lock
held = record { lock_file = some (some first_record); archive = [] }

release-acquire_example :
    let after = release "t1" "merged" "" 20 held in
    let next = acquire 2 "t2" "b" "bb" (some 7) 21 after.0 in
    (after.1 ≡ ok (gone (released first_record "merged" "" 20)))
    × (lookup "t1" after.0.archive ≡ (
        if ◌==◌ {V = String} "t1" "t1"
        then some (released first_record "merged" "" 20)
        else lookup "t1" held.archive))
    × (next.0.lock_file ≡ some (some (new_record 2 "t2" "b" "bb" (some 7) 21)))
    × (next.1 ≡ ok (record { token = "t2"; lock_record = new_record 2 "t2" "b" "bb" (some 7) 21 }))
release-acquire_example =
    release-acquire held first_record refl "merged" "" "t1" 20 2 "t2" "b" "bb" (some 7) 21

abbrev by_path : Platform
by_path = record { resolve = λ s. s; digest = λ s. s; name = λ s. s; stem = λ s. s; pid = 7 }

abbrev ascii : Digits
ascii c = if leb b'0' c && leb c b'9' then some (c - b'0') else none

abbrev first_text : Text
first_text = codes "---\nstory: 1\ntask_index: 1/2\n---\n"

abbrev second_text : Text
second_text = codes "---\nstory: '1'\ntask_index: 2/2\n---\n# Task"

abbrev tree : Tree
tree = record {
  read = λ path. if path == "/i/01.md" then some first_text else some second_text;
  impls_beside = λ path. "/i/01.md" ∷ "/i/02.md" ∷ [];
}

abbrev second_claim : Claim
second_claim =
    new_claim by_path "/i/02.md"
      (record { session_id = "b"; run_id = "2"; worktree = "wb"; branch = "bb" }) 5

abbrev board : Board
board = record empty_board {
  claims =
      (
        "/i/01.md",
        some (record second_claim {
          key = "/i/01.md";
          canonical_impl_path = "/i/01.md";
          state = "completed";
          branch = "ba";
        }),
      )
      ∷ ("/i/02.md", some second_claim)
      ∷ [];
}

second_read : tree.read (canonical_path by_path "/i/02.md") ≡ some second_text
unfolding program
second_read = refl

second_numeric : story_is_numeric ascii (story_in second_text) ≡ true
unfolding program
second_numeric = refl

second_indexed : index_in ascii second_text ≡ some 2
unfolding program
second_indexed = refl

second_checked :
    check_merge_order by_path tree ascii board (λ path. false) "/i/02.md"
    ≡ some (allow order_context all_completed)
unfolding program
second_checked = refl

check_merge_order-allowed_example : (true ≡ true) ↔ (
    (path : String)
    → mem path ("/i/01.md" ∷ "/i/02.md" ∷ []) ≡ true
    → IsPrior by_path tree ascii (canonical_path by_path "/i/02.md") (story_in second_text) 2 path
    → IsProven by_path tree ascii board (λ p. false) path)
check_merge_order-allowed_example =
    check_merge_order-allowed by_path tree ascii board (λ p. false) "/i/02.md" second_text 2
      (allow order_context all_completed) second_read second_numeric second_indexed second_checked

abbrev attempt : Attempt
attempt = record { pid = 2; token = "t2"; owner = "b"; branch = "bb"; pr_number = some 7; now = 21 }

acquire_peer_merge_guard-IsSound_example :
    IsSound by_path tree ascii board
      (λ p. false)
      attempt
      no_lock
      (acquire_peer_merge_guard by_path tree ascii board (λ p. false) attempt no_lock)
acquire_peer_merge_guard-IsSound_example =
    acquire_peer_merge_guard-IsSound by_path tree ascii board (λ p. false) attempt no_lock

second_guarded :
    (acquire_peer_merge_guard by_path tree ascii board (λ p. false) attempt no_lock).1
    ≡ granted (record {
      mode = peer;
      token = "t2";
      claim_key = "/i/02.md";
      impl_path = "/i/02.md";
      order = allow order_context all_completed;
    })
unfolding program
second_guarded = refl
