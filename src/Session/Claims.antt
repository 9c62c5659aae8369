-- ===== src/Session/Claims.antt =====
-- harness/session_state.py, _claim_pending_agent_spawn: the call that a spawned agent takes.
use dc_ness.Base.{
  ℕ, Text, text_eq, Bool, true, false, Option, none, some, [], ◌∷◌, if◌then◌else◌, ◌≡◌, refl, sym,
  ap, ◌∙◌, ◌⊎◌, inl, inr, arith, leb,
}
use dc_ness.Base.Dict.{Dict, put}
use dc_ness.Session.Records.{Pending}
use dc_ness.Session.Steps.{same_text}
use dc_ness.Session.Pending.{
  known, claimed, find_spawned, is_candidate, newer, newest_candidate, spawned_at, claim_newest,
  claim_unless, claim_pending,
}

claimed_injective : (x y : Pending) → claimed x ≡ claimed y → x ≡ y
claimed_injective x y h = ground arith

find_spawned-put :
    (id k : Text) (p : Pending) (pending : Dict Text Pending)
    → find_spawned id pending ≡ none
    → same_text p.agent_id (some id) ≡ true
    → find_spawned id (put k p pending) ≡ some p
unfolding find_spawned put
find_spawned-put id k p [] h e = rw e refl
find_spawned-put id k p ((j, q) ∷ pending) h e =
    ground (arith, find_spawned-put id k p pending, e, h)

-- A call that is found waits for the agent.
abbrev AllWaiting : Text → Option (Text × Pending) → Type 0
AllWaiting agent none = Unit
AllWaiting agent (some c) = is_candidate agent c.1 ≡ true

pick-AllWaiting :
    (agent : Text) (b : Bool) (x y : Option (Text × Pending))
    → AllWaiting agent x
    → AllWaiting agent y
    → AllWaiting agent (if b then x else y)
pick-AllWaiting agent true x y h k = h
pick-AllWaiting agent false x y h k = k

newer-AllWaiting :
    (agent : Text) (c : Text × Pending) (found : Option (Text × Pending))
    → is_candidate agent c.1 ≡ true
    → AllWaiting agent found
    → AllWaiting agent (newer c found)
newer-AllWaiting agent c none h k = h
newer-AllWaiting agent c (some d) h k =
    pick-AllWaiting agent (leb d.1.started_at c.1.started_at) (some c) (some d) h k

next-AllWaiting :
    (agent : Text) (b : Bool) (c : Text × Pending) (found : Option (Text × Pending))
    → is_candidate agent c.1 ≡ b
    → AllWaiting agent found
    → AllWaiting agent (if b then newer c found else found)
next-AllWaiting agent true c found h k = newer-AllWaiting agent c found h k
next-AllWaiting agent false c found h k = k

newest_candidate-AllWaiting :
    (agent : Text) (pending : Dict Text Pending) → AllWaiting agent (newest_candidate agent pending)
unfolding newest_candidate
newest_candidate-AllWaiting agent [] = tt
newest_candidate-AllWaiting agent ((j, q) ∷ pending) =
    next-AllWaiting agent (is_candidate agent q) (j, q) (newest_candidate agent pending) refl
      (newest_candidate-AllWaiting agent pending)

-- The call is among the calls of a run, under that key.
abbrev pub IsAmong : Text × Pending → Dict Text Pending → Type 0
IsAmong c [] = ⊥
IsAmong c (x ∷ xs) = (c ≡ x) ⊎ IsAmong c xs

-- A call that is found is one of those of the run.
abbrev AllAmong : Dict Text Pending → Option (Text × Pending) → Type 0
AllAmong pending none = Unit
AllAmong pending (some c) = IsAmong c pending

pick-AllAmong :
    (pending : Dict Text Pending) (b : Bool) (x y : Option (Text × Pending))
    → AllAmong pending x
    → AllAmong pending y
    → AllAmong pending (if b then x else y)
pick-AllAmong pending true x y h k = h
pick-AllAmong pending false x y h k = k

newer-AllAmong :
    (pending : Dict Text Pending) (c : Text × Pending) (found : Option (Text × Pending))
    → IsAmong c pending
    → AllAmong pending found
    → AllAmong pending (newer c found)
newer-AllAmong pending c none h k = h
newer-AllAmong pending c (some d) h k =
    pick-AllAmong pending (leb d.1.started_at c.1.started_at) (some c) (some d) h k

later-AllAmong :
    (c : Text × Pending) (pending : Dict Text Pending) (found : Option (Text × Pending))
    → AllAmong pending found
    → AllAmong (c ∷ pending) found
later-AllAmong c pending none h = tt
later-AllAmong c pending (some d) h = inr h

newest_candidate-AllAmong :
    (agent : Text) (pending : Dict Text Pending) → AllAmong pending (newest_candidate agent pending)
unfolding newest_candidate
newest_candidate-AllAmong agent [] = tt
newest_candidate-AllAmong agent ((j, q) ∷ pending) =
    let rest =
      later-AllAmong (j, q) pending (newest_candidate agent pending)
        (newest_candidate-AllAmong agent pending) in
    pick-AllAmong ((j, q) ∷ pending) (is_candidate agent q)
      (newer (j, q) (newest_candidate agent pending)) (newest_candidate agent pending)
      (newer-AllAmong ((j, q) ∷ pending) (j, q) (newest_candidate agent pending) (inl refl) rest)
      rest

-- What a claim gives: a call of the run that waited for the agent, which has the agent's identity
-- then and is written back under its key; and it is what the next claim with that identity gives.
abbrev pub IsClaimed :
    (agent id : Text)
    → (now later : ℕ) → (other : Text) → (p : Pending) → (pending after : Dict Text Pending)
    → Type 0
IsClaimed agent id now later other p pending after =
    ((k : Text) × (q : Pending) × IsAmong (k, q) pending
      × (is_candidate agent q ≡ true)
      × (p ≡ spawned_at q id now)
      × (after ≡ put k p pending))
    × (claim_pending later other id after ≡ (known p, after))

again :
    (now : ℕ) (agent id : Text) (p : Pending) (pending : Dict Text Pending)
    → find_spawned id pending ≡ some p
    → claim_pending now agent id pending ≡ (known p, pending)
unfolding claim_pending
again now agent id p pending h = ap (λ o. claim_unless now agent id o pending) h

claim_newest-IsClaimed :
    (agent id other : Text) (now later : ℕ) (found : Option (Text × Pending)) (p : Pending)
    (pending after : Dict Text Pending)
    → find_spawned id pending ≡ none
    → AllWaiting agent found
    → AllAmong pending found
    → claim_newest now id found pending ≡ (claimed p, after)
    → IsClaimed agent id now later other p pending after
claim_newest-IsClaimed agent id other now later none p pending after h w among e = ground arith
claim_newest-IsClaimed agent id other now later (some (k, q)) p pending after h w among e =
    let same : spawned_at q id now ≡ p = claimed_injective _ _ (ap (λ r. r.0) e) in
    let rest : put k (spawned_at q id now) pending ≡ after = ap (λ r. r.1) e in
    (
      (k, q, among, w, sym same, sym rest ∙ ap (λ x. put k x pending) same),
      again later other id p after (
          ap (find_spawned id) (sym rest)
          ∙ find_spawned-put id k (spawned_at q id now) pending h ((text_eq.same_iff id id).1 refl)
          ∙ ap some same),
    )

claim_unless-IsClaimed :
    (agent id other : Text) (now later : ℕ) (found : Option Pending) (p : Pending)
    (pending after : Dict Text Pending)
    → find_spawned id pending ≡ found
    → claim_unless now agent id found pending ≡ (claimed p, after)
    → IsClaimed agent id now later other p pending after
claim_unless-IsClaimed agent id other now later (some x) p pending after h e = ground arith
claim_unless-IsClaimed agent id other now later none p pending after h e =
    claim_newest-IsClaimed agent id other now later (newest_candidate agent pending) p pending after
      h (newest_candidate-AllWaiting agent pending) (newest_candidate-AllAmong agent pending) e

-- A spawned agent that takes a call takes one of the run's calls, which waited for an agent of its
-- name and which no other had taken, and the record with its identity takes the place of that call,
-- under the same key. The next claim with that identity, by whatever name and at whatever moment,
-- gives the same call and changes nothing.
pub claim_pending-IsClaimed :
    (now later : ℕ) (agent other id : Text) (p : Pending) (pending after : Dict Text Pending)
    → claim_pending now agent id pending ≡ (claimed p, after)
    → IsClaimed agent id now later other p pending after
unfolding claim_pending
claim_pending-IsClaimed now later agent other id p pending after e =
    claim_unless-IsClaimed agent id other now later _ p pending after refl e
