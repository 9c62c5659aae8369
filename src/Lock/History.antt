-- ===== src/Lock/History.antt =====
-- harness/merge_lock.py as a mutex: what a sequence of calls, by any sessions, gives and takes, each
-- call one step.
use dc_ness.Base.{
  ℕ, String, string_eq, Option, none, some, List, [], ◌∷◌, ◌==◌, ◌≡◌, ◌<◌, ◌+◌, ◌++◌, refl, subst,
  sym, true, arith, eq_iff, Bool-cases, inl, inr,
}
use dc_ness.Base.Dict.{Dict}
use dc_ness.Lock.Records.{LockRecord, Lock, Result, ok, err, Token, Outcome, missing, gone}
use dc_ness.Lock.Mutex.{acquire, release, break_stale, is_stale}

-- A call of the lock with its arguments.
pub data Call : Type 0 where
  acquire_call : (pid : ℕ) (token owner branch : String) (pr_number : Option ℕ) (now : ℕ) → Call
  release_call : (token state reason : String) (now : ℕ) → Call
  break_call : (owner : String) (stale_after_seconds : ℕ) (reason : String) (now : ℕ) → Call

-- What a successful call did: it took the lock, gave it back with a token, or broke it.
pub data Event : Type 0 where
  took : LockRecord → Event
  gave : (token : String) → Event
  broke : (stale_after_seconds now : ℕ) → Event

abbrev pub taking : Result Token → List Event
taking (ok t) = took t.lock_record ∷ []
taking (err e) = []

abbrev pub leaving : Event → Result Outcome → List Event
leaving e (ok (gone r)) = e ∷ []
leaving e (ok missing) = []
leaving e (err x) = []

unfoldable pub perform : Call → Lock → Lock × List Event
perform (acquire_call pid token owner branch pr_number now) l =
    let (l', result) = acquire pid token owner branch pr_number now l in (l', taking result)
perform (release_call token state reason now) l =
    let (l', result) = release token state reason now l in (l', leaving (gave token) result)
perform (break_call owner stale_after_seconds reason now) l =
    let (l', result) = break_stale owner stale_after_seconds reason now l in
    (l', leaving (broke stale_after_seconds now) result)

-- One call after the other: the lock that is left, and the events in their order.
unfoldable pub run : List Call → Lock → Lock × List Event
run [] l = (l, [])
run (c ∷ cs) l = let (l', es) = perform c l in let (l'', rest) = run cs l' in (l'', es ++ rest)

-- What an event may do to the lock file: the lock is taken only where there is none, given back
-- only with its token, and broken only once it is older than the caller's limit.
abbrev pub After : Option (Option LockRecord) → Event → Option (Option LockRecord) → Type 0
After h (took r) h' = (h ≡ none) × (h' ≡ some (some r))
After h (gave token) h' = (r : LockRecord) × (h ≡ some (some r)) × (r.token ≡ token) × (h' ≡ none)
After h (broke limit now) h' =
    (r : LockRecord) × (acquired : ℕ) × (h ≡ some (some r))
    × (r.acquired_at ≡ some acquired)
    × (acquired + limit < now)
    × (h' ≡ none)

-- A history of a mutex, from what is held at its beginning to what is held at its end.
abbrev pub Mutual : Option (Option LockRecord) → List Event → Option (Option LockRecord) → Type 0
Mutual h [] h' = h ≡ h'
Mutual h (e ∷ es) h' = (m : Option (Option LockRecord)) × After h e m × Mutual m es h'

Mutual-append :
    (h m h' : Option (Option LockRecord)) (es fs : List Event)
    → Mutual h es m
    → Mutual m fs h'
    → Mutual h (es ++ fs) h'
Mutual-append h m h' [] fs p q = subst (λ x. Mutual x fs h') (sym p) q
Mutual-append h m h' (e ∷ es) fs (k, a, p) q = (k, a, Mutual-append k m h' es fs p q)

acquire-Mutual :
    (pid : ℕ) (token owner branch : String) (pr_number : Option ℕ) (now : ℕ)
    (file : Option (Option LockRecord)) (archive : Dict String LockRecord)
    → let l : Lock = record { lock_file = file; archive = archive } in
      let c = acquire_call pid token owner branch pr_number now in
      Mutual file (perform c l).1 (perform c l).0.lock_file
unfolding perform acquire
acquire-Mutual pid token owner branch pr_number now none archive = (_, (refl, refl), refl)
acquire-Mutual pid token owner branch pr_number now (some r) archive = refl

release-Mutual :
    (token state reason : String) (now : ℕ) (file : Option (Option LockRecord))
    (archive : Dict String LockRecord)
    → let l : Lock = record { lock_file = file; archive = archive } in
      let c = release_call token state reason now in
      Mutual file (perform c l).1 (perform c l).0.lock_file
unfolding perform release
release-Mutual token state reason now none archive = refl
release-Mutual token state reason now (some none) archive = refl
release-Mutual token state reason now (some (some r)) archive =
    elim (Bool-cases (r.token == token)) [
      | inl same ↦ rw same (_, (r, refl, (eq_iff r.token token).0 same, refl), refl)
      | inr other ↦ rw other refl
    ]

is_stale-lt :
    (r : LockRecord) (limit now : ℕ)
    → is_stale r limit now ≡ true
    → (acquired : ℕ) × (r.acquired_at ≡ some acquired) × (acquired + limit < now)
unfolding is_stale
is_stale-lt r limit now h = go r.acquired_at refl
  where
    go :
        (a : Option ℕ)
        → r.acquired_at ≡ a
        → (acquired : ℕ) × (r.acquired_at ≡ some acquired) × (acquired + limit < now)
    go none e = ground (arith, h, e)
    go (some a) e = (a, e, ground (arith, h, e))

break-Mutual :
    (owner : String) (limit : ℕ) (reason : String) (now : ℕ) (file : Option (Option LockRecord))
    (archive : Dict String LockRecord)
    → let l : Lock = record { lock_file = file; archive = archive } in
      let c = break_call owner limit reason now in
      Mutual file (perform c l).1 (perform c l).0.lock_file
unfolding perform break_stale
break-Mutual owner limit reason now none archive = refl
break-Mutual owner limit reason now (some none) archive = refl
break-Mutual owner limit reason now (some (some r)) archive =
    elim (Bool-cases (is_stale r limit now)) [
      | inl stale ↦
          let (acquired, e, lt) = is_stale-lt r limit now stale in
          rw stale (_, (r, acquired, refl, e, lt, refl), refl)
      | inr fresh ↦ rw fresh refl
    ]

perform-Mutual :
    (c : Call) (l : Lock) → Mutual l.lock_file (perform c l).1 (perform c l).0.lock_file
perform-Mutual (acquire_call pid token owner branch pr_number now) l =
    acquire-Mutual pid token owner branch pr_number now l.lock_file l.archive
perform-Mutual (release_call token state reason now) l =
    release-Mutual token state reason now l.lock_file l.archive
perform-Mutual (break_call owner limit reason now) l =
    break-Mutual owner limit reason now l.lock_file l.archive

-- Where each call is one step, as it is in the model, and whatever calls are made, by whatever
-- sessions and in whatever order, the lock is a mutex: it is taken only where there is no lock file,
-- given back only with the token of the record that took it, and broken only once that record is
-- older than the limit that the caller gives; no other call changes the lock file.
pub run-Mutual :
    (calls : List Call) (l : Lock) → Mutual l.lock_file (run calls l).1 (run calls l).0.lock_file
unfolding run
run-Mutual [] l = refl
run-Mutual (c ∷ cs) l =
    Mutual-append l.lock_file (perform c l).0.lock_file _ (perform c l).1 _ (perform-Mutual c l)
      (run-Mutual cs (perform c l).0)
