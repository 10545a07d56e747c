-- ===== src/Client/Locks/Ordered.antt =====
-- Threads that take the mutexes in the order of their ranks.
use final.Base.{
  ℕ, zero, suc, ◌+◌, ◌≤◌, ◌<◌, ◌≡◌, ◌≢◌, ◌⊎◌, refl, true, none, some, List, [], ◌∷◌, ◌++◌, length,
  All, Bool-cases, inl, inr, nat_eq, arith,
}
use final.Client.Locks.{
  Mutex, chain_mutex, mempool_mutex, orphan_mutex, rank, Action, lock, unlock, Thread, holds, taken,
  act, turn, run,
}

-- Every mutex that is held has a rank below `r`.
abbrev IsBelow : ℕ → List Mutex → Type 0
IsBelow r held = All (λ h. rank h < r) held

-- From the mutexes that it holds, a program takes each one above all that it then holds, and
-- releases all of them in the end.
abbrev pub Ascends : List Mutex → List Action → Type 0
Ascends held [] = held ≡ []
Ascends held (lock m ∷ todo) = IsBelow (rank m) held × Ascends (m ∷ held) todo
Ascends [] (unlock ∷ todo) = ⊥
Ascends (h ∷ held) (unlock ∷ todo) = Ascends held todo

abbrev pub IsOrdered : Thread → Type 0
IsOrdered t = Ascends t.held t.todo

abbrev pub IsFinished : Thread → Type 0
IsFinished t = (t.held ≡ []) × (t.todo ≡ [])

abbrev pub work : List Thread → ℕ
work [] = 0
work (t ∷ ts) = length t.todo + work ts

holds-IsBelow :
    (m : Mutex) (r : ℕ) (held : List Mutex) → IsBelow r held → holds m held ≡ true → rank m < r
unfolding holds
holds-IsBelow m r [] below e = cc e
holds-IsBelow m r (h ∷ held) (low, below) e = elim (Bool-cases (nat_eq (rank h) (rank m))) [
  | inl same ↦ ground (arith, low)
  | inr other ↦ holds-IsBelow m r held below (rw other at e)
]

-- A thread that is scheduled: it acts.
abbrev Acts : List Thread → Thread → Type 0
Acts all t = (t' : Thread) × (act all t ≡ some t') × IsOrdered t' × (length t'.todo < length t.todo)

-- Or it waits for a mutex above all that it holds.
abbrev Waits : List Thread → Thread → Type 0
Waits all t = (m : Mutex) × IsBelow (rank m) t.held × (taken m all ≡ true) × (act all t ≡ none)

scheduled :
    (all : List Thread) (held : List Mutex) (todo : List Action)
    → Ascends held todo
    → IsFinished (record { held = held; todo = todo })
      ⊎ Acts all (record { held = held; todo = todo })
      ⊎ Waits all (record { held = held; todo = todo })
unfolding act
scheduled all held [] o = inl (o, refl)
scheduled all held (lock m ∷ todo) (below, o) = elim (Bool-cases (taken m all)) [
  | inl blocked ↦ inr (inr (m, below, blocked, rw blocked refl))
  | inr free ↦ inr (inl (record { held = m ∷ held; todo = todo }, rw free refl, o, omega arith))
]
scheduled all [] (unlock ∷ todo) o = absurd o
scheduled all (h ∷ held) (unlock ∷ todo) o =
    inr (inl (record { held = held; todo = todo }, refl, o, omega arith))

act-finished : (all : List Thread) (t : Thread) → t.todo ≡ [] → act all t ≡ none
unfolding act
act-finished all t done = rw done refl

holds-nil : (m : Mutex) → holds m [] ≢ true
unfolding holds
holds-nil m e = cc e

-- The turn of the first thread, if it acts and if it does not.
pub turn-some :
    (all ts : List Thread) (t t' : Thread) → act all t ≡ some t' → turn all (t ∷ ts) 0 ≡ t' ∷ ts
unfolding turn
turn-some all ts t t' e = rw (e, turn) refl

pub turn-none :
    (all ts : List Thread) (t : Thread) → act all t ≡ none → turn all (t ∷ ts) 0 ≡ t ∷ ts
unfolding turn
turn-none all ts t e = rw (e, turn) refl

turn-IsOrdered : (all ts : List Thread) (i : ℕ) → All IsOrdered ts → All IsOrdered (turn all ts i)
unfolding turn
turn-IsOrdered all [] i o = tt
turn-IsOrdered all (t ∷ ts) zero (o, os) = elim (scheduled all t.held t.todo o) [
  | inl (empty, done) ↦ rw (turn-none all ts t (act-finished all t done)) (o, os)
  | inr (inl (t', e, o', less)) ↦ rw (turn-some all ts t t' e) (o', os)
  | inr (inr (m, below, blocked, stays)) ↦ rw (turn-none all ts t stays) (o, os)
]
turn-IsOrdered all (t ∷ ts) (suc i) (o, os) = (o, turn-IsOrdered all ts i os)

-- Some turn gets work done.
abbrev Moves : List Thread → List Thread → Type 0
Moves all ts = (i : ℕ) × (work (turn all ts i) < work ts)

Acts-Moves : (all ts : List Thread) (t : Thread) → Acts all t → Moves all (t ∷ ts)
unfolding turn
Acts-Moves all ts t (t', e, o, less) = (0, rw (turn-some all ts t t' e) (omega (arith, less)))

Moves-later : (all ts : List Thread) (t : Thread) → Moves all ts → Moves all (t ∷ ts)
unfolding turn
Moves-later all ts t (i, less) = (suc i, omega (arith, less))

-- The holder of a mutex gets work done, or it waits for a mutex of a higher rank.
holder :
    (all ts : List Thread) (m : Mutex)
    → All IsOrdered ts
    → taken m ts ≡ true
    → Moves all ts ⊎ ((n : Mutex) × (rank m < rank n) × (taken n all ≡ true))
unfolding taken
holder all [] m os e = cc e
holder all (t ∷ ts) m (o, os) e = elim (Bool-cases (holds m t.held)) [
  | inl holding ↦ elim (scheduled all t.held t.todo o) [
    | inl (empty, done) ↦ absurd (holds-nil m (rw empty at holding))
    | inr (inl acts) ↦ inl (Acts-Moves all ts t acts)
    | inr (inr (n, below, blocked, stays)) ↦
        inr (n, holds-IsBelow m (rank n) t.held below holding, blocked)
  ]
  | inr other ↦ elim (holder all ts m os (rw other at e)) [
    | inl moves ↦ inl (Moves-later all ts t moves)
    | inr waits ↦ inr waits
  ]
]

rank_le : (m : Mutex) → rank m ≤ 2
rank_le chain_mutex = omega arith
rank_le mempool_mutex = omega arith
rank_le orphan_mutex = omega arith

-- From holder to holder the rank grows, so one of them gets work done.
chase :
    (n : ℕ) (all : List Thread) (m : Mutex)
    → 2 < rank m + n
    → All IsOrdered all
    → taken m all ≡ true
    → Moves all all
chase zero all m high os e = absurd (omega (arith, high, rank_le m))
chase (suc n) all m high os e = elim (holder all all m os e) [
  | inl moves ↦ moves
  | inr (m', higher, e') ↦ chase n all m' (omega (arith, high, higher)) os e'
]

-- Each of the threads has finished, or one of them, or of all, gets work done.
survey :
    (all ts : List Thread)
    → All IsOrdered all
    → All IsOrdered ts
    → All IsFinished ts ⊎ Moves all ts ⊎ Moves all all
survey all [] o os = inl tt
survey all (t ∷ ts) o (here, os) = elim (scheduled all t.held t.todo here) [
  | inr (inl acts) ↦ inr (inl (Acts-Moves all ts t acts))
  | inr (inr (m, below, blocked, stays)) ↦ inr (inr (chase 3 all m (omega arith) o blocked))
  | inl done ↦ elim (survey all ts o os) [
    | inl rest ↦ inl (done, rest)
    | inr (inl moves) ↦ inr (inl (Moves-later all ts t moves))
    | inr (inr moves) ↦ inr (inr moves)
  ]
]

pub run-append : (is js : List ℕ) (ts : List Thread) → run (is ++ js) ts ≡ run js (run is ts)
unfolding run
run-append [] js ts = refl
run-append (i ∷ is) js ts = run-append is js (turn ts ts i)

pub run-IsOrdered : (is : List ℕ) (ts : List Thread) → All IsOrdered ts → All IsOrdered (run is ts)
unfolding run
run-IsOrdered [] ts o = o
run-IsOrdered (i ∷ is) ts o = run-IsOrdered is (turn ts ts i) (turn-IsOrdered ts ts i o)

pub finish :
    (n : ℕ) (ts : List Thread)
    → work ts < n
    → All IsOrdered ts
    → (is : List ℕ) × All IsFinished (run is ts)
unfolding run
finish zero ts less o = absurd (omega (arith, less))
finish (suc n) ts less o = elim (survey ts ts o o) [
  | inl done ↦ ([], done)
  | inr (inl (i, moves)) ↦
      let (is, done) =
        finish n (turn ts ts i) (omega (arith, less, moves)) (turn-IsOrdered ts ts i o) in
      (i ∷ is, done)
  | inr (inr (i, moves)) ↦
      let (is, done) =
        finish n (turn ts ts i) (omega (arith, less, moves)) (turn-IsOrdered ts ts i o) in
      (i ∷ is, done)
]
