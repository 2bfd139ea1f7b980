-- ===== src/Checkpoints/Numbering.antt =====
-- The numbers of checkpoints (services/api/src/tkp_api/services/agent_checkpoint.py).
use tkp_platform.Base.{
  ℕ, suc, ◌<◌, ◌≤◌, ◌≡◌, refl, sym, ap, ◌∙◌, subst, inl, inr, Bool, true, false, ◌&&◌, Option, none,
  some, List, [], ◌∷◌, ◌++◌, ◌==◌, leb, if◌then◌else◌, All, filter, arith, Bool-cases, ==_refl,
}
use tkp_platform.Base.TableLaws.{filter-append}
use tkp_platform.Checkpoints.Service.{
  AgentCheckpoint, AgentDb, later_of, last_of, of_run, next_seq, wanted, create_checkpoint,
  get_latest_checkpoint,
}

leb→≤ : (a b : ℕ) → leb a b ≡ true → a ≤ b
leb→≤ a b h = ground (arith, h)

leb-false : (a b : ℕ) → leb a b ≡ false → b < suc a
leb-false a b h = ground (arith, h)

-- A checkpoint with a smaller number.
abbrev Below : ℕ → AgentCheckpoint → Type 0
Below n c = c.checkpoint_seq < n

All-weaken :
    (m n : ℕ) (cs : List AgentCheckpoint)
    → ((k : ℕ) → k < m → k < n)
    → All (Below m) cs
    → All (Below n) cs
All-weaken m n [] h all = tt
All-weaken m n (c ∷ cs) h all = (h c.checkpoint_seq all.0, All-weaken m n cs h all.1)

later-Below :
    (c : AgentCheckpoint) (cs : List AgentCheckpoint) (last : Option AgentCheckpoint)
    → All (Below (next_seq last)) cs
    → All (Below (suc (later_of c last).checkpoint_seq)) (c ∷ cs)
later-Below c cs none below =
    (omega arith, All-weaken 0 (suc c.checkpoint_seq) cs (λ k h. omega (arith, h)) below)
later-Below c cs (some d) below =
    let chosen = λ (b : Bool). if b then c else d in
    let above = λ (x : AgentCheckpoint). All (Below (suc x.checkpoint_seq)) (c ∷ cs) in
    elim (Bool-cases (leb d.checkpoint_seq c.checkpoint_seq)) [
      | inl t ↦
          let le = leb→≤ d.checkpoint_seq c.checkpoint_seq t in
          subst above (sym (ap chosen t)) (
            omega arith,
            All-weaken (suc d.checkpoint_seq) (suc c.checkpoint_seq) cs
                (λ k h. omega (arith, h, le)) below,
          )
      | inr f ↦
          subst above (sym (ap chosen f)) (leb-false d.checkpoint_seq c.checkpoint_seq f, below)
    ]

-- The next number is above all of them.
next-Below : (cs : List AgentCheckpoint) → All (Below (next_seq (last_of cs))) cs
unfolding last_of
next-Below [] = tt
next-Below (c ∷ cs) = later-Below c cs (last_of cs) (next-Below cs)

All-filter :
    (n run : ℕ) (only : Bool) (cs : List AgentCheckpoint)
    → All (Below n) (filter (of_run run) cs)
    → All (Below n) (filter (wanted run only) cs)
All-filter n run only [] all = tt
All-filter n run only (c ∷ cs) all = elim (Bool-cases (of_run run c)) [
  | inr f ↦ rw f (All-filter n run only cs (rw f at all))
  | inl t ↦
      let both = rw t at all in
      elim (Bool-cases (wanted run only c)) [
        | inl w ↦ rw w (both.0, All-filter n run only cs both.1)
        | inr w ↦ rw w (All-filter n run only cs both.1)
      ]
]

last-append :
    (c : AgentCheckpoint) (cs : List AgentCheckpoint)
    → All (Below c.checkpoint_seq) cs
    → last_of (cs ++ c ∷ []) ≡ some c
unfolding last_of
last-append c [] all = refl
last-append c (d ∷ cs) all =
    let less = all.0 in
    let later : leb c.checkpoint_seq d.checkpoint_seq ≡ false = ground (arith, less) in
    rw (last-append c cs all.1, later) refl

own_run :
    (n : ℕ) (only b : Bool)
    → (only ≡ true → b ≡ true)
    → (n == n && (if only then b else true)) ≡ true
own_run n true b h = rw (h refl, ==_refl n) refl
own_run n false b h = rw (==_refl n) refl

-- What holds of the rows of a run holds, of all rows, under the condition that they are of the run.
All-of_run :
    (n run : ℕ) (cs : List AgentCheckpoint)
    → All (Below n) (filter (of_run run) cs)
    → All (λ (c : AgentCheckpoint). c.agent_run_id ≡ run → c.checkpoint_seq < n) cs
All-of_run n run [] all = tt
All-of_run n run (c ∷ cs) all = elim (Bool-cases (of_run run c)) [
  | inr f ↦ (λ e. ground arith, All-of_run n run cs (rw f at all))
  | inl t ↦ let both = rw t at all in (λ e. both.0, All-of_run n run cs both.1)
]

-- The checkpoint that was created last is the latest of its run, also among the recoverable ones if it is one
-- of them. It is the one row that the creation adds, and its number is above those of all checkpoints that the
-- run had.
pub create_then_latest :
    (request : AgentCheckpoint) (only : Bool) (db : AgentDb)
    → (only ≡ true → request.recoverable ≡ true)
    → let new = (create_checkpoint request db).0 in
      (get_latest_checkpoint request.agent_run_id only ((create_checkpoint request db).1)
        ≡ some new)
      × (((create_checkpoint request db).1).checkpoints ≡ db.checkpoints ++ new ∷ [])
      × All
          (λ (c : AgentCheckpoint).
            c.agent_run_id ≡ request.agent_run_id → c.checkpoint_seq < new.checkpoint_seq)
          db.checkpoints
unfolding create_checkpoint get_latest_checkpoint
create_then_latest request only db r =
    let run = request.agent_run_id in
    let seq = next_seq (last_of (filter (of_run run) db.checkpoints)) in
    let new : AgentCheckpoint = record request { checkpoint_seq = seq } in
    let hit : wanted run only new ≡ true = own_run run only request.recoverable r in
    let below = next-Below (filter (of_run run) db.checkpoints) in
    (
      ap last_of (
            filter-append (wanted run only) db.checkpoints (new ∷ [])
            ∙ ap (λ l. filter (wanted run only) db.checkpoints ++ l) (rw hit refl))
          ∙ last-append new (filter (wanted run only) db.checkpoints)
              (All-filter seq run only db.checkpoints below),
      refl,
      All-of_run seq run db.checkpoints below,
    )
