-- ===== src/Coldness/Count.antt =====
-- How often a block stands in the queues.
use nvmfs.Prelude.{
  ℕ, zero, suc, ◌+◌, ◌≡◌, refl, ap, some, List, [], ◌∷◌, ◌++◌, get_elem?, set, arith, of_some,
  not_some,
}
use nvmfs.BlockPool.Count.{occurs, same, occurs-append}
use nvmfs.Coldness.{BlockColdnessManager}

abbrev pub held : ℕ → List (List ℕ) → ℕ
held b [] = 0
held b (xs ∷ heads) = occurs b xs + held b heads

-- In the queues of free and of busy blocks.
abbrev pub queued : BlockColdnessManager → ℕ → ℕ
queued c b = held b c.free_heads + held b c.busy_heads

held-set :
    (b : ℕ) (heads : List (List ℕ)) (i : ℕ) (old new : List ℕ)
    → get_elem? heads i ≡ some old
    → held b (set heads i new) + occurs b old ≡ held b heads + occurs b new
held-set b [] i old new e = absurd (not_some refl e)
held-set b (xs ∷ heads) zero old new e = omega (arith, ap (occurs b) (of_some e))
held-set b (xs ∷ heads) (suc i) old new e = omega (arith, held-set b heads i old new e)

-- A block that goes to the end of a queue.
pub held-add_tail :
    (b x : ℕ) (heads : List (List ℕ)) (i : ℕ) (old : List ℕ)
    → get_elem? heads i ≡ some old
    → held b (set heads i (old ++ (x ∷ []))) ≡ same b x + held b heads
held-add_tail b x heads i old e =
    omega (arith, held-set b heads i old (old ++ (x ∷ [])) e, occurs-append b old (x ∷ []))
