-- ===== src/MapTable/Lock/Sequence.antt =====
-- The lock of a block as a sequence counter.
use nvmfs.Prelude.{
  ℕ, suc, ◌+◌, ◌%◌, ◌^◌, ◌≡◌, ◌≢◌, sym, ap, ◌∙◌, inl, inr, ◌>>=◌, true, not, some, Option, of_some,
  not_some, Option-cases, Bool-cases, get_elem?, set, get_elem?-set_self, get_elem?-lt, ◌==◌, arith,
}
use nvmfs.MapTable.{BlockEntry, MapTable, index_of_block, with_entry}
use nvmfs.MapTable.Lock.{
  is_odd, next_lock, when_free, block_lock_of, block_read_lock, block_read_unlock, block_write_lock,
  block_write_unlock,
}

-- `n` calls of writers of the block of `addr`, each a locking or an unlocking.
pub data Writes (addr : ℕ) : ℕ → MapTable → MapTable → Type 0 where
  done : {t : MapTable} → Writes addr 0 t t
  locking :
      {n : ℕ} {t t1 t2 : MapTable}
      → block_write_lock t addr ≡ some t1
      → Writes addr n t1 t2
      → Writes addr (suc n) t t2
  unlocking :
      {n : ℕ} {t t1 t2 : MapTable}
      → block_write_unlock t addr ≡ some t1
      → Writes addr n t1 t2
      → Writes addr (suc n) t t2

with_entry-lock :
    (t : MapTable) (addr : ℕ) (f : BlockEntry → Option BlockEntry) {t1 : MapTable}
    → ((e e' : BlockEntry) → f e ≡ some e' → e'.lock ≡ next_lock e.lock)
    → with_entry t (index_of_block addr) f ≡ some t1
    → (lock : ℕ) × (block_lock_of t addr ≡ some lock)
      × (block_lock_of t1 addr ≡ some (next_lock lock))
unfolding with_entry block_lock_of
with_entry-lock t addr f {t1 = t1} next h =
    elim (Option-cases (get_elem? t.entries (index_of_block addr))) [
      | inl g ↦ absurd (not_some (rw g) h)
      | inr (e, g) ↦ elim (Option-cases (f e)) [
        | inl k ↦ absurd (not_some (rw (g, k)) h)
        | inr (e', k) ↦
            let made : t1 ≡ record t { entries = set t.entries (index_of_block addr) e' } =
              of_some (sym h ∙ rw (g, k)) in
            (
              e.lock,
              rw g,
              rw (
                made,
                get_elem?-set_self t.entries (index_of_block addr) e'
                    (get_elem?-lt t.entries (index_of_block addr) g),
                next e e' k,
              ),
            )
      ]
    ]

block_write_lock-lock :
    (t : MapTable) (addr : ℕ) {t1 : MapTable}
    → block_write_lock t addr ≡ some t1
    → (lock : ℕ) × (block_lock_of t addr ≡ some lock)
      × (block_lock_of t1 addr ≡ some (next_lock lock))
unfolding block_write_lock
block_write_lock-lock t addr h =
    with_entry-lock t addr
      (λ e. when_free e.lock >>= λ lock. some (record e { lock = next_lock lock })) next h
  where
    next :
        (e e' : BlockEntry)
        → (when_free e.lock >>= λ lock. some (record e { lock = next_lock lock })) ≡ some e'
        → e'.lock ≡ next_lock e.lock
    next e e' h = elim (Bool-cases (is_odd e.lock)) [
      | inl o ↦ absurd (not_some (rw o) h)
      | inr o ↦
          let made : e' ≡ record e { lock = next_lock e.lock } = of_some (sym h ∙ rw o) in
          ap (λ z. z.lock) made
    ]

block_write_unlock-lock :
    (t : MapTable) (addr : ℕ) {t1 : MapTable}
    → block_write_unlock t addr ≡ some t1
    → (lock : ℕ) × (block_lock_of t addr ≡ some lock)
      × (block_lock_of t1 addr ≡ some (next_lock lock))
unfolding block_write_unlock
block_write_unlock-lock t addr h =
    with_entry-lock t addr (λ e. some (record e { lock = next_lock e.lock }))
      (λ e e' k. ap (λ z. z.lock) (of_some (sym k))) h

-- After `n` calls the lock has advanced by `n`, as far as 22 bits show it.
Writes-lock :
    (addr n : ℕ) {t t' : MapTable} {lock : ℕ}
    → Writes addr n t t'
    → block_lock_of t addr ≡ some lock
    → (lock' : ℕ) × (block_lock_of t' addr ≡ some lock') × (lock' % 2 ^ 22 ≡ (lock + n) % 2 ^ 22)
Writes-lock addr _ {lock = lock} done h = (lock, h, omega arith)
Writes-lock addr (suc n) (locking {t = t} w ws) h =
    let (l, before, after) = block_write_lock-lock t addr w in
    let same = of_some (sym before ∙ h) in
    let (l', e, q) = Writes-lock addr n ws after in (l', e, omega arith)
Writes-lock addr (suc n) (unlocking {t = t} w ws) h =
    let (l, before, after) = block_write_unlock-lock t addr w in
    let same = of_some (sym before ∙ h) in
    let (l', e, q) = Writes-lock addr n ws after in (l', e, omega arith)

block_read_lock-lock :
    (t : MapTable) (addr : ℕ) {v : ℕ}
    → block_read_lock t addr ≡ some v
    → block_lock_of t addr ≡ some v
unfolding block_read_lock
block_read_lock-lock t addr {v = v} h = elim (Option-cases (block_lock_of t addr)) [
  | inl g ↦ absurd (not_some (rw g) h)
  | inr (l, g) ↦ elim (Bool-cases (is_odd l)) [
    | inl o ↦ absurd (not_some (rw (g, o)) h)
    | inr o ↦ g ∙ sym (rw (g, o)) ∙ h
  ]
]

-- A reader of a block that takes the lock's value, and gives it back after `n` calls of writers of the
-- block, `n` not a multiple of 2 ^ 22, is told to try again.
pub Writes-seen :
    (addr n v : ℕ) {t t' : MapTable}
    → block_read_lock t addr ≡ some v
    → Writes addr n t t'
    → n % 2 ^ 22 ≢ 0
    → block_read_unlock t' addr v ≡ some true
unfolding block_read_unlock
Writes-seen addr n v {t = t} r w h =
    let (l, e, q) = Writes-lock addr n w (block_read_lock-lock t addr r) in
    let ne : v ≢ l = λ k. h (omega arith) in
    let seen : not (v == l) ≡ true = ground arith in rw (e, seen)
