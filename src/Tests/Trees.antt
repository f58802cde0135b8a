-- ===== src/Tests/Trees.antt =====
-- Tests of RadixTree.c.
use nvmfs.Prelude.{ℕ, ◌%◌, ◌^◌, ◌>>=◌, ◌≡◌, ◌≢◌, refl, some, Option}
use nvmfs.RadixTree.{RadixTree, init, set_prepare, radix_set, radix_get}
use nvmfs.RadixTree.Map.{IsValid, init-IsValid}
use nvmfs.RadixTree.Put.{radix_get-set}

-- Page 262657 is in the second slot of all three layers.
abbrev page : ℕ
page = 262657

radix_get-set_example :
    (t1 : RadixTree ℕ) × (set_prepare init page ≡ some t1)
    × (t2 : RadixTree ℕ) × (radix_set t1 page (some 7) ≡ some t2)
    × IsValid t2
    × ((k : ℕ) → k % 2 ^ 27 ≡ page % 2 ^ 27 → radix_get t2 k ≡ some 7)
    × ((k : ℕ) → k % 2 ^ 27 ≢ page % 2 ^ 27 → radix_get t2 k ≡ radix_get init k)
radix_get-set_example = radix_get-set init page init-IsValid (some 7)

unfoldable found : Option ℕ
found = set_prepare init page >>= λ t. radix_set t page (some 7) >>= λ t'. radix_get t' page

found_at : found ≡ some 7
unfolding found set_prepare radix_set radix_get
found_at = refl
