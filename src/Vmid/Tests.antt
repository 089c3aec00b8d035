-- ===== src/Vmid/Tests.antt =====
-- Numbers picked in small sets, and the theorem at one.
use proxora.Common.{
  ℕ, List, [], ◌∷◌, false, some, ◌≡◌, refl, arith, includes, add, add_all, unique, nat_eq, ◌==◌,
}
use proxora.Vmid.{min_vmid, blocked, search_down, search_up, next_smaller_vmid}
use proxora.Vmid.Free.{Picks, counted_ids, next_smaller_vmid-Picks}

running : Unit {0}
unfolding min_vmid blocked search_down search_up next_smaller_vmid includes add add_all unique
running = tt

abbrev used : List ℕ
used = 104 ∷ 99 ∷ 103 ∷ 104 ∷ []

fills_the_gap : next_smaller_vmid 1 used min_vmid (λ id. id == 102) ≡ some 101
unfolding running
fills_the_gap = refl

goes_above : next_smaller_vmid 2 (101 ∷ 100 ∷ []) min_vmid (λ id. id == 102) ≡ some 103
unfolding running
goes_above = refl

starts_at_the_minimum : next_smaller_vmid 1 [] min_vmid (λ id. false) ≡ some 100
unfolding running
starts_at_the_minimum = refl

next_smaller_vmid-Picks_example :
    Picks
      (blocked (counted_ids used min_vmid) (λ id. id == 102))
      min_vmid
      (counted_ids used min_vmid)
      (next_smaller_vmid 1 used min_vmid (λ id. id == 102))
unfolding running
next_smaller_vmid-Picks_example =
    next_smaller_vmid-Picks 1 used min_vmid (λ id. id == 102) 105 refl (omega arith) (omega arith)
