-- ===== src/LockFile/Drawn.antt =====
-- The LOCKs of make_lock_file in problemset2/src/lock_file.py: the locks that were drawn, in their order.
use mathlib.Core.Option.{none}
use cse.Prelude.{
  append_assoc, ◌+◌, sym, false, arith, if◌then◌else◌, List, [], ◌∷◌, inr, refl, ◌-◌, ap, inl,
  append-nil, true, Bool-cases, ◌∙◌, ◌≡◌, ◌++◌, ℕ,
}
use cse.Prefix.{take}
use cse.Command.{Command, ℤ, pos}
use cse.LockFile.{
  suc, get_elem?, some, [], ◌∷◌, ltb, List, Option, lock_line, unlock_line, Draw, Progress, release,
  turn, draw_loop, release_all,
}
use cse.LockFile.Balance.{release-a_locks, is_lock_line}

-- The resources of the LOCKs of a file.
abbrev pub locked : List Command → List ℤ
locked [] = []
locked (c ∷ cs) = if is_lock_line c then c.resource_id ∷ locked cs else locked cs

-- The locks that are drawn, whether they are needed or not.
abbrev pub drawn : List Draw → List ℤ
drawn [] = []
drawn (d ∷ ds) = if ltb d.choice 50 then drawn ds else pos d.number ∷ drawn ds

locked-append : (cs ds : List Command) → locked (cs ++ ds) ≡ locked cs ++ locked ds
locked-append [] ds = refl
locked-append (c ∷ cs) ds = elim (Bool-cases (is_lock_line c)) [
  | inl new ↦ rw (new, locked-append cs ds) refl
  | inr old ↦ rw (old, locked-append cs ds) refl
]

release-locked :
    (o : Option ℕ) (i : ℕ) (s : Progress) → locked (release o i s).cmd_list ≡ locked s.cmd_list
unfolding release
release-locked none i s = refl
release-locked (some l) i s =
    locked-append s.cmd_list (unlock_line l ∷ []) ∙ append-nil (locked s.cmd_list)

release_all-locked : (ls : List ℕ) → locked (release_all ls) ≡ []
unfolding release_all
release_all-locked [] = refl
release_all-locked (l ∷ ls) = release_all-locked ls

-- The LOCKs of the file so far, and those to come.
turn-locked :
    (num_locks : ℕ) (d : Draw) (ds : List Draw) (s : Progress)
    → ltb s.a_locks num_locks ≡ true
    → locked (turn d s).cmd_list ++ take (num_locks - (turn d s).a_locks) (drawn ds)
      ≡ locked s.cmd_list ++ take (num_locks - s.a_locks) (drawn (d ∷ ds))
unfolding turn
turn-locked num_locks d ds s more = elim (Bool-cases (ltb d.choice 50)) [
  | inl low ↦
      rw
        (
          low,
          release-locked (get_elem? s.lock_set d.number) d.number s,
          release-a_locks (get_elem? s.lock_set d.number) d.number s,
        )
        refl
  | inr high ↦
      let left : num_locks - s.a_locks ≡ suc (num_locks - (s.a_locks + 1)) = ground (arith, more) in
      rw (high, left, locked-append s.cmd_list (lock_line d.number ∷ []))
        (append_assoc (locked s.cmd_list) (pos d.number ∷ []) _)
]

-- At the end of the loop no more locks are wanted.
stopped-locked :
    (num_locks : ℕ) (ds : List Draw) (s end : Progress)
    → ltb s.a_locks num_locks ≡ false
    → some s ≡ some end
    → locked end.cmd_list ≡ locked s.cmd_list ++ take (num_locks - s.a_locks) (drawn ds)
stopped-locked num_locks ds s end over h =
    let e : end ≡ s = cc in
    let full : num_locks - s.a_locks ≡ 0 = ground (arith, over) in
    rw (e, full) (sym (append-nil (locked s.cmd_list)))

pub draw_loop-locked :
    (num_locks : ℕ) (ds : List Draw) (s end : Progress)
    → draw_loop num_locks ds s ≡ some end
    → locked end.cmd_list ≡ locked s.cmd_list ++ take (num_locks - s.a_locks) (drawn ds)
unfolding draw_loop
draw_loop-locked num_locks [] s end h = elim (Bool-cases (ltb s.a_locks num_locks)) [
  | inl more ↦ absurd (ground (arith, h, more))
  | inr over ↦ let same = rw over at h in stopped-locked num_locks [] s end over same
]
draw_loop-locked num_locks (d ∷ ds) s end h = elim (Bool-cases (ltb s.a_locks num_locks)) [
  | inl more ↦
      let rest = rw more at h in
      draw_loop-locked num_locks ds (turn d s) end rest ∙ turn-locked num_locks d ds s more
  | inr over ↦ let same = rw over at h in stopped-locked num_locks (d ∷ ds) s end over same
]

pub finished-locked :
    (s : Progress) → locked (s.cmd_list ++ release_all s.lock_set) ≡ locked s.cmd_list
finished-locked s =
    locked-append s.cmd_list (release_all s.lock_set)
    ∙ ap (λ xs. locked s.cmd_list ++ xs) (release_all-locked s.lock_set)
    ∙ append-nil (locked s.cmd_list)
