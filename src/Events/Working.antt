-- ===== src/Events/Working.antt =====
-- working_machines and machine_configs of project/src/events.py: two records of the same machines.
use cse.Prelude.{
  ◌==◌, ℕ, ◌≡◌, refl, ◌∙◌, sym, ap, subst, Bool, true, false, List, [], ◌∷◌, ◌++◌, Option, some,
  none, if◌then◌else◌, arith, Bool-cases, inl, inr,
}
use cse.Command.{pos, ℤ, eq_int}
use cse.LockSet.{contains, remove}
use cse.LockSet.Laws.{IsDistinct, IsDistinct-append, IsDistinct-remove}
use cse.Dict.{get?, put, pop}
use cse.Events.{
  blank, event, EventLine, Machines, no_machines, see, see_update, work, configure, add, lose,
  take_away, appear, update, read_line, read_lines,
}

-- The keys of a dictionary of machines.
abbrev pub keys : {V : Type 0} → List (ℤ × V) → List ℤ
keys [] = []
keys ((k, v) ∷ d) = k ∷ keys d

-- The list with `r` in it.
abbrev with : ℤ → List ℤ → List ℤ
with r xs = if contains r xs then xs else xs ++ r ∷ []

module _ {V : Type 0} where
  keys-put : (k : ℤ) (v : V) (d : List (ℤ × V)) → keys (put eq_int k v d) ≡ with k (keys d)
  unfolding put contains
  keys-put k v [] = refl
  keys-put k v ((j, w) ∷ d) = ground (arith, keys-put k v d)

  keys-pop : (k : ℤ) (d : List (ℤ × V)) → keys (pop eq_int k d) ≡ remove k (keys d)
  unfolding pop remove
  keys-pop k [] = refl
  keys-pop k ((j, w) ∷ d) = ground (arith, keys-pop k d)

  get?-contains :
      (k : ℤ) (v : V) (d : List (ℤ × V)) → get? eq_int k d ≡ some v → contains k (keys d) ≡ true
  unfolding get? contains
  get?-contains k v [] h = cc
  get?-contains k v ((j, w) ∷ d) h = ground (arith, get?-contains k v d)

remove-absent : (r : ℤ) (xs : List ℤ) → contains r xs ≡ false → remove r xs ≡ xs
unfolding contains remove
remove-absent r [] h = refl
remove-absent r (x ∷ xs) h = ground (arith, remove-absent r xs)

with-IsDistinct : (r : ℤ) (xs : List ℤ) → IsDistinct xs → IsDistinct (with r xs)
with-IsDistinct r xs d = elim (Bool-cases (contains r xs)) [
  | inl held ↦ rw held d
  | inr free ↦ rw free (IsDistinct-append r xs free d)
]

remove_test : (r : ℤ) (xs : List ℤ) → (if contains r xs then remove r xs else xs) ≡ remove r xs
remove_test r xs = elim (Bool-cases (contains r xs)) [
  | inl held ↦ rw held refl
  | inr free ↦ rw free (sym (remove-absent r xs free))
]

module _ {K F : Type 0} (same : K → K → Bool) where
  -- The configured machines are the working ones, in the same order, and none stands there twice.
  pub record Tracks (s : Machines K F) : Type 0 where
    pub same_machines : keys s.machine_configs ≡ s.working_machines
    pub distinct : IsDistinct s.working_machines

  -- What a part of an event does to the two lists: nothing, or `r` starts to work.
  abbrev SameLists : Machines K F → Machines K F → Type 0
  SameLists s t =
      (t.machine_configs ≡ s.machine_configs) × (t.working_machines ≡ s.working_machines)

  abbrev Works : ℤ → Machines K F → Machines K F → Type 0
  Works r s t =
      (t.machine_configs ≡ s.machine_configs) × (t.working_machines ≡ with r s.working_machines)

  see_lem : (r : ℤ) (k : K) (s : Machines K F) → SameLists s (see same r k s)
  unfolding see
  see_lem r k s = elim (Bool-cases (contains r s.seen_machines)) [
    | inl old ↦ rw old (refl, refl)
    | inr new ↦ rw new (refl, refl)
  ]

  see_update_lem : (r : ℤ) (k : K) (s : Machines K F) → SameLists s (see_update same r k s)
  unfolding see_update
  see_update_lem r k s = elim (Bool-cases (contains r s.seen_machines)) [
    | inl old ↦ rw old (refl, refl)
    | inr new ↦ rw new (refl, refl)
  ]

  lose_lem : (k : K) (o : Option ℕ) (s : Machines K F) → SameLists s (lose same k o s)
  unfolding lose
  lose_lem k none s = (refl, refl)
  lose_lem k (some n) s = elim (Bool-cases (n == 0)) [
    | inl empty ↦ rw empty (refl, refl)
    | inr left ↦ rw left (refl, refl)
  ]

  work_lem : (r : ℤ) (k : K) (s : Machines K F) → Works r s (work same r k s)
  unfolding work
  work_lem r k s = elim (Bool-cases (contains r s.working_machines)) [
    | inl old ↦ rw old (refl, refl)
    | inr new ↦ rw new (refl, refl)
  ]

  -- A machine that is seen, and then works.
  Works-after : (s t : Machines K F) (r : ℤ) (k : K) → SameLists s t → Works r s (work same r k t)
  Works-after s t r k h = ((work_lem r k t).0 ∙ h.0, (work_lem r k t).1 ∙ ap (with r) h.1)

  appear_lem :
      (o : Option (F × F)) (r : ℤ) (k : K) (s : Machines K F)
      → get? eq_int r s.machine_configs ≡ o
      → Tracks s
      → Works r s (appear same o r k s)
  unfolding appear
  appear_lem none r k s e h = Works-after s (see_update same r k s) r k (see_update_lem r k s)
  appear_lem (some prior) r k s e h =
      let held : contains r s.working_machines ≡ true =
        subst (λ xs. contains r xs ≡ true) h.same_machines
          (get?-contains r prior s.machine_configs e) in
      (refl, rw held refl)

  -- A machine that works is configured.
  configured :
      (s t u : Machines K F) (r : ℤ) (config : F × F)
      → Works r s t
      → u.machine_configs ≡ put eq_int r config t.machine_configs
      → u.working_machines ≡ t.working_machines
      → Tracks s
      → Tracks u
  configured s t u r config w c e h = record {
    same_machines =
        ap keys (c ∙ ap (put eq_int r config) w.0)
        ∙ keys-put r config s.machine_configs
        ∙ ap (with r) h.same_machines
        ∙ sym (e ∙ w.1);
    distinct = subst IsDistinct (sym (e ∙ w.1)) (with-IsDistinct r s.working_machines h.distinct);
  }

  -- A machine that is removed loses its configuration.
  removed :
      (s t u : Machines K F) (r : ℤ)
      → SameLists s t
      → u.machine_configs ≡ pop eq_int r t.machine_configs
      → u.working_machines ≡ remove r t.working_machines
      → Tracks s
      → Tracks u
  removed s t u r w c e h = record {
    same_machines =
        ap keys (c ∙ ap (pop eq_int r) w.0)
        ∙ keys-pop r s.machine_configs
        ∙ ap (remove r) h.same_machines
        ∙ sym (e ∙ ap (remove r) w.1);
    distinct =
        subst IsDistinct (sym (e ∙ ap (remove r) w.1))
          (IsDistinct-remove r s.working_machines h.distinct);
  }

  read_line-Tracks : (l : EventLine K F) (s : Machines K F) → Tracks s → Tracks (read_line same l s)
  unfolding read_line add update take_away configure
  read_line-Tracks blank s h = record { same_machines = h.same_machines; distinct = h.distinct }
  read_line-Tracks (event r type k cpu memory) s h = elim (Bool-cases (eq_int type (pos 0))) [
    | inl adds ↦ rw adds (
        configured s (work same r k (see same r k s)) _ r (cpu, memory)
          (Works-after s (see same r k s) r k (see_lem r k s)) refl refl h)
    | inr other ↦ elim (Bool-cases (eq_int type (pos 1))) [
      | inl takes ↦
          rw (other, takes)
            (removed s (lose same k (get? same k s.machine_dist) s) _ r
              (lose_lem k (get? same k s.machine_dist) s) refl (remove_test r _) h)
      | inr updates ↦
          rw (other, updates)
            (configured s (appear same (get? eq_int r s.machine_configs) r k s) _ r (cpu, memory)
              (appear_lem (get? eq_int r s.machine_configs) r k s refl h) refl refl h)
    ]
  ]

  read_lines_from-Tracks :
      (ls : List (EventLine K F)) (s : Machines K F) → Tracks s → Tracks (read_lines same ls s)
  unfolding read_lines
  read_lines_from-Tracks [] s h = h
  read_lines_from-Tracks (l ∷ ls) s h = read_lines_from-Tracks ls _ (read_line-Tracks l s h)

  -- After any lines, the machines with a configuration are the working machines, and no machine is
  -- recorded twice.
  pub read_lines-Tracks : (ls : List (EventLine K F)) → Tracks (read_lines same ls no_machines)
  read_lines-Tracks ls =
      read_lines_from-Tracks ls no_machines (record { same_machines = refl; distinct = tt })
