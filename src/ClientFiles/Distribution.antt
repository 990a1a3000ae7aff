-- ===== src/ClientFiles/Distribution.antt =====
-- The comparison of the two distributions of commands in validate_client_file of
-- problemset2/src/lock_file.py.
use cse.Prelude.{
  ℕ, ◌+◌, ◌≤◌, ◌≡◌, ◌↔◌, ◌⊎◌, ◌∙◌, refl, sym, ap, subst, true, false, List, [], ◌∷◌, ◌++◌, map,
  Option, some, none, arith, inl, inr, Bool-cases, and_split, ◌==◌, if◌then◌else◌,
}
use cse.Proposer.{Line}
use cse.Text.{Text, eq_text, is_blank, strip}
use cse.Print.{value_text}
use cse.Dict.{get?, add_one}
use cse.ClientFiles.{count_lines, count_files, is_count, same_counts}
use cse.ClientFiles.Loading.{count_entries, eq_text_self}

-- How often a text stands in a list.
abbrev pub occurrences : Text → List Text → ℕ
occurrences k [] = 0
occurrences k (s ∷ ss) = (if eq_text s k then 1 else 0) + occurrences k ss

-- The lines of the client files, without white space at the ends.
abbrev pub client_lines : List (List Text) → List Text
client_lines [] = []
client_lines (f ∷ files) = map (strip is_blank) f ++ client_lines files

abbrev pub log_entries : List Line → List Text
log_entries ls = map (λ l. value_text l.command) ls

eq_text_sound : (s t : Text) → eq_text s t ≡ true → s ≡ t
unfolding eq_text
eq_text_sound [] [] h = refl
eq_text_sound [] (d ∷ ds) h = absurd (ground (arith, h))
eq_text_sound (c ∷ cs) [] h = absurd (ground (arith, h))
eq_text_sound (c ∷ cs) (d ∷ ds) h =
    let (a, b) = and_split (c == d) _ h in
    let one : c ≡ d = ground (arith, a) in let more = eq_text_sound cs ds b in λ i. one i ∷ more i

-- The count of a key, 0 where there is none.
abbrev value : Option ℕ → ℕ
value none = 0
value (some n) = n

abbrev count_of : Text → List (Text × ℕ) → ℕ
count_of k d = value (get? eq_text k d)

-- A text that equals another one differs from what that one differs from.
other_key : (j s k : Text) → eq_text j s ≡ false → eq_text j k ≡ true → eq_text s k ≡ false
other_key j s k there same = elim (Bool-cases (eq_text s k)) [
  | inr differs ↦ differs
  | inl same_too ↦
      let e : j ≡ s = eq_text_sound j k same ∙ sym (eq_text_sound s k same_too) in
      let clash : true ≡ false = sym (eq_text_self s) ∙ subst (λ x. eq_text x s ≡ false) e there in
      absurd (ground (arith, clash))
]

count_of-add_one :
    (k s : Text) (d : List (Text × ℕ))
    → count_of k (add_one eq_text s d) ≡ count_of k d + (if eq_text s k then 1 else 0)
unfolding get? add_one
count_of-add_one k s [] = elim (Bool-cases (eq_text s k)) [
  | inl same ↦ rw same (omega arith)
  | inr other ↦ rw other (omega arith)
]
count_of-add_one k s ((j, n) ∷ d) = elim (Bool-cases (eq_text j s)) [
  | inl here ↦
      let e : j ≡ s = eq_text_sound j s here in
      elim (Bool-cases (eq_text j k)) [
        | inl same ↦ rw (here, same, sym e, same) refl
        | inr other ↦ rw (here, other, sym e, other) (omega arith)
      ]
  | inr there ↦ elim (Bool-cases (eq_text j k)) [
    | inl same ↦
        let not_k : eq_text s k ≡ false = other_key j s k there same in
        rw (there, same, not_k) (omega arith)
    | inr other ↦ rw (there, other) (count_of-add_one k s d)
  ]
]

count_of-count_lines :
    (k : Text) (f : List Text) (d : List (Text × ℕ))
    → count_of k (count_lines f d) ≡ count_of k d + occurrences k (map (strip is_blank) f)
unfolding count_lines
count_of-count_lines k [] d = omega arith
count_of-count_lines k (l ∷ f) d = omega (
  arith,
  count_of-count_lines k f (add_one eq_text (strip is_blank l) d),
  count_of-add_one k (strip is_blank l) d,
)

occurrences-append :
    (k : Text) (ss ts : List Text) → occurrences k (ss ++ ts) ≡ occurrences k ss + occurrences k ts
occurrences-append k [] ts = omega arith
occurrences-append k (s ∷ ss) ts = omega (arith, occurrences-append k ss ts)

count_of-count_files :
    (k : Text) (files : List (List Text)) (d : List (Text × ℕ))
    → count_of k (count_files files d) ≡ count_of k d + occurrences k (client_lines files)
unfolding count_files
count_of-count_files k [] d = omega arith
count_of-count_files k (f ∷ files) d = omega (
  arith,
  count_of-count_files k files (count_lines f d),
  count_of-count_lines k f d,
  occurrences-append k (map (strip is_blank) f) (client_lines files),
)

count_of-count_entries :
    (k : Text) (ls : List Line) (d : List (Text × ℕ))
    → count_of k (count_entries ls d) ≡ count_of k d + occurrences k (log_entries ls)
count_of-count_entries k [] d = omega arith
count_of-count_entries k (l ∷ ls) d = omega (
  arith,
  count_of-count_entries k ls (add_one eq_text (value_text l.command) d),
  count_of-add_one k (value_text l.command) d,
)

-- Each key stands once, with a positive count.
abbrev IsDistribution : List (Text × ℕ) → Type 0
IsDistribution [] = Unit
IsDistribution ((k, n) ∷ d) = (count_of k d ≡ 0) × (1 ≤ n) × IsDistribution d

add_one-IsDistribution :
    (s : Text) (d : List (Text × ℕ)) → IsDistribution d → IsDistribution (add_one eq_text s d)
unfolding add_one get?
add_one-IsDistribution s [] h = (refl, omega arith, tt)
add_one-IsDistribution s ((j, n) ∷ d) h = elim (Bool-cases (eq_text j s)) [
  | inl here ↦ rw here (h.0, omega (arith, h.1), h.2)
  | inr there ↦
      let not_j : eq_text s j ≡ false = other_key_sym j s there in
      let added : count_of j (add_one eq_text s d) ≡ count_of j d + 0 =
        subst (λ b. count_of j (add_one eq_text s d) ≡ count_of j d + (if b then 1 else 0)) not_j
          (count_of-add_one j s d) in
      rw there (omega (arith, h.0, added), h.1, add_one-IsDistribution s d h.2)
]
  where
    other_key_sym : (j s : Text) → eq_text j s ≡ false → eq_text s j ≡ false
    other_key_sym j s differs = elim (Bool-cases (eq_text s j)) [
      | inr other ↦ other
      | inl same_too ↦
          let clash : true ≡ false =
            sym (eq_text_self j)
            ∙ subst (λ x. eq_text j x ≡ false) (eq_text_sound s j same_too) differs in
          absurd (ground (arith, clash))
    ]

count_lines-IsDistribution :
    (f : List Text) (d : List (Text × ℕ)) → IsDistribution d → IsDistribution (count_lines f d)
unfolding count_lines
count_lines-IsDistribution [] d h = h
count_lines-IsDistribution (l ∷ f) d h =
    count_lines-IsDistribution f (add_one eq_text (strip is_blank l) d)
      (add_one-IsDistribution (strip is_blank l) d h)

count_files-IsDistribution :
    (files : List (List Text)) (d : List (Text × ℕ))
    → IsDistribution d
    → IsDistribution (count_files files d)
unfolding count_files
count_files-IsDistribution [] d h = h
count_files-IsDistribution (f ∷ files) d h =
    count_files-IsDistribution files (count_lines f d) (count_lines-IsDistribution f d h)

-- A count is 0, or the same in the other distribution.
abbrev Agrees : ℕ → ℕ → Type 0
Agrees m n = (m ≡ 0) ⊎ (m ≡ n)

is_count_value : (n : ℕ) (o : Option ℕ) → is_count n o ≡ true → n ≡ value o
is_count_value n none h = absurd (ground (arith, h))
is_count_value n (some m) h = ground (arith, h)

value-is_count : (n : ℕ) (o : Option ℕ) → 1 ≤ n → n ≡ value o → is_count n o ≡ true
value-is_count n none le h = absurd (omega (arith, le, h))
value-is_count n (some m) le h = ground (arith, h)

same_counts-Agrees :
    (c d : List (Text × ℕ))
    → same_counts c d ≡ true
    → (k : Text) → Agrees (count_of k c) (count_of k d)
unfolding same_counts get?
same_counts-Agrees [] d h k = inl refl
same_counts-Agrees ((j, n) ∷ c) d h k =
    let (one, more) = and_split (is_count n (get? eq_text j d)) _ h in
    elim (Bool-cases (eq_text j k)) [
      | inl same ↦ rw same (
          inr (
            is_count_value n (get? eq_text j d) one
            ∙ ap (λ x. count_of x d) (eq_text_sound j k same)))
      | inr other ↦ rw other (same_counts-Agrees c d more k)
    ]

Agrees-same_counts :
    (c d : List (Text × ℕ))
    → IsDistribution c
    → ((k : Text) → Agrees (count_of k c) (count_of k d))
    → same_counts c d ≡ true
unfolding same_counts get?
Agrees-same_counts [] d dist h = refl
Agrees-same_counts ((j, n) ∷ c) d dist h =
    let here : Agrees n (count_of j d) =
      subst (λ b. Agrees (value (if b then some n else get? eq_text j c)) (count_of j d))
        (eq_text_self j) (h j) in
    let one : is_count n (get? eq_text j d) ≡ true = elim here [
      | inl none_there ↦ absurd (omega (arith, none_there, dist.1))
      | inr same ↦ value-is_count n (get? eq_text j d) dist.1 same
    ] in
    rw one (
      Agrees-same_counts c d dist.2 (λ k. elim (Bool-cases (eq_text j k)) [
        | inl same ↦ inl (ap (λ x. count_of x c) (sym (eq_text_sound j k same)) ∙ dist.0)
        | inr other ↦
            subst (λ b. Agrees (value (if b then some n else get? eq_text k c)) (count_of k d))
              other (h k)
      ]))

-- The comparison succeeds exactly if each text either is no line of a client file or stands as often
-- in them as it does as a command in the log; white space at the ends of a line does not count. So a
-- command of the log that is in no client file does not make it fail.
pub same_counts_iff :
    (files : List (List Text)) (ls : List Line)
    → (same_counts (count_files files []) (count_entries ls []) ≡ true) ↔ (
        (k : Text)
        → (occurrences k (client_lines files) ≡ 0)
          ⊎ (occurrences k (client_lines files) ≡ occurrences k (log_entries ls)))
unfolding get?
same_counts_iff files ls = (
  λ h k. elim (same_counts-Agrees (count_files files []) (count_entries ls []) h k) [
    | inl zero_here ↦ inl (omega (arith, zero_here, count_of-count_files k files []))
    | inr same ↦
        inr (omega (arith, same, count_of-count_files k files [], count_of-count_entries k ls []))
  ],
  λ h.
      Agrees-same_counts (count_files files []) (count_entries ls [])
        (count_files-IsDistribution files [] tt)
        (λ k. elim (h k) [
          | inl zero_here ↦ inl (omega (arith, zero_here, count_of-count_files k files []))
          | inr same ↦
              inr (
                omega
                  (arith, same, count_of-count_files k files [], count_of-count_entries k ls []))
        ]),
)
