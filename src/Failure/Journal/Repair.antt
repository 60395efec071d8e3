-- ===== src/Failure/Journal/Repair.antt =====
-- failure/journal.go: the scan of repairTornTail.
use faber.Common.{
  ℕ, zero, suc, ◌+◌, ◌-◌, ◌≤◌, ◌≡◌, refl, sym, none, some, true, false, List, [], ◌∷◌, ◌++◌, arith,
  ltb, ◌==◌, if◌then◌else◌, length, take, drop, take-add, length-take, take-length, Option-cases,
  subst, Bool-cases, inl, inr,
}
use faber.Failure.Journal.{
  complete_part, last_index, scan_back, repair, ends_with_newline, chunk_size,
}

complete_part-none : (ys : List ℕ) → last_index ys ≡ none → complete_part ys ≡ []
unfolding last_index complete_part
complete_part-none [] e = refl
complete_part-none (b ∷ bs) e = ground (arith, complete_part-none bs)

length-complete_part-some :
    (ys : List ℕ) (i : ℕ) → last_index ys ≡ some i → length (complete_part ys) ≡ i + 1
unfolding last_index complete_part
length-complete_part-some [] i e = cc
length-complete_part-some (b ∷ bs) i e = elim (Option-cases (last_index bs)) [
  | inl f ↦ ground (arith, complete_part-none bs f)
  | inr (j, f) ↦ ground (arith, length-complete_part-some bs j f)
]

length-complete_part_append :
    (xs ys : List ℕ) (i : ℕ)
    → last_index ys ≡ some i
    → length (complete_part (xs ++ ys)) ≡ length xs + (i + 1)
unfolding complete_part
length-complete_part_append [] ys i e = omega (arith, length-complete_part-some ys i e)
length-complete_part_append (x ∷ xs) ys i e = ground (arith, length-complete_part_append xs ys i e)

pub complete_part-append_none :
    (xs ys : List ℕ) → last_index ys ≡ none → complete_part (xs ++ ys) ≡ complete_part xs
unfolding complete_part
complete_part-append_none [] ys e = complete_part-none ys e
complete_part-append_none (x ∷ xs) ys e = ground (arith, complete_part-append_none xs ys e)

take-complete_part : (bs : List ℕ) → take (length (complete_part bs)) bs ≡ complete_part bs
unfolding complete_part
take-complete_part [] = refl
take-complete_part (b ∷ bs) = ground (arith, take-complete_part bs)

pub complete_part_ended : (bs : List ℕ) → ends_with_newline bs ≡ true → complete_part bs ≡ bs
unfolding complete_part ends_with_newline
complete_part_ended [] e = refl
complete_part_ended (b ∷ []) e = ground arith
complete_part_ended (b ∷ c ∷ bs) e = ground (arith, complete_part_ended (c ∷ bs) e)

-- The backward scan keeps the complete part of what it looks at.
scan_back-complete_part :
    (fuel : ℕ) (bytes : List ℕ) (off : ℕ)
    → off ≤ length bytes
    → off ≤ fuel
    → scan_back fuel bytes off ≡ length (complete_part (take off bytes))
unfolding scan_back complete_part
scan_back-complete_part zero bytes zero h f = refl
scan_back-complete_part zero bytes (suc off) h f = elim f [ ]
scan_back-complete_part (suc fuel) bytes zero h f = ground arith
scan_back-complete_part (suc fuel) bytes (suc off) h f =
    let n : ℕ = if ltb (suc off) chunk_size then suc off else chunk_size in
    let start : ℕ = suc off - n in
    let whole : start + n ≡ suc off = ground arith in
    let less : start ≤ off = ground arith in
    let split : take (suc off) bytes ≡ take start bytes ++ take n (drop start bytes) =
      subst (λ k. take k bytes ≡ take start bytes ++ take n (drop start bytes)) whole
        (take-add start n bytes) in
    let more : (suc off == 0) ≡ false = ground arith in
    elim (Option-cases (last_index (take n (drop start bytes)))) [
      | inl e ↦
          rw (e, more, scan_back, split, complete_part-append_none (take start bytes) _ e)
            (scan_back-complete_part fuel bytes start (omega arith) (omega arith))
      | inr (i, e) ↦
          rw (e, more, scan_back, split)
            (omega (
              arith,
              length-complete_part_append (take start bytes) (take n (drop start bytes)) i e,
              length-take start bytes (omega arith),
            ))
    ]

-- The chunked backward scan keeps exactly the prefix up to and with the last newline.
pub repair-complete_part : (bytes : List ℕ) → repair bytes ≡ complete_part bytes
unfolding repair
repair-complete_part bytes = elim (Bool-cases (ends_with_newline bytes)) [
  | inl ended ↦ rw (ended, repair) (sym (complete_part_ended bytes ended))
  | inr torn ↦
      rw
        (
          torn,
          repair,
          scan_back-complete_part (length bytes) bytes (length bytes) (omega arith) (omega arith),
          take-length bytes,
        )
        (take-complete_part bytes)
]
