-- ===== src/Failure/Journal/Replayed.antt =====
-- failure/journal.go: a replay of a journal with a torn line.
use faber.Common.{
  ℕ, ◌<◌, ◌≡◌, refl, sym, ◌∙◌, ap, ◌≢◌, none, Bool, true, false, List, [], ◌∷◌, ◌++◌, arith, ◌==◌,
  length, Bool-cases, inl, inr,
}
use mathlib.Core.List.{append_assoc, append-nil}
use faber.Failure.Journal.{
  newline, Codec, Replay, empty_replay, Loaded, ok, err, ◌>>=◌, raw_lines, ends_with_newline,
  any_long, load_lines, load_all, load, last_index, repair,
}
use faber.Failure.Journal.Repair.{
  repair-complete_part, complete_part-append_none, complete_part_ended,
}

pub raw_lines-append :
    (line xs ys : List ℕ)
    → ends_with_newline xs ≡ true
    → raw_lines line (xs ++ ys) ≡ raw_lines line xs ++ raw_lines [] ys
unfolding raw_lines ends_with_newline
raw_lines-append line [] ys e = cc
raw_lines-append line (b ∷ []) ys e = rw e refl
raw_lines-append line (b ∷ c ∷ xs) ys e = elim (Bool-cases (b == newline)) [
  | inl nl ↦ rw nl (ap (◌∷◌ line) (raw_lines-append [] (c ∷ xs) ys e))
  | inr other ↦ rw other (raw_lines-append (line ++ b ∷ []) (c ∷ xs) ys e)
]

free-cons :
    (b : ℕ) (bs : List ℕ)
    → last_index (b ∷ bs) ≡ none
    → ((b == newline) ≡ false) × (last_index bs ≡ none)
unfolding last_index
free-cons b bs e = ground arith

raw_lines_torn :
    (line frag : List ℕ)
    → last_index frag ≡ none
    → line ++ frag ≢ []
    → raw_lines line frag ≡ (line ++ frag) ∷ []
unfolding raw_lines
raw_lines_torn [] [] e h = absurd (h refl)
raw_lines_torn (x ∷ xs) [] e h = rw append-nil
raw_lines_torn line (b ∷ bs) e h =
    let (other, free) = free-cons b bs e in
    let regroup = append_assoc line (b ∷ []) bs in
    rw other (
      raw_lines_torn (line ++ b ∷ []) bs free (λ q. h (sym regroup ∙ q)) ∙ ap (λ k. k ∷ []) regroup)

pub raw_lines_line :
    (line text : List ℕ)
    → last_index text ≡ none
    → raw_lines line (text ++ newline ∷ []) ≡ (line ++ text) ∷ []
unfolding raw_lines
raw_lines_line line [] e = rw append-nil
raw_lines_line line (b ∷ bs) e =
    let (other, free) = free-cons b bs e in
    rw other
      (raw_lines_line (line ++ b ∷ []) bs free ∙ ap (λ k. k ∷ []) (append_assoc line (b ∷ []) bs))

pub ends-append :
    (xs : List ℕ) (b : ℕ) (bs : List ℕ)
    → ends_with_newline (xs ++ b ∷ bs) ≡ ends_with_newline (b ∷ bs)
unfolding ends_with_newline
ends-append [] b bs = refl
ends-append (x ∷ []) b bs = refl
ends-append (x ∷ y ∷ xs) b bs = ends-append (y ∷ xs) b bs

ends_of_torn : (frag : List ℕ) → last_index frag ≡ none → ends_with_newline frag ≡ false
unfolding ends_with_newline last_index
ends_of_torn [] e = refl
ends_of_torn (b ∷ []) e = ground arith
ends_of_torn (b ∷ c ∷ bs) e = ground (arith, ends_of_torn (c ∷ bs))

pub any_long-append :
    (limit : ℕ) (ls : List (List ℕ)) (l : List ℕ)
    → length l < limit
    → any_long limit (ls ++ l ∷ []) ≡ any_long limit ls
unfolding any_long
any_long-append limit [] l h = ground arith
any_long-append limit (x ∷ ls) l h = ground (arith, any_long-append limit ls l h)

bind_ext :
    (r : Loaded) (f g : Replay → Loaded) → ((rp : Replay) → f rp ≡ g rp) → (r >>= f) ≡ (r >>= g)
bind_ext (ok rp) f g h = h rp
bind_ext (err e) f g h = refl

module _ (codec : Codec) (limit : ℕ) where
  load_lines_torn :
      (first : Bool) (rp : Replay) (l : List ℕ) (ls : List (List ℕ)) (frag : List ℕ)
      → load_lines codec limit false first rp ((l ∷ ls) ++ frag ∷ [])
        ≡ load_lines codec limit true first rp (l ∷ ls)
  unfolding load_lines
  load_lines_torn first rp l [] frag = refl
  load_lines_torn first rp l (m ∷ ls) frag =
      bind_ext _ _ _ (λ rp'. load_lines_torn false rp' m ls frag)

  load_all_torn :
      (ls : List (List ℕ)) (frag : List ℕ)
      → ls ≢ []
      → load_all codec limit false (ls ++ frag ∷ []) ≡ load_all codec limit true ls
  unfolding load_all
  load_all_torn [] frag h = absurd (h refl)
  load_all_torn (l ∷ ls) frag h = load_lines_torn true empty_replay l ls frag

  raw_lines-nonempty : (line xs : List ℕ) → ends_with_newline xs ≡ true → raw_lines line xs ≢ []
  unfolding raw_lines ends_with_newline
  raw_lines-nonempty line [] e = cc
  raw_lines-nonempty line (b ∷ []) e = rw e (λ q. cc)
  raw_lines-nonempty line (b ∷ c ∷ xs) e = elim (Bool-cases (b == newline)) [
    | inl nl ↦ rw nl (λ q. cc)
    | inr other ↦ rw other (raw_lines-nonempty (line ++ b ∷ []) (c ∷ xs) e)
  ]

  -- A crash in the middle of an append costs that line only: a journal of ended lines with a torn
  -- fragment behind them, shorter than the line limit, loads as without it, and repairing it cuts
  -- exactly the fragment.
  pub load_torn :
      (whole : List ℕ) (b : ℕ) (bs : List ℕ)
      → ends_with_newline whole ≡ true
      → last_index (b ∷ bs) ≡ none
      → length (b ∷ bs) < limit
      → (load codec limit (whole ++ b ∷ bs) ≡ load codec limit whole)
        × (repair (whole ++ b ∷ bs) ≡ whole)
  unfolding load
  load_torn whole b bs e free short = (
    rw
        (
          ends-append whole b bs,
          ends_of_torn (b ∷ bs) free,
          e,
          raw_lines-append [] whole (b ∷ bs) e,
          raw_lines_torn [] (b ∷ bs) free (λ q. cc),
          any_long-append limit (raw_lines [] whole) (b ∷ bs) short,
          load_all_torn (raw_lines [] whole) (b ∷ bs) (raw_lines-nonempty [] whole e),
        )
        refl,
    repair-complete_part (whole ++ b ∷ bs)
        ∙ complete_part-append_none whole (b ∷ bs) free
        ∙ complete_part_ended whole e,
  )
