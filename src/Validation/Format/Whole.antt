-- ===== src/Validation/Format/Whole.antt =====
-- The parts that src/scheduler_validation.c prints one by one come out as one text printed at once.
use Prim.Native.String.{String}
use concurrent_task_scheduli.Base.{
  ℕ, zero, suc, ◌-◌, ◌<◌, ◌≡◌, refl, ap, ◌∙◌, Option, some, List, [], ◌∷◌, ◌++◌, append_assoc,
  append-nil, arith, length, length-append, set, ltb, ◌==◌, if◌then◌else◌, add_word, word_mod,
}
use concurrent_task_scheduli.Snapshot.{SchedulerSnapshot}
use concurrent_task_scheduli.Validation.{IssueRecord, ValidationResult}
use concurrent_task_scheduli.Validation.Format.{
  take, drop, int_max, null, bytes, append_format, head_of, text_of, append_issues, format_into,
  scheduler_validation_format,
}

-- A text and its final zero in some bytes, as far as there is room.
unfoldable pub print_into : List ℕ → List ℕ → List ℕ
print_into t [] = []
print_into [] (b ∷ bs) = 0 ∷ bs
print_into (c ∷ t) (b ∷ []) = 0 ∷ []
print_into (c ∷ t) (b ∷ b' ∷ bs) = c ∷ print_into t (b' ∷ bs)

-- What the C standard says of vsnprintf on a text: the text and a zero, as far as there is room, and the
-- text's length.
unfoldable pub IsPrint : (List ℕ → List ℕ → List ℕ × Option ℕ) → Type 0
IsPrint print = (t bs : List ℕ) → print t bs ≡ (print_into t bs, some (length t))

print_into-length : (t bs : List ℕ) → length (print_into t bs) ≡ length bs
unfolding print_into
print_into-length t [] = refl
print_into-length [] (b ∷ bs) = refl
print_into-length (c ∷ t) (b ∷ []) = refl
print_into-length (c ∷ t) (b ∷ b' ∷ bs) = ap suc (print_into-length t (b' ∷ bs))

take-nil : (n : ℕ) → take n [] ≡ []
take-nil zero = refl
take-nil (suc n) = refl

drop-nil : (n : ℕ) → drop n [] ≡ []
drop-nil zero = refl
drop-nil (suc n) = refl

-- The byte of the zero is written over.
print_into-first : (u bs : List ℕ) (b b' : ℕ) → print_into u (b ∷ bs) ≡ print_into u (b' ∷ bs)
unfolding print_into
print_into-first [] bs b b' = refl
print_into-first (c ∷ u) [] b b' = refl
print_into-first (c ∷ u) (d ∷ bs) b b' = refl

-- A second text is printed behind the first one.
print_into-append :
    (t u bs : List ℕ)
    → take (length t) (print_into t bs) ++ print_into u (drop (length t) (print_into t bs))
      ≡ print_into (t ++ u) bs
unfolding print_into
print_into-append [] u [] = refl
print_into-append (c ∷ t) u [] = refl
print_into-append [] u (b ∷ bs) = print_into-first u bs 0 b
print_into-append (c ∷ t) u (b ∷ []) = rw (take-nil (length t), drop-nil (length t))
print_into-append (c ∷ t) u (b ∷ b' ∷ bs) = ap (λ x. c ∷ x) (print_into-append t u (b' ∷ bs))

-- Behind the end there is nothing.
abbrev clip : ℕ → List ℕ → ℕ
clip n bs = if ltb n (length bs) then n else length bs

clip-zero : (bs : List ℕ) → clip 0 bs ≡ 0
clip-zero [] = refl
clip-zero (b ∷ bs) = ground arith

clip-suc : (n b : ℕ) (bs : List ℕ) → clip (suc n) (b ∷ bs) ≡ suc (clip n bs)
clip-suc n b bs = ground arith

take-clip : (n : ℕ) (bs : List ℕ) → take (clip n bs) bs ≡ take n bs
take-clip zero bs = ap (λ k. take k bs) (clip-zero bs)
take-clip (suc n) [] = take-nil (clip (suc n) [])
take-clip (suc n) (b ∷ bs) =
    ap (λ k. take k (b ∷ bs)) (clip-suc n b bs) ∙ ap (λ x. b ∷ x) (take-clip n bs)

drop-clip : (n : ℕ) (bs : List ℕ) → drop (clip n bs) bs ≡ drop n bs
drop-clip zero bs = ap (λ k. drop k bs) (clip-zero bs)
drop-clip (suc n) [] = drop-nil (clip (suc n) [])
drop-clip (suc n) (b ∷ bs) = ap (λ k. drop k (b ∷ bs)) (clip-suc n b bs) ∙ drop-clip n bs

module _ (print : List ℕ → List ℕ → List ℕ × Option ℕ)
    (head_text : String → ℕ → ℕ → ℕ → ℕ → ℕ → ℕ → List ℕ) (issue_text : String → ℕ → ℕ → ℕ → List ℕ)
    (standard : IsPrint print) where
  -- The texts of the first `n` issues.
  unfoldable pub issues_text : ℕ → List IssueRecord → List ℕ
  issues_text zero is = []
  issues_text (suc n) [] = []
  issues_text (suc n) (i ∷ is) = text_of print head_text issue_text i ++ issues_text n is

  append_format_lem :
      (u bs : List ℕ) (n : ℕ)
      → append_format print head_text issue_text u (bs, n)
        ≡ (take n bs ++ print_into u (drop n bs), add_word n (length u))
  unfolding append_format IsPrint
  append_format_lem u bs n = rw (take-clip n bs, drop-clip n bs, standard u (drop n bs))

  append_format-first :
      (t bs : List ℕ)
      → length t < word_mod
      → append_format print head_text issue_text t (bs, 0) ≡ (print_into t bs, length t)
  append_format-first t bs h =
      let same : add_word 0 (length t) ≡ length t = omega (arith, h) in
      append_format_lem t bs 0 ∙ ap (λ n. (print_into t bs, n)) same

  append_format-next :
      (t u bs : List ℕ)
      → length (t ++ u) < word_mod
      → append_format print head_text issue_text u (print_into t bs, length t)
        ≡ (print_into (t ++ u) bs, length (t ++ u))
  append_format-next t u bs h =
      let same : add_word (length t) (length u) ≡ length (t ++ u) =
        omega (arith, h, length-append t u) in
      append_format_lem u (print_into t bs) (length t) ∙ cc (print_into-append t u bs, same)

  append_issues_lem :
      (n : ℕ) (is : List IssueRecord) (t bs : List ℕ)
      → length (t ++ issues_text n is) < word_mod
      → append_issues print head_text issue_text n is (print_into t bs, length t)
        ≡ (print_into (t ++ issues_text n is) bs, length (t ++ issues_text n is))
  unfolding append_issues issues_text
  append_issues_lem zero is t bs h = rw (append-nil t)
  append_issues_lem (suc n) [] t bs h = rw (append-nil t)
  append_issues_lem (suc n) (i ∷ is) t bs h =
      let u = text_of print head_text issue_text i in
      let rest = issues_text n is in
      let whole = length-append t (u ++ rest) in
      let behind = length-append u rest in
      let start : length (t ++ u) < word_mod = omega (arith, h, whole, behind, length-append t u) in
      let all : length (t ++ u ++ rest) < word_mod =
        omega (arith, h, whole, behind, length-append t u, length-append (t ++ u) rest) in
      ap (append_issues print head_text issue_text n is) (append_format-next t u bs start)
      ∙ append_issues_lem n is (t ++ u) bs all
      ∙ ap (λ x. (print_into x bs, length x)) (append_assoc t u rest)

  -- All that is to be printed of a result.
  abbrev pub whole_text : ValidationResult → List ℕ
  whole_text r = head_of print head_text issue_text r ++ issues_text r.issue_count r.issues

  -- A text printed into a buffer, whose last byte is then set to zero.
  abbrev pub sealed : List ℕ → List ℕ → List ℕ
  sealed t buffer =
      if length buffer == 0
      then print_into t buffer
      else set (print_into t buffer) (length buffer - 1) 0

  format_into_lem :
      (r : ValidationResult) (buffer : List ℕ)
      → length (whole_text r) < word_mod
      → format_into print head_text issue_text r buffer ≡ (
        sealed (whole_text r) buffer,
        if ltb int_max (length (whole_text r)) then int_max else length (whole_text r),
      )
  format_into_lem r buffer h =
      let t = head_of print head_text issue_text r in
      let rest = issues_text r.issue_count r.issues in
      let small : length t < word_mod = omega (arith, h, length-append t rest) in
      let all =
        ap (append_issues print head_text issue_text r.issue_count r.issues)
          (append_format-first t buffer small)
        ∙ append_issues_lem r.issue_count r.issues t buffer h in
      ap
        (λ (x : List ℕ × ℕ). (
          if length buffer == 0 then x.0 else set x.0 (length buffer - 1) 0,
          if ltb int_max x.1 then int_max else x.1,
        ))
        all

  -- Where vsnprintf does what the C standard says, and the whole text is shorter than 2 ^ 64: printing a
  -- result part by part into a buffer leaves what printing the whole text at once leaves, with the
  -- last byte, if there is one, set to zero. With a buffer, and with NULL and size 0, the value
  -- returned is the length of the whole text, or INT_MAX where that is more.
  pub formatted_at_once :
      (s : SchedulerSnapshot) (r : ValidationResult) (buffer : List ℕ)
      → length (whole_text r) < word_mod
      → (scheduler_validation_format print head_text issue_text (some s) (some r) (bytes buffer) ≡ (
        some (if ltb int_max (length (whole_text r)) then int_max else length (whole_text r)),
        bytes (sealed (whole_text r) buffer),
      ))
        × (scheduler_validation_format print head_text issue_text (some s) (some r) (null 0) ≡ (
          some (if ltb int_max (length (whole_text r)) then int_max else length (whole_text r)),
          null 0,
        ))
  unfolding scheduler_validation_format
  formatted_at_once s r buffer h = (
    ap (λ (x : List ℕ × ℕ). (some x.1, bytes x.0)) (format_into_lem r buffer h),
    ap (λ (x : List ℕ × ℕ). (some x.1, null 0)) (format_into_lem r [] h),
  )
