-- ===== src/Text/Line/Trim.antt =====
-- What `trim` cuts off and what it keeps.
use ps3_plugins.Base.{
  ℕ, ◌≡◌, refl, sym, ap, ◌∙◌, ◌≢◌, ◌⊎◌, inl, inr, true, false, [], ◌∷◌, ◌++◌, append_assoc, ◌==◌,
  if◌then◌else◌, Bool-cases, ==_ne, Bytes, All, All-append,
}
use mathlib.Core.List.{reverse-cons, reverse, reverse-append, reverse-reverse}
use ps3_plugins.CString.{isspace, skip_space, peek}
use ps3_plugins.Text.Line.{step_back, trim}

abbrev pub AllSpace : Bytes → Type 0
AllSpace = All (λ c. isspace c ≡ true)

-- A text cut in two at the end of its leading blanks.
record SkipSpace (s : Bytes) : Type 0 where
  before : Bytes
  splits : s ≡ before ++ skip_space s
  blank : AllSpace before
  stops : isspace (peek (skip_space s)) ≡ false

skip_space_lem : (s : Bytes) → SkipSpace s
unfolding skip_space isspace
skip_space_lem [] = record { before = []; splits = refl; blank = tt; stops = refl }
skip_space_lem (c ∷ s) = elim (Bool-cases (isspace c)) [
  | inl yes_space ↦
      let r = skip_space_lem s in
      record {
        before = c ∷ r.before;
        splits = rw (yes_space, skip_space) (ap (λ t. c ∷ t) r.splits);
        blank = (yes_space, r.blank);
        stops = rw (yes_space, skip_space) r.stops;
      }
  | inr other ↦ record {
    before = [];
    splits = rw (other, skip_space);
    blank = tt;
    stops = rw (other, skip_space) other;
  }
]

-- The text read backwards, cut in two by `step_back`.
record StepBack (r : Bytes) : Type 0 where
  after : Bytes
  splits : r ≡ after ++ step_back r
  blank : AllSpace after
  stops : (isspace (peek (step_back r)) ≡ false) ⊎ ((c : ℕ) × (step_back r ≡ c ∷ []))

step_back_lem : (r : Bytes) → StepBack r
unfolding step_back isspace
step_back_lem [] = record { after = []; splits = refl; blank = tt; stops = inl refl }
step_back_lem (c ∷ []) = record { after = []; splits = refl; blank = tt; stops = inr (c, refl) }
step_back_lem (c ∷ d ∷ s) = elim (Bool-cases (isspace c)) [
  | inl yes_space ↦
      let r = step_back_lem (d ∷ s) in
      record {
        after = c ∷ r.after;
        splits = rw (yes_space, step_back) (ap (λ t. c ∷ t) r.splits);
        blank = (yes_space, r.blank);
        stops = rw (yes_space, step_back) r.stops;
      }
  | inr other ↦ record {
    after = [];
    splits = rw (other, step_back);
    blank = tt;
    stops = rw (other, step_back) (inl other);
  }
]

AllSpace-reverse : (s : Bytes) → AllSpace s → AllSpace (reverse s)
AllSpace-reverse [] h = tt
AllSpace-reverse (c ∷ s) h =
    rw reverse-cons (All-append _ (reverse s) (c ∷ []) (AllSpace-reverse s h.1) (h.0, tt))

-- A text without its leading and trailing blanks.
pub record Trimmed (s t : Bytes) : Type 0 where
  pub before : Bytes
  pub after : Bytes
  pub splits : s ≡ before ++ (t ++ after)
  pub blank_before : AllSpace before
  pub blank_after : AllSpace after
  pub first : isspace (peek t) ≡ false
  pub last : isspace (peek (reverse t)) ≡ false

peek_front : (t u p : Bytes) → p ≡ t ++ u → isspace (peek p) ≡ false → isspace (peek t) ≡ false
unfolding isspace
peek_front [] u p e h = refl
peek_front (c ∷ t) u p e h = rw e at h

peek_single :
    (r : Bytes)
    → (isspace (peek r) ≡ false) ⊎ ((c : ℕ) × (r ≡ c ∷ []))
    → isspace (peek (reverse r)) ≡ false
    → isspace (peek r) ≡ false
peek_single r (inl h) k = h
peek_single r (inr (c, e)) k = rw e (rw e at k)

-- `trim` on a text with no leading blank.
trim_back : (p : Bytes) → isspace (peek p) ≡ false → Trimmed p (reverse (step_back (reverse p)))
trim_back p h =
    let b = step_back_lem (reverse p) in
    let cut : p ≡ reverse (step_back (reverse p)) ++ reverse b.after =
      sym (reverse-reverse p)
      ∙ ap reverse b.splits
      ∙ reverse-append b.after (step_back (reverse p)) in
    let front = peek_front (reverse (step_back (reverse p))) (reverse b.after) p cut h in
    record {
      before = [];
      after = reverse b.after;
      splits = cut;
      blank_before = tt;
      blank_after = AllSpace-reverse b.after b.blank;
      first = front;
      last = rw reverse-reverse (peek_single (step_back (reverse p)) b.stops front);
    }

trim_split :
    (s p before : Bytes)
    → s ≡ before ++ p
    → AllSpace before
    → {t : Bytes} → Trimmed p t
    → Trimmed s t
trim_split s p before e h {t} r = record {
  before = before ++ r.before;
  after = r.after;
  splits = e ∙ ap (λ x. before ++ x) r.splits ∙ sym (append_assoc before r.before (t ++ r.after));
  blank_before = All-append _ before r.before h r.blank_before;
  blank_after = r.blank_after;
  first = r.first;
  last = r.last;
}

All-skip_space : (s : Bytes) → All (λ c. c ≢ 0) s → All (λ c. c ≢ 0) (skip_space s)
unfolding skip_space
All-skip_space [] h = tt
All-skip_space (c ∷ s) h = elim (Bool-cases (isspace c)) [
  | inl e ↦ rw (e, skip_space) (All-skip_space s h.1)
  | inr e ↦ rw (e, skip_space) h
]

-- At the end of the text nothing is left to cut.
trim_end :
    (p : Bytes)
    → All (λ c. c ≢ 0) p
    → isspace (peek p) ≡ false
    → Trimmed p (if peek p == 0 then p else reverse (step_back (reverse p)))
unfolding isspace
trim_end [] h k = record {
  before = [];
  after = [];
  splits = refl;
  blank_before = tt;
  blank_after = tt;
  first = refl;
  last = refl;
}
trim_end (c ∷ p) h k = rw (==_ne c 0 h.0) (trim_back (c ∷ p) k)

-- `trim` cuts blanks off both ends of a C string and nothing else: what is left neither begins nor
-- ends with a blank.
pub trim-Trimmed : (s : Bytes) → All (λ c. c ≢ 0) s → Trimmed s (trim s)
unfolding trim
trim-Trimmed s h =
    let r = skip_space_lem s in
    trim_split s (skip_space s) r.before r.splits r.blank
      (trim_end (skip_space s) (All-skip_space s h) r.stops)
