-- ===== src/Directory/Strings.antt =====
-- Names in the entries of filesys/directory.c: what strlcpy() writes, strcmp() finds the same.
use pint_os_assignment.Common.{
  ℕ, zero, suc, ◌+◌, ◌<◌, ◌≤◌, ◌≡◌, ◌≢◌, refl, sym, ap, ap₂, ◌∙◌, true, false≢true, List, [], ◌∷◌,
  length, arith, ◌==◌, ==_iff, update, inl, inr, Bool-cases, if_of_true, if_of_false,
}
use pint_os_assignment.Block.{Bytes}
use pint_os_assignment.Directory.{strcmp_same, put_name}

-- strcmp() reads the bytes of the name and one more.
pub strcmp_same-agree :
    (name : List ℕ) (b b' : Bytes) (i j : ℕ)
    → ((k : ℕ) → k ≤ length name → b (i + k) ≡ b' (j + k))
    → strcmp_same name b i ≡ strcmp_same name b' j
unfolding strcmp_same
strcmp_same-agree [] b b' i j h =
    ap (λ c. c == 0) (ap b (omega arith) ∙ h 0 (omega arith) ∙ ap b' (omega arith))
strcmp_same-agree (c ∷ name) b b' i j h =
    let e : b i ≡ b' j = ap b (omega arith) ∙ h 0 (omega arith) ∙ ap b' (omega arith) in
    let r : strcmp_same name b (i + 1) ≡ strcmp_same name b' (j + 1) =
      strcmp_same-agree name b b' (i + 1) (j + 1)
        (λ k p. ap b (omega arith) ∙ h (suc k) (omega arith) ∙ ap b' (omega arith)) in
    ground arith

put_name-before :
    (n : ℕ) (name : List ℕ) (dst : Bytes) (i k : ℕ) → k < i → put_name n name dst i k ≡ dst k
unfolding put_name
put_name-before zero name dst i k h = ground arith
put_name-before (suc n) [] dst i k h = ground arith
put_name-before (suc n) (c ∷ name) dst i k h =
    put_name-before n name (update dst i c) (i + 1) k (omega arith) ∙ ground arith

pub put_name-behind :
    (n : ℕ) (name : List ℕ) (dst : Bytes) (i k : ℕ) → i + n < k → put_name n name dst i k ≡ dst k
unfolding put_name
put_name-behind zero name dst i k h = ground arith
put_name-behind (suc n) [] dst i k h = ground arith
put_name-behind (suc n) (c ∷ name) dst i k h =
    put_name-behind n name (update dst i c) (i + 1) k (omega arith) ∙ ground arith

-- No byte of a name is zero.
abbrev pub IsName : List ℕ → Type 0
IsName [] = Unit
IsName (c ∷ name) = (c ≢ 0) × IsName name

-- A name that is written is the same as itself and as no other name.
pub strcmp_same-put_name :
    (n : ℕ) (name : List ℕ) (dst : Bytes) (i : ℕ)
    → length name ≤ n
    → strcmp_same name (put_name n name dst i) i ≡ true
unfolding strcmp_same put_name
strcmp_same-put_name zero [] dst i h = ground arith
strcmp_same-put_name zero (c ∷ name) dst i h = absurd (omega arith)
strcmp_same-put_name (suc n) [] dst i h = ground arith
strcmp_same-put_name (suc n) (c ∷ name) dst i h =
    let e : put_name n name (update dst i c) (i + 1) i ≡ c =
      put_name-before n name (update dst i c) (i + 1) i (omega arith) ∙ ground arith in
    if_of_true (c == put_name n name (update dst i c) (i + 1) i) _ _ (ground arith)
    ∙ strcmp_same-put_name n name (update dst i c) (i + 1) (omega arith)

pub strcmp_same_unique :
    (n : ℕ) (name other : List ℕ) (dst : Bytes) (i : ℕ)
    → length name ≤ n
    → IsName name
    → IsName other
    → strcmp_same other (put_name n name dst i) i ≡ true
    → other ≡ name
unfolding strcmp_same put_name
strcmp_same_unique zero (c ∷ name) other dst i h v w s = absurd (omega arith)
strcmp_same_unique zero [] [] dst i h v w s = refl
strcmp_same_unique zero [] (d ∷ other) dst i h v w s = absurd (ground (arith, w.0))
strcmp_same_unique (suc n) [] [] dst i h v w s = refl
strcmp_same_unique (suc n) [] (d ∷ other) dst i h v w s = absurd (ground (arith, w.0))
strcmp_same_unique (suc n) (c ∷ name) [] dst i h v w s =
    let e : put_name n name (update dst i c) (i + 1) i ≡ c =
      put_name-before n name (update dst i c) (i + 1) i (omega arith) ∙ ground arith in
    absurd (ground (arith, v.0))
strcmp_same_unique (suc n) (c ∷ name) (d ∷ other) dst i h v w s =
    let b = put_name n name (update dst i c) (i + 1) in
    let e : b i ≡ c =
      put_name-before n name (update dst i c) (i + 1) i (omega arith) ∙ ground arith in
    elim (Bool-cases (d == b i)) [
      | inl p ↦
          let r =
            strcmp_same_unique n name other (update dst i c) (i + 1) (omega arith) v.1 w.1
              (sym (if_of_true (d == b i) _ _ p) ∙ s) in
          ap₂ (λ x l. x ∷ l) ((==_iff d (b i)).0 p ∙ e) r
      | inr p ↦ absurd (false≢true (sym (if_of_false (d == b i) _ _ p) ∙ s))
    ]
